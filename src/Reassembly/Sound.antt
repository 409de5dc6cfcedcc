-- ===== src/Reassembly/Sound.antt =====
-- Which states of the reassembler meet no missing entry: those where a connection with waiting
-- chunks has one in the totals. The steps that make room, on such states.
use mathlib.Core.Option
use sov_vault.Base.{
  ℕ, ◌-◌, ◌≡◌, refl, sym, ap, subst, ◌∙◌, Bool, true, false, ◌⊎◌, inl, inr, List, [], ◌∷◌, Option,
  none, some, arith, ◌==◌, ==_iff, if◌then◌else◌, Option-cases, Bool-cases,
}
use sov_vault.Map
use sov_vault.Map.{nat_eq, pair_eq, Distinct}
use sov_vault.Map.Laws.{
  get-insert, get-remove, get-modify, get-insert_cases, get-insert_self, Distinct-insert,
  Distinct-modify,
}
use sov_vault.Reassembly.State.{SegmentKey, SegmentBuf, Reassembler, skipped, contains}
use sov_vault.Reassembly.Steps.{
  Step, mark_segment_error, drop_segment_pending, skip_segment, skip_segments, quarantine,
  count_eviction, pending_bytes_of,
}
use sov_vault.Reassembly.Quiet.{Segs, Related, Related-cleared, skip-Shrinks, skips-Shrinks}

abbrev Conns : Type 0
Conns = List (ℕ × ℕ)

abbrev pub HasEntry : ℕ → Conns → Type 0
HasEntry dev m = (c : ℕ) × (Map.get dev m ≡ some c)

abbrev pub IsBacked : Conns → SegmentKey → SegmentBuf → Type 0
IsBacked conns key s = (s.pending ≡ []) ⊎ HasEntry key.0 conns

pub record IsSound (r : Reassembler) : Type 0 where
  pub distinct : Distinct r.segs
  pub backed :
      (key : SegmentKey) (s : SegmentBuf)
      → Map.get key r.segs ≡ some s
      → IsBacked r.conn_pending key s

-- No entry is lost.
abbrev pub Keeps : Conns → Conns → Type 0
Keeps m m' = (dev : ℕ) → HasEntry dev m → HasEntry dev m'

IsBacked-Keeps :
    (m m' : Conns) (key : SegmentKey) (s : SegmentBuf)
    → Keeps m m'
    → IsBacked m key s
    → IsBacked m' key s
IsBacked-Keeps m m' key s k (inl e) = inl e
IsBacked-Keeps m m' key s k (inr e) = inr (k key.0 e)

pub insert-Keeps : (d c : ℕ) (m : Conns) → Keeps m (Map.insert d c m)
insert-Keeps d c m dev (c₀, e) = elim (Bool-cases (dev == d)) [
  | inl b ↦ (c, rw (get-insert dev d c m, b))
  | inr b ↦ (c₀, rw (get-insert dev d c m, b) e)
]

pub modify-Keeps : (d : ℕ) (f : ℕ → ℕ) (m : Conns) → Keeps m (Map.modify d f m)
modify-Keeps d f m dev (c₀, e) = elim (Bool-cases (dev == d)) [
  | inl b ↦ (f c₀, rw (get-modify dev d f m, b, e))
  | inr b ↦ (c₀, rw (get-modify dev d f m, b) e)
]

pub insert-IsSound :
    (r r' : Reassembler) (key : SegmentKey) (s' : SegmentBuf)
    → IsSound r
    → r'.segs ≡ Map.insert key s' r.segs
    → Keeps r.conn_pending r'.conn_pending
    → IsBacked r'.conn_pending key s'
    → IsSound r'
insert-IsSound r r' key s' v e k b = record {
  distinct = subst Distinct (sym e) (Distinct-insert key s' r.segs v.distinct);
  backed = λ j t g. elim (get-insert_cases j key s' t r.segs (sym (ap (Map.get j) e) ∙ g)) [
    | inl (at_key, is_new) ↦
        subst (IsBacked r'.conn_pending j) is_new
          (subst (λ (i : SegmentKey). IsBacked r'.conn_pending i s') (sym at_key) b)
    | inr old ↦ IsBacked-Keeps r.conn_pending r'.conn_pending j t k (v.backed j t old)
  ];
}

map-eq-some :
    (f : SegmentBuf → SegmentBuf) (o : Option SegmentBuf) (t : SegmentBuf)
    → Option.map f o ≡ some t
    → (s : SegmentBuf) × (o ≡ some s) × (f s ≡ t)
map-eq-some f none t h = absurd (ground arith)
map-eq-some f (some s) t h = (s, refl, ground arith)

pub modify-IsSound :
    (r r' : Reassembler) (key : SegmentKey) (f : SegmentBuf → SegmentBuf)
    → IsSound r
    → r'.segs ≡ Map.modify key f r.segs
    → Keeps r.conn_pending r'.conn_pending
    → ((s : SegmentBuf) → s.pending ≡ [] → (f s).pending ≡ [])
    → IsSound r'
modify-IsSound r r' key f v e k keeps_empty = record {
  distinct = subst Distinct (sym e) (Distinct-modify key f r.segs v.distinct);
  backed = λ j t g. elim (Bool-cases (pair_eq.beq j key)) [
    | inl b ↦
        let (s, e₁, e₂) =
          map-eq-some f (Map.get j r.segs) t
            (ground (arith, get-modify j key f r.segs, ap (Map.get j) e)) in
        subst (IsBacked r'.conn_pending j) e₂
          (elim (IsBacked-Keeps r.conn_pending r'.conn_pending j s k (v.backed j s e₁)) [
            | inl empty ↦ inl (keeps_empty s empty)
            | inr entry ↦ inr entry
          ])
    | inr b ↦
        IsBacked-Keeps r.conn_pending r'.conn_pending j t k
          (v.backed j t (ground (arith, get-modify j key f r.segs, ap (Map.get j) e)))
  ];
}

pub mark_segment_error-IsSound :
    (key : SegmentKey) (st : Step) → IsSound st.0 → IsSound (mark_segment_error key st).0
unfolding mark_segment_error
mark_segment_error-IsSound key (r, events) v =
    modify-IsSound r _ key _ v refl
      (modify-Keeps key.0 (λ c. c - pending_bytes_of key r) r.conn_pending) (λ s e. refl)

drop-IsSound :
    (key : SegmentKey) (r : Reassembler) → IsSound r → IsSound (drop_segment_pending key r)
unfolding drop_segment_pending
drop-IsSound key r v = elim (Option-cases (Map.get key r.segs)) [
  | inl e ↦ rw (drop_segment_pending, e) v
  | inr (s, e) ↦
      rw (drop_segment_pending, e)
        (insert-IsSound r _ key (record s { pending = []; pending_bytes = 0 }) v refl
          (modify-Keeps key.0 (λ c. c - s.pending_bytes) r.conn_pending) (inl refl))
]

skip-IsSound : (key : SegmentKey) (r : Reassembler) → IsSound r → IsSound (skip_segment key r)
unfolding skip_segment
skip-IsSound key r v =
    modify-IsSound (drop_segment_pending key r) _ key
      (λ (s : SegmentBuf). record s { state = skipped }) (drop-IsSound key r v) refl (λ dev e. e)
      (λ s e. e)

-- The segment at `key`, if there is one, has nothing waiting.
abbrev IsCleared : SegmentKey → Reassembler → Type 0
IsCleared key r = (s : SegmentBuf) → Map.get key r.segs ≡ some s → s.pending ≡ []

skip-clears : (key : SegmentKey) (r : Reassembler) → IsCleared key (skip_segment key r)
unfolding skip_segment drop_segment_pending
skip-clears key r t g = elim (Option-cases (Map.get key r.segs)) [
  | inl e ↦ absurd (ground (arith, get-modify key key marked r.segs, pair_eq.beq_iff key key))
  | inr (s, e) ↦
      let s' : SegmentBuf = record s { pending = []; pending_bytes = 0 } in
      let m = Map.insert key s' r.segs in
      ground
        (arith, get-modify key key marked m, get-insert_self key s' r.segs, pair_eq.beq_iff key key)
]
  where
    marked : SegmentBuf → SegmentBuf
    marked s = record s { state = skipped }

skip-keeps_IsCleared :
    (key j : SegmentKey) (r : Reassembler) → IsCleared j r → IsCleared j (skip_segment key r)
skip-keeps_IsCleared key j r c t g =
    Related-cleared (Map.get j r.segs) (Map.get j (skip_segment key r).segs) t
      (skip-Shrinks key r j) c g

skip_if-keeps_IsCleared :
    (b : Bool) (key j : SegmentKey) (r : Reassembler)
    → IsCleared j r
    → IsCleared j (if b then skip_segment key r else r)
skip_if-keeps_IsCleared true key j r c = skip-keeps_IsCleared key j r c
skip_if-keeps_IsCleared false key j r c = c

skip_if-IsSound :
    (b : Bool) (key : SegmentKey) (r : Reassembler)
    → IsSound r
    → IsSound (if b then skip_segment key r else r)
skip_if-IsSound true key r v = skip-IsSound key r v
skip_if-IsSound false key r v = v

skips-keeps_IsCleared :
    (dev : ℕ) (ks : Segs) (j : SegmentKey) (r : Reassembler)
    → IsCleared j r
    → IsCleared j (skip_segments dev ks r)
unfolding skip_segments
skips-keeps_IsCleared dev [] j r c = c
skips-keeps_IsCleared dev ((key, s) ∷ rest) j r c =
    skips-keeps_IsCleared dev rest j _ (skip_if-keeps_IsCleared (key.0 == dev) key j r c)

-- Every segment of the connection in the list is cleared.
skips-clears :
    (dev : ℕ) (ks : Segs) (j : SegmentKey) (s : SegmentBuf) (r : Reassembler)
    → j.0 ≡ dev
    → Map.get j ks ≡ some s
    → IsCleared j (skip_segments dev ks r)
unfolding skip_segments Map.get
skips-clears dev [] j s r d g = absurd (ground arith)
skips-clears dev ((key, s₀) ∷ rest) j s r d g = elim (Bool-cases (pair_eq.beq j key)) [
  | inl b ↦
      let at_key : j ≡ key = (pair_eq.beq_iff j key).0 b in
      let hit : (key.0 == dev) ≡ true =
        (==_iff key.0 dev).1 (sym (ap (λ (i : SegmentKey). i.0) at_key) ∙ d) in
      skips-keeps_IsCleared dev rest j _ (
        subst (λ (i : SegmentKey). IsCleared i (if key.0 == dev then skip_segment key r else r))
          (sym at_key) (rw hit (skip-clears key r)))
  | inr b ↦ skips-clears dev rest j s _ d (rw (Map.get, b) at g)
]

skips-IsSound :
    (dev : ℕ) (ks : Segs) (r : Reassembler) → IsSound r → IsSound (skip_segments dev ks r)
unfolding skip_segments
skips-IsSound dev [] r v = v
skips-IsSound dev ((key, s) ∷ rest) r v =
    skips-IsSound dev rest _ (skip_if-IsSound (key.0 == dev) key r v)

Related-none :
    (o o' : Option SegmentBuf) (t : SegmentBuf)
    → Related o o'
    → o' ≡ some t
    → (s : SegmentBuf) × (o ≡ some s)
Related-none none none t h e = absurd (ground arith)
Related-none none (some t') t h e = absurd h
Related-none (some s) o' t h e = (s, refl)

-- The quarantine forgets the connection's entry once all its segments are cleared.
quarantine-IsSound : (dev : ℕ) (st : Step) → IsSound st.0 → IsSound (quarantine dev st).0
unfolding quarantine
quarantine-IsSound dev (r, events) v = elim (Bool-cases (contains dev r.held)) [
  | inl b ↦ rw (quarantine, b) v
  | inr b ↦ rw (quarantine, b) (record { distinct = sound.distinct; backed = backed })
]
  where
    before : Reassembler
    before = record r { held = dev ∷ r.held }

    after : Reassembler
    after = skip_segments dev r.segs before

    sound : IsSound after
    sound = skips-IsSound dev r.segs before (record { distinct = v.distinct; backed = v.backed })

    backed :
        (key : SegmentKey) (t : SegmentBuf)
        → Map.get key after.segs ≡ some t
        → IsBacked (Map.remove dev after.conn_pending) key t
    backed key t g = elim (Bool-cases (key.0 == dev)) [
      | inl mine ↦
          let (s, e) =
            Related-none (Map.get key r.segs) (Map.get key after.segs) t
              (skips-Shrinks dev r.segs before key) g in
          inl (skips-clears dev r.segs key s before ((==_iff key.0 dev).0 mine) e t g)
      | inr other ↦ elim (sound.backed key t g) [
        | inl empty ↦ inl empty
        | inr (c, e) ↦ inr (c, rw (get-remove key.0 dev after.conn_pending, other) e)
      ]
    ]

quarantine_if-IsSound :
    (b : Bool) (dev : ℕ) (st : Step)
    → IsSound st.0
    → IsSound (if b then quarantine dev st else st).0
quarantine_if-IsSound true dev st v = quarantine-IsSound dev st v
quarantine_if-IsSound false dev st v = v

pub count_eviction-IsSound :
    (dev : ℕ) (st : Step) → IsSound st.0 → IsSound (count_eviction dev st).0
unfolding count_eviction
count_eviction-IsSound dev (r, events) v =
    quarantine_if-IsSound _ dev _ (record { distinct = v.distinct; backed = v.backed })
