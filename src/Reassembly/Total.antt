-- ===== src/Reassembly/Total.antt =====
-- src/reassembly.rs: the steps that drain a segment or evict a chunk, on sound states. Place is
-- about place_chunk, Seal about seal.
pub mod Place
pub mod Seal
use sov_vault.Base.{
  ℕ, zero, suc, ◌+◌, ◌-◌, ◌%◌, ◌^◌, ◌≤◌, ◌<◌, ◌≡◌, refl, sym, ap, subst, ◌∙◌, max, Bool, true,
  false, not, ◌&&◌, ◌||◌, ◌⊎◌, inl, inr, List, [], ◌∷◌, ◌++◌, Option, none, some, arith, length,
  ltb, leb, ◌==◌, if◌then◌else◌, Option-cases, Bool-cases,
}
use sov_vault.Map
use sov_vault.Map.{nat_eq, pair_eq, Distinct}
use sov_vault.Map.Laws.{get-insert_self, Distinct-remove}
use sov_vault.Reassembly.Pending
use sov_vault.Reassembly.Pending.{Pending, remove-nil, remove-bytes, remove-first_key}
use sov_vault.Reassembly.State.{
  SegmentKey, Event, append, evicted, dup, SegmentBuf, Reassembler, Budgets, empty, add64, sub64,
  contains,
}
use sov_vault.Reassembly.Steps.{
  Step, ◌>>=◌, pay_back, advance, drain, waiting, drain_contiguous, evict_found, evict_chunk,
  evict_oldest_in_dev, oldest_in_dev, evict_oldest_global, oldest_global, lower, prefer, same,
  count_eviction, mark_segment_error, pending_bytes_of, next_expected_of,
}
use sov_vault.Reassembly.Engine.{
  drop, or_new, grow, store, conn_used, check_l25, check_l3, place_new, place_chunk, count_dup,
}
use sov_vault.Reassembly.Evict.{pay_back-eq-some}
use sov_vault.Reassembly.Quiet.{Segs}
use sov_vault.Reassembly.Sound.{
  IsSound, IsBacked, HasEntry, insert-Keeps, insert-IsSound, modify-IsSound, count_eviction-IsSound,
  mark_segment_error-IsSound,
}

-- The step returns, and the state stays sound.
abbrev pub Returns : Option Step → Type 0
Returns o = (st' : Step) × (o ≡ some st') × IsSound st'.0

abbrev paid : ℕ → ℕ → ℕ → Reassembler → Reassembler
paid dev sz c r = record r {
  global_pending = sub64 r.global_pending sz;
  conn_pending = Map.insert dev (c - sz) r.conn_pending;
}

pay_back-total :
    (dev sz c : ℕ) (r : Reassembler)
    → Map.get dev r.conn_pending ≡ some c
    → pay_back dev sz r ≡ some (paid dev sz c r)
unfolding pay_back
pay_back-total dev sz c r e = rw (pay_back, e)

-- A chunk can leave a sound segment, and leaves it sound.
paid-IsSound :
    (key : SegmentKey) (s s' : SegmentBuf) (sz c : ℕ) (r : Reassembler)
    → IsSound r
    → Map.get key.0 r.conn_pending ≡ some c
    → IsSound (paid key.0 sz c (record r { segs = Map.insert key s' r.segs }))
paid-IsSound key s s' sz c r v e =
    insert-IsSound r _ key s' v refl (insert-Keeps key.0 (c - sz) r.conn_pending)
      (inr (insert-Keeps key.0 (c - sz) r.conn_pending key.0 (c, e)))

-- The entry that backs a segment with something to remove.
entry :
    (key : SegmentKey) (s : SegmentBuf) (k : ℕ) (chunk : List ℕ) (rest : Pending) (r : Reassembler)
    → IsSound r
    → Map.get key r.segs ≡ some s
    → Pending.remove k s.pending ≡ some (chunk, rest)
    → HasEntry key.0 r.conn_pending
entry key s k chunk rest r v e₁ e₂ = elim (v.backed key s e₁) [
  | inl n ↦ absurd (ground (arith, remove-nil k s.pending n))
  | inr found ↦ found
]

drain-total :
    (fuel : ℕ) (key : SegmentKey) (r : Reassembler) (events : List Event)
    → IsSound r
    → waiting key r < fuel
    → Returns (drain fuel key (r, events))
unfolding drain waiting
drain-total zero key r events v h = absurd (omega arith)
drain-total (suc fuel) key r events v h = elim (Option-cases (Map.get key r.segs)) [
  | inl n ↦ ((r, events), rw (drain, n), v)
  | inr (s, e₁) ↦ elim (Option-cases (Pending.remove s.next_expected s.pending)) [
    | inl n ↦ ((r, events), rw (drain, e₁, n), v)
    | inr ((chunk, rest), e₂) ↦
        let (c, e₃) = entry key s s.next_expected chunk rest r v e₁ e₂ in
        let s' : SegmentBuf = advance s (length chunk) rest in
        let moved = record r { segs = Map.insert key s' r.segs } in
        let p = pay_back-total key.0 (length chunk) c moved e₃ in
        let fewer : waiting key (paid key.0 (length chunk) c moved) < fuel =
          rw (waiting, get-insert_self key s' r.segs)
            (ground (arith, remove-bytes s.next_expected s.pending chunk rest e₂)) in
        let (st', e₄, v') =
          drain-total fuel key (paid key.0 (length chunk) c moved)
            (events ++ append key.0 key.1 s.next_expected chunk ∷ [])
            (paid-IsSound key s s' (length chunk) c r v e₃) fewer in
        (st', rw (drain, e₁, e₂, p) e₄, v')
  ]
]

pub drain_contiguous-total :
    (key : SegmentKey) (st : Step) → IsSound st.0 → Returns (drain_contiguous key st)
unfolding drain_contiguous
drain_contiguous-total key (r, events) v =
    drain-total (suc (waiting key r)) key r events v (omega arith)

evict_chunk-total :
    (key : SegmentKey) (s : SegmentBuf) (offset : ℕ) (st : Step)
    → IsSound st.0
    → Map.get key st.0.segs ≡ some s
    → Pending.first_key s.pending ≡ some offset
    → Returns (evict_chunk key offset st)
unfolding evict_chunk evict_found
evict_chunk-total key s offset (r, events) v e₁ f =
    let (chunk, rest, e₂) = remove-first_key offset s.pending f in
    let (c, e₃) = entry key s offset chunk rest r v e₁ e₂ in
    let s' : SegmentBuf = record s {
      pending = rest;
      pending_bytes = sub64 s.pending_bytes (length chunk);
    } in
    let moved = record r { segs = Map.insert key s' r.segs } in
    let p = pay_back-total key.0 (length chunk) c moved e₃ in
    (
      (paid key.0 (length chunk) c moved, events ++ evicted key.0 key.1 offset (length chunk) ∷ []),
      rw (evict_chunk, e₁, e₂, evict_found, p),
      paid-IsSound key s s' (length chunk) c r v e₃,
    )

-- The entries of `ks` are those of the map.
abbrev Within : Segs → Segs → Type 0
Within m [] = Unit {0}
Within m ((key, s) ∷ rest) = (Map.get key m ≡ some s) × Within m rest

Within-cons :
    (key : SegmentKey) (s : SegmentBuf) (m ks : Segs)
    → Map.get key m ≡ none
    → Within m ks
    → Within ((key, s) ∷ m) ks
unfolding Map.get
Within-cons key s m [] e w = tt
Within-cons key s m ((j, t) ∷ ks) e w =
    (ground (arith, w.0, pair_eq.beq_iff j key), Within-cons key s m ks e w.1)

Within-self : (m : Segs) → Distinct m → Within m m
unfolding Map.get
Within-self [] d = tt
Within-self ((key, s) ∷ m) d =
    (ground (arith, pair_eq.beq_iff key key), Within-cons key s m m d.0 (Within-self m d.1))

-- A target is the first waiting chunk of a segment of the map.
abbrev IsTarget : Segs → Option (SegmentKey × ℕ) → Type 0
IsTarget m none = Unit {0}
IsTarget m (some (key, offset)) =
    (s : SegmentBuf) × (Map.get key m ≡ some s) × (Pending.first_key s.pending ≡ some offset)

oldest_in_dev-IsTarget :
    (dev : ℕ) (m ks : Segs) (target : Option (SegmentKey × ℕ))
    → Within m ks
    → IsTarget m target
    → IsTarget m (oldest_in_dev dev ks target)
unfolding oldest_in_dev
oldest_in_dev-IsTarget dev m [] target w t = t
oldest_in_dev-IsTarget dev m ((key, s) ∷ rest) target w t = elim (Bool-cases (key.0 == dev)) [
  | inl b ↦ elim (Option-cases (Pending.first_key s.pending)) [
    | inl n ↦ rw (oldest_in_dev, b, n) (oldest_in_dev-IsTarget dev m rest target w.1 t)
    | inr (off, f) ↦
        rw (oldest_in_dev, b, f)
          (oldest_in_dev-IsTarget dev m rest _ w.1 (nearer target off (s, w.0, f) t))
  ]
  | inr b ↦ rw (oldest_in_dev, b) (oldest_in_dev-IsTarget dev m rest target w.1 t)
]
  where
    nearer :
        (o : Option (SegmentKey × ℕ)) (off : ℕ)
        → IsTarget m (some (key, off))
        → IsTarget m o
        → IsTarget m (lower key off o)
    nearer none off a t = a
    nearer (some (k, to)) off a t = elim (Bool-cases (ltb off to)) [
      | inl b ↦ rw b a
      | inr b ↦ rw b t
    ]

oldest_global-IsTarget :
    (held : List ℕ) (m ks : Segs) (target : Option (SegmentKey × ℕ))
    → Within m ks
    → IsTarget m target
    → IsTarget m (oldest_global held ks target)
unfolding oldest_global
oldest_global-IsTarget held m [] target w t = t
oldest_global-IsTarget held m ((key, s) ∷ rest) target w t =
    elim (Option-cases (Pending.first_key s.pending)) [
      | inl n ↦ rw (oldest_global, n) (oldest_global-IsTarget held m rest target w.1 t)
      | inr (off, f) ↦
          rw (oldest_global, f)
            (oldest_global-IsTarget held m rest _ w.1 (better target off (s, w.0, f) t))
    ]
  where
    wins : SegmentKey → ℕ → ℕ → Bool
    wins k to off =
        (contains key.0 held && not (contains k.0 held))
        || (same (contains key.0 held) (contains k.0 held) && ltb off to)

    better :
        (o : Option (SegmentKey × ℕ)) (off : ℕ)
        → IsTarget m (some (key, off))
        → IsTarget m o
        → IsTarget m (prefer held key off o)
    better none off a t = a
    better (some (k, to)) off a t = elim (Bool-cases (wins k to off)) [
      | inl b ↦ rw b a
      | inr b ↦ rw b t
    ]

evict_then_count :
    (dev : ℕ) (r : Reassembler) (events : List Event) (target : SegmentKey × ℕ) (st' : Step)
    → oldest_in_dev dev r.segs none ≡ some target
    → evict_chunk target.0 target.1 (r, events) ≡ some st'
    → evict_oldest_in_dev dev (r, events) ≡ some (count_eviction dev st')
unfolding evict_oldest_in_dev
evict_then_count dev r events target st' e e₁ = rw (evict_oldest_in_dev, e, e₁)

pub evict_oldest_in_dev-total :
    (dev : ℕ) (st : Step) → IsSound st.0 → Returns (evict_oldest_in_dev dev st)
unfolding evict_oldest_in_dev
evict_oldest_in_dev-total dev (r, events) v = elim (Option-cases (oldest_in_dev dev r.segs none)) [
  | inl n ↦ ((r, events), rw (evict_oldest_in_dev, n), v)
  | inr ((key, off), e) ↦
      let t =
        subst (IsTarget r.segs) e
          (oldest_in_dev-IsTarget dev r.segs r.segs none (Within-self r.segs v.distinct) tt) in
      let (st', e₁, v') = evict_chunk-total key t.0 off (r, events) v t.1 t.2 in
      (
        count_eviction dev st',
        evict_then_count dev r events (key, off) st' e e₁,
        count_eviction-IsSound dev st' v',
      )
]

pub evict_oldest_global-total : (st : Step) → IsSound st.0 → Returns (evict_oldest_global st)
unfolding evict_oldest_global
evict_oldest_global-total (r, events) v = elim (Option-cases (oldest_global r.held r.segs none)) [
  | inl n ↦ ((r, events), rw (evict_oldest_global, n), v)
  | inr ((key, off), e) ↦
      let t =
        subst (IsTarget r.segs) e
          (oldest_global-IsTarget r.held r.segs r.segs none (Within-self r.segs v.distinct) tt) in
      rw (evict_oldest_global, e) (evict_chunk-total key t.0 off (r, events) v t.1 t.2)
]
