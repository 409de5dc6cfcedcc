-- ===== src/Reassembly/Quiet.antt =====
-- The steps that make room, as the cursors and the waiting chunks show them.
use mathlib.Core.Option
use sov_vault.Base.{
  ℕ, ◌≡◌, refl, ap, ◌∙◌, Bool, true, false, inl, inr, List, [], ◌∷◌, ◌++◌, Option, none, some,
  arith, append-nil, ◌==◌, if◌then◌else◌, Option-cases, Bool-cases,
}
use sov_vault.Map
use sov_vault.Map.{nat_eq, pair_eq}
use sov_vault.Map.Laws.{get-insert, get-modify}
use sov_vault.Reassembly.Pending.{All}
use sov_vault.Reassembly.State.{SegmentKey, Event, quarantined, SegmentBuf, Reassembler, contains}
use sov_vault.Reassembly.Steps.{
  Step, mark_segment_error, drop_segment_pending, skip_segment, skip_segments, quarantine,
  count_eviction,
}
use sov_vault.Reassembly.Slices.{IsSlice}
use sov_vault.Reassembly.Progress.{written, written-append}

abbrev pub Segs : Type 0
Segs = List (SegmentKey × SegmentBuf)

-- The cursor stays, and no chunk is added.
pub record Shrunk (s t : SegmentBuf) : Type 0 where
  pub cursor : t.next_expected ≡ s.next_expected
  pub fewer : (content : List ℕ) → All (IsSlice content) s.pending → All (IsSlice content) t.pending
  pub empty : s.pending ≡ [] → t.pending ≡ []

abbrev pub Related : Option SegmentBuf → Option SegmentBuf → Type 0
Related none none = Unit {0}
Related none (some t) = ⊥
Related (some s) none = ⊥
Related (some s) (some t) = Shrunk s t

abbrev pub Shrinks : Segs → Segs → Type 0
Shrinks m m' = (key : SegmentKey) → Related (Map.get key m) (Map.get key m')

Shrunk-refl : (s : SegmentBuf) → Shrunk s s
Shrunk-refl s = record { cursor = refl; fewer = λ c h. h; empty = λ e. e }

Shrunk-trans : {s t u : SegmentBuf} → Shrunk s t → Shrunk t u → Shrunk s u
Shrunk-trans a b = record {
  cursor = b.cursor ∙ a.cursor;
  fewer = λ c h. b.fewer c (a.fewer c h);
  empty = λ e. b.empty (a.empty e);
}

Related-refl : (o : Option SegmentBuf) → Related o o
Related-refl none = tt
Related-refl (some s) = Shrunk-refl s

Related-trans : (a b c : Option SegmentBuf) → Related a b → Related b c → Related a c
Related-trans none none none p q = tt
Related-trans none none (some c) p q = q
Related-trans none (some b) c p q = absurd p
Related-trans (some a) none c p q = absurd p
Related-trans (some a) (some b) none p q = q
Related-trans (some a) (some b) (some c) p q = Shrunk-trans p q

pub Shrinks-refl : (m : Segs) → Shrinks m m
Shrinks-refl m key = Related-refl (Map.get key m)

pub Shrinks-trans : (a b c : Segs) → Shrinks a b → Shrinks b c → Shrinks a c
Shrinks-trans a b c p q key =
    Related-trans (Map.get key a) (Map.get key b) (Map.get key c) (p key) (q key)

Related-map :
    (f : SegmentBuf → SegmentBuf) (o : Option SegmentBuf)
    → ((s : SegmentBuf) → Shrunk s (f s))
    → Related o (Option.map f o)
Related-map f none h = tt
Related-map f (some s) h = h s

pub Related-cleared :
    (o o' : Option SegmentBuf) (t : SegmentBuf)
    → Related o o'
    → ((s : SegmentBuf) → o ≡ some s → s.pending ≡ [])
    → o' ≡ some t
    → t.pending ≡ []
Related-cleared none none t h c e = absurd (ground arith)
Related-cleared none (some t') t h c e = absurd h
Related-cleared (some s) none t h c e = absurd h
Related-cleared (some s) (some t') t h c e = ground (arith, h.empty (c s refl))

pub modify-Shrinks :
    (k : SegmentKey) (f : SegmentBuf → SegmentBuf) (m : Segs)
    → ((s : SegmentBuf) → Shrunk s (f s))
    → Shrinks m (Map.modify k f m)
modify-Shrinks k f m h key = rw (get-modify key k f m) (elim (Bool-cases (pair_eq.beq key k)) [
  | inl e ↦ rw e (Related-map f (Map.get key m) h)
  | inr e ↦ rw e (Related-refl (Map.get key m))
])

pub insert-Shrinks :
    (k : SegmentKey) (s t : SegmentBuf) (m : Segs)
    → Map.get k m ≡ some s
    → Shrunk s t
    → Shrinks m (Map.insert k t m)
insert-Shrinks k s t m e h key = rw (get-insert key k t m) (elim (Bool-cases (pair_eq.beq key k)) [
  | inl b ↦ rw (b, (pair_eq.beq_iff key k).0 b, e) h
  | inr b ↦ rw b (Related-refl (Map.get key m))
])

cleared-Shrunk : (s : SegmentBuf) → Shrunk s (record s { pending = []; pending_bytes = 0 })
cleared-Shrunk s = record { cursor = refl; fewer = λ c h. tt; empty = λ e. refl }

drop-Shrinks :
    (key : SegmentKey) (r : Reassembler) → Shrinks r.segs (drop_segment_pending key r).segs
unfolding drop_segment_pending
drop-Shrinks key r = elim (Option-cases (Map.get key r.segs)) [
  | inl e ↦ rw (e, drop_segment_pending) (Shrinks-refl r.segs)
  | inr (s, e) ↦ rw (e, drop_segment_pending) (insert-Shrinks key s _ r.segs e (cleared-Shrunk s))
]

pub skip-Shrinks : (key : SegmentKey) (r : Reassembler) → Shrinks r.segs (skip_segment key r).segs
unfolding skip_segment
skip-Shrinks key r =
    Shrinks-trans r.segs (drop_segment_pending key r).segs (skip_segment key r).segs
      (drop-Shrinks key r)
      (modify-Shrinks key _ _ (λ s. record { cursor = refl; fewer = λ c h. h; empty = λ e. e }))

skip_if-Shrinks :
    (b : Bool) (key : SegmentKey) (r : Reassembler)
    → Shrinks r.segs (if b then skip_segment key r else r).segs
skip_if-Shrinks true key r = skip-Shrinks key r
skip_if-Shrinks false key r = Shrinks-refl r.segs

pub skips-Shrinks :
    (dev : ℕ) (ks : Segs) (r : Reassembler) → Shrinks r.segs (skip_segments dev ks r).segs
unfolding skip_segments
skips-Shrinks dev [] r = Shrinks-refl r.segs
skips-Shrinks dev ((key, s) ∷ rest) r =
    Shrinks-trans r.segs (if key.0 == dev then skip_segment key r else r).segs _
      (skip_if-Shrinks (key.0 == dev) key r) (skips-Shrinks dev rest _)

-- A step that only takes chunks away and reports no data.
pub record IsQuiet (st st' : Step) : Type 0 where
  pub segs : Shrinks st.0.segs st'.0.segs
  pub events : (key : SegmentKey) → written key st'.1 ≡ written key st.1

pub IsQuiet-refl : (st : Step) → IsQuiet st st
IsQuiet-refl st = record { segs = Shrinks-refl st.0.segs; events = λ key. refl }

pub IsQuiet-trans : (a b c : Step) → IsQuiet a b → IsQuiet b c → IsQuiet a c
IsQuiet-trans a b c p q = record {
  segs = Shrinks-trans a.0.segs b.0.segs c.0.segs p.segs q.segs;
  events = λ key. q.events key ∙ p.events key;
}

pub written-quiet :
    (key : SegmentKey) (events more : List Event)
    → written key more ≡ []
    → written key (events ++ more) ≡ written key events
written-quiet key events more e =
    written-append key events more
    ∙ ap (λ t. written key events ++ t) e
    ∙ append-nil (written key events)

pub mark_segment_error-IsQuiet :
    (key : SegmentKey) (st : Step) → IsQuiet st (mark_segment_error key st)
unfolding mark_segment_error written
mark_segment_error-IsQuiet key (r, events) = record {
  segs =
      modify-Shrinks key _ r.segs
        (λ s. record { cursor = refl; fewer = λ c h. tt; empty = λ e. refl });
  events = λ k. written-quiet k events _ refl;
}

quarantine-IsQuiet : (dev : ℕ) (st : Step) → IsQuiet st (quarantine dev st)
unfolding quarantine written
quarantine-IsQuiet dev (r, events) = elim (Bool-cases (contains dev r.held)) [
  | inl e ↦ rw (quarantine, e) (IsQuiet-refl (r, events))
  | inr e ↦
      rw (quarantine, e)
        (record {
          segs = skips-Shrinks dev r.segs (record r { held = dev ∷ r.held });
          events = λ k. written-quiet k events (quarantined dev ∷ []) refl;
        })
]

quarantine_if-IsQuiet :
    (b : Bool) (dev : ℕ) (st : Step) → IsQuiet st (if b then quarantine dev st else st)
quarantine_if-IsQuiet true dev st = quarantine-IsQuiet dev st
quarantine_if-IsQuiet false dev st = IsQuiet-refl st

pub count_eviction-IsQuiet : (dev : ℕ) (st : Step) → IsQuiet st (count_eviction dev st)
unfolding count_eviction
count_eviction-IsQuiet dev (r, events) =
    IsQuiet-trans (r, events) _ _ (record { segs = Shrinks-refl r.segs; events = λ k. refl })
      (quarantine_if-IsQuiet _ dev _)
