-- ===== src/Reassembly/Account/Room.antt =====
-- The byte counts over the steps that make room.
use sov_vault.Base.{
  ℕ, ◌-◌, ◌^◌, ◌≤◌, ◌<◌, ◌≡◌, refl, ◌∙◌, Bool, true, false, inl, inr, [], ◌∷◌, some, arith, ◌==◌,
  if◌then◌else◌, Option-cases, Bool-cases,
}
use sov_vault.Map
use sov_vault.Map.{nat_eq, pair_eq, Distinct}
use sov_vault.Map.Laws.{modify-get_some, modify-get_none}
use sov_vault.Reassembly.Pending
use sov_vault.Reassembly.Pending.{Pending, remove-bytes}
use sov_vault.Reassembly.State.{
  SegmentKey, SegmentState, SegmentBuf, Reassembler, sub64, skipped, contains,
}
use sov_vault.Reassembly.Steps.{
  Step, mark_segment_error, drop_segment_pending, skip_segment, skip_segments, quarantine,
  count_eviction, pending_bytes_of,
}
use sov_vault.Reassembly.Quiet.{Segs}
use sov_vault.Reassembly.Account.{
  Caps, Accounted, pending_bytes_of-le, insert-Accounted, same-Accounted,
}

pub sub64-le : (a b : ℕ) → b ≤ a → a < 2 ^ 64 → sub64 a b ≡ a - b
sub64-le a b h f = omega arith

pub pending_bytes_of-some :
    (key : SegmentKey) (s : SegmentBuf) (r : Reassembler)
    → Map.get key r.segs ≡ some s
    → pending_bytes_of key r ≡ s.pending_bytes
unfolding pending_bytes_of
pending_bytes_of-some key s r e = rw (pending_bytes_of, e) refl

module _ (l2 : ℕ) (caps : Caps) (limit : ℕ) where
  -- A segment that is emptied, where the global count pays.
  clear-Accounted :
      (key : SegmentKey) (s s' : SegmentBuf) (r r' : Reassembler)
      → Accounted l2 caps limit r
      → Map.get key r.segs ≡ some s
      → r'.segs ≡ Map.insert key s' r.segs
      → s'.pending ≡ []
      → s'.pending_bytes ≡ 0
      → r'.global_pending ≡ r.global_pending - s.pending_bytes
      → r'.budgets ≡ r.budgets
      → Accounted l2 caps limit r'
  unfolding Pending.bytes
  clear-Accounted key s s' r r' v e₁ e p z g bud =
      let at_key = pending_bytes_of-some key s r e₁ in
      let below = pending_bytes_of-le l2 caps limit key r v in
      insert-Accounted l2 caps limit caps limit key s' r r' v e
        (rw (p, z) (omega arith, omega arith)) (λ j n. omega arith) (omega arith)
        (omega (arith, v.bounded)) bud

  pub mark_segment_error-Accounted :
      (key : SegmentKey) (st : Step)
      → Accounted l2 caps limit st.0
      → Accounted l2 caps limit (mark_segment_error key st).0
  unfolding mark_segment_error
  mark_segment_error-Accounted key (r, events) v = elim (Option-cases (Map.get key r.segs)) [
    | inl e ↦
        same-Accounted l2 caps limit r _ v (modify-get_none key clear r.segs e)
          (rw (pending_bytes_of, e) (omega arith)) refl
    | inr (s, e) ↦
        clear-Accounted key s (clear s) r _ v e (modify-get_some key clear s r.segs e) refl refl
          (rw (pending_bytes_of, e) (omega arith)) refl
  ]
    where
      clear : SegmentBuf → SegmentBuf
      clear s = record s { state = SegmentState.error; pending = []; pending_bytes = 0 }

  drop-Accounted :
      (key : SegmentKey) (r : Reassembler)
      → Accounted l2 caps limit r
      → Accounted l2 caps limit (drop_segment_pending key r)
  unfolding drop_segment_pending
  drop-Accounted key r v = elim (Option-cases (Map.get key r.segs)) [
    | inl e ↦ rw (drop_segment_pending, e) v
    | inr (s, e) ↦
        rw (drop_segment_pending, e)
          (clear-Accounted key s (record s { pending = []; pending_bytes = 0 }) r _ v e refl refl
            refl refl refl)
  ]

  -- A segment whose counts stay.
  pub mark-Accounted :
      (key : SegmentKey) (f : SegmentBuf → SegmentBuf) (r r' : Reassembler)
      → Accounted l2 caps limit r
      → ((s : SegmentBuf) → (f s).pending ≡ s.pending)
      → ((s : SegmentBuf) → (f s).pending_bytes ≡ s.pending_bytes)
      → r'.segs ≡ Map.modify key f r.segs
      → r'.global_pending ≡ r.global_pending
      → r'.budgets ≡ r.budgets
      → Accounted l2 caps limit r'
  mark-Accounted key f r r' v p b e g bud = elim (Option-cases (Map.get key r.segs)) [
    | inl n ↦ same-Accounted l2 caps limit r r' v (e ∙ modify-get_none key f r.segs n) g bud
    | inr (s, n) ↦
        let at_key = pending_bytes_of-some key s r n in
        insert-Accounted l2 caps limit caps limit key (f s) r r' v
          (e ∙ modify-get_some key f s r.segs n) (rw (p s, b s) (v.fits key s n))
          (λ j h. omega arith) (omega (arith, b s)) (omega (arith, v.bounded)) bud
  ]

  skip-Accounted :
      (key : SegmentKey) (r : Reassembler)
      → Accounted l2 caps limit r
      → Accounted l2 caps limit (skip_segment key r)
  unfolding skip_segment
  skip-Accounted key r v =
      mark-Accounted key (λ (s : SegmentBuf). record s { state = skipped })
        (drop_segment_pending key r) (skip_segment key r) (drop-Accounted key r v) (λ s. refl)
        (λ s. refl) refl refl refl

  skip_if-Accounted :
      (b : Bool) (key : SegmentKey) (r : Reassembler)
      → Accounted l2 caps limit r
      → Accounted l2 caps limit (if b then skip_segment key r else r)
  skip_if-Accounted true key r v = skip-Accounted key r v
  skip_if-Accounted false key r v = v

  skips-Accounted :
      (dev : ℕ) (ks : Segs) (r : Reassembler)
      → Accounted l2 caps limit r
      → Accounted l2 caps limit (skip_segments dev ks r)
  unfolding skip_segments
  skips-Accounted dev [] r v = v
  skips-Accounted dev ((key, s) ∷ rest) r v =
      skips-Accounted dev rest _ (skip_if-Accounted (key.0 == dev) key r v)

  quarantine-Accounted :
      (dev : ℕ) (st : Step)
      → Accounted l2 caps limit st.0
      → Accounted l2 caps limit (quarantine dev st).0
  unfolding quarantine
  quarantine-Accounted dev (r, events) v = elim (Bool-cases (contains dev r.held)) [
    | inl b ↦ rw (quarantine, b) v
    | inr b ↦
        let before = record r { held = dev ∷ r.held } in
        rw (quarantine, b)
          (same-Accounted l2 caps limit (skip_segments dev r.segs before) _
            (skips-Accounted dev r.segs before
              (same-Accounted l2 caps limit r before v refl refl refl))
            refl refl refl)
  ]

  quarantine_if-Accounted :
      (b : Bool) (dev : ℕ) (st : Step)
      → Accounted l2 caps limit st.0
      → Accounted l2 caps limit (if b then quarantine dev st else st).0
  quarantine_if-Accounted true dev st v = quarantine-Accounted dev st v
  quarantine_if-Accounted false dev st v = v

  pub count_eviction-Accounted :
      (dev : ℕ) (st : Step)
      → Accounted l2 caps limit st.0
      → Accounted l2 caps limit (count_eviction dev st).0
  unfolding count_eviction
  count_eviction-Accounted dev (r, events) v =
      quarantine_if-Accounted _ dev _ (same-Accounted l2 caps limit r _ v refl refl refl)
