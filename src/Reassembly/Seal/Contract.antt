-- ===== src/Reassembly/Seal/Contract.antt =====
-- src/reassembly.rs: what a seal says of a content that came in slices, and what it releases.
use sov_vault.Base.{
  ℕ, zero, suc, ◌+◌, ◌-◌, ◌%◌, ◌^◌, ◌<◌, ◌≡◌, ◌≢◌, ◌↔◌, ◌∙◌, refl, sym, ap, subst, Bool, true,
  false, not, ◌&&◌, List, [], ◌∷◌, ◌++◌, none, some, arith, length, length-append, ◌==◌,
  if◌then◌else◌, Option-cases, Bool-cases, inl, inr, append-nil, ==_iff, ==_refl,
}
use sov_vault.Map
use sov_vault.Map.{nat_eq, pair_eq}
use sov_vault.Map.Laws.{get-modify, get-remove}
use sov_vault.Reassembly.State.{
  SegmentKey, Event, seal_gap, SegmentBuf, Reassembler, Budgets, empty,
}
use sov_vault.Reassembly.Steps.{Step, forgive, release_segment, next_expected_of, pending_bytes_of}
use sov_vault.Reassembly.Engine.{
  drop, conn_used, last_seq_of, skipped_from, note_seq, missing_before, settle, seal,
}
use sov_vault.Reassembly.Progress.{written}
use sov_vault.Reassembly.Run.{Chunk, place_chunks, AllSlices}
use sov_vault.Reassembly.Delivery.{place_chunks-delivers}
use sov_vault.Reassembly.Seal.{says, says-append, is_sealed, is_gap, note_seq-segs, settle_lem}

-- The reports of skipped segments are of another kind.
skipped_from-untold :
    (dev first count d seq cursor size : ℕ)
    → (says (is_sealed d seq size) (skipped_from dev first count) ≡ false)
      × (says (is_gap d seq cursor size) (skipped_from dev first count) ≡ false)
unfolding skipped_from says
skipped_from-untold dev first zero d seq cursor size = (refl, refl)
skipped_from-untold dev first (suc count) d seq cursor size =
    skipped_from-untold dev (suc first) count d seq cursor size

missing_before-untold :
    (dev seq cursor size : ℕ) (r : Reassembler)
    → (says (is_sealed dev seq size) (missing_before dev seq r) ≡ false)
      × (says (is_gap dev seq cursor size) (missing_before dev seq r) ≡ false)
unfolding missing_before says
missing_before-untold dev seq cursor size r = ground (
  arith,
  skipped_from-untold dev ((last_seq_of dev r + 1) % 2 ^ 32)
      (seq - (last_seq_of dev r + 1) % 2 ^ 32) dev seq cursor size,
)

says-last :
    (t : Event → Bool) (xs : List Event) (e : Event)
    → says t xs ≡ false
    → says t (xs ++ e ∷ []) ≡ t e
unfolding says
says-last t xs e h = ground (arith, says-append t xs (e ∷ []))

-- The event that a seal of a held segment ends with.
verdict : ℕ → ℕ → ℕ → SegmentBuf → Event
verdict dev seq size s =
    if s.next_expected == size
    then Event.sealed dev seq size
    else seal_gap dev seq s.next_expected size

-- A seal says that the segment is whole, or that there is a gap at its cursor.
seal-held :
    (dev seq cursor size : ℕ) (s : SegmentBuf) (r : Reassembler)
    → Map.get (dev, seq) r.segs ≡ some s
    → (says (is_sealed dev seq size) (seal dev seq size r).1 ≡ (s.next_expected == size))
      × (says (is_gap dev seq cursor size) (seal dev seq size r).1
          ≡ not (s.next_expected == size) && (s.next_expected == cursor))
unfolding seal verdict
seal-held dev seq cursor size s r e =
    let noted = note_seq dev seq r in
    let missing = missing_before dev seq r in
    let events = (settle_lem (dev, seq) size s noted missing (note_seq-segs dev seq r ∙ e)).1 in
    let untold = missing_before-untold dev seq cursor size r in
    let event = verdict dev seq size s in
    let sealed = says-last (is_sealed dev seq size) missing event untold.0 in
    let gap = says-last (is_gap dev seq cursor size) missing event untold.1 in
    elim (Bool-cases (s.next_expected == size)) [
      | inl b ↦ rw events (ground (arith, sealed, gap))
      | inr b ↦ rw events (ground (arith, sealed, gap))
    ]

seal-unheld :
    (dev seq cursor size : ℕ) (r : Reassembler)
    → Map.get (dev, seq) r.segs ≡ none
    → (says (is_sealed dev seq size) (seal dev seq size r).1 ≡ false)
      × (says (is_gap dev seq cursor size) (seal dev seq size r).1 ≡ false)
unfolding seal settle
seal-unheld dev seq cursor size r e =
    rw (settle, note_seq-segs dev seq r, e) (missing_before-untold dev seq cursor size r)

whole : (xs ys zs : List ℕ) → xs ≡ ys ++ zs → length ys ≡ length xs → ys ≡ xs
whole xs ys [] e l = sym (e ∙ append-nil ys)
whole xs ys (z ∷ zs) e l = absurd (omega (arith, ap length e, length-append ys (z ∷ zs)))

-- A whole segment leaves with its bytes.
seal-frees :
    (dev seq : ℕ) (s : SegmentBuf) (r : Reassembler)
    → Map.get (dev, seq) r.segs ≡ some s
    → (Map.get (dev, seq) (seal dev seq s.next_expected r).0.segs ≡ none)
      × ((seal dev seq s.next_expected r).0.global_pending ≡ r.global_pending - s.pending_bytes)
      × (conn_used dev (seal dev seq s.next_expected r).0 ≡ conn_used dev r - s.pending_bytes)
unfolding seal settle release_segment forgive note_seq conn_used
seal-frees dev seq s r e =
    let key : SegmentKey = (dev, seq) in
    let there = note_seq-segs dev seq r ∙ e in
    rw (settle, there, ==_refl s.next_expected, release_segment)
      (ground (
        arith,
        get-remove key key r.segs,
        pair_eq.beq_iff key key,
        get-modify dev dev (λ (c : ℕ). c - s.pending_bytes) r.conn_pending,
      ))

-- A segment with a gap stays, with the size and with its bytes.
seal-keeps :
    (dev seq size : ℕ) (s : SegmentBuf) (r : Reassembler)
    → Map.get (dev, seq) r.segs ≡ some s
    → s.next_expected ≢ size
    → (Map.get (dev, seq) (seal dev seq size r).0.segs
        ≡ some (record s { sealed_size = some size }))
      × ((seal dev seq size r).0.global_pending ≡ r.global_pending)
      × (conn_used dev (seal dev seq size r).0 ≡ conn_used dev r)
unfolding seal settle note_seq conn_used
seal-keeps dev seq size s r e n =
    let key : SegmentKey = (dev, seq) in
    let there = note_seq-segs dev seq r ∙ e in
    let open_end : (s.next_expected == size) ≡ false = ground arith in
    rw (settle, there, open_end)
      (ground (
        arith,
        get-modify key key (λ (t : SegmentBuf). record t { sealed_size = some size }) r.segs,
        pair_eq.beq_iff key key,
      ))

empty_of : (xs : List ℕ) → length xs ≡ 0 → xs ≡ []
empty_of [] h = refl
empty_of (x ∷ xs) h = absurd (omega arith)

-- What a seal with the size of `content` does after the bytes `out` were handed on.
pub record IsSettled (dev seq : ℕ) (content out : List ℕ) (r : Reassembler) (after : Step)
    : Type 0 where
  pub sealed : (says (is_sealed dev seq (length content)) after.1 ≡ true) ↔ (out ≡ content)
  pub gap :
      (cursor : ℕ)
      → (says (is_gap dev seq cursor (length content)) after.1 ≡ true) ↔ (
          (cursor ≡ length out)
          × (out ≢ content)
          × ((s : SegmentBuf) × (Map.get (dev, seq) r.segs ≡ some s)))
  pub freed :
      out ≡ content
      → (Map.get (dev, seq) after.0.segs ≡ none)
        × (after.0.global_pending ≡ r.global_pending - pending_bytes_of (dev, seq) r)
        × (conn_used dev after.0 ≡ conn_used dev r - pending_bytes_of (dev, seq) r)
  pub kept :
      (s : SegmentBuf)
      → out ≢ content
      → Map.get (dev, seq) r.segs ≡ some s
      → (Map.get (dev, seq) after.0.segs ≡ some (record s { sealed_size = some (length content) }))
        × (after.0.global_pending ≡ r.global_pending)
        × (conn_used dev after.0 ≡ conn_used dev r)

IsSettled-held :
    (dev seq : ℕ) (content out rest : List ℕ) (s : SegmentBuf) (r : Reassembler)
    → content ≡ out ++ rest
    → s.next_expected ≡ length out
    → Map.get (dev, seq) r.segs ≡ some s
    → IsSettled dev seq content out r (seal dev seq (length content) r)
unfolding pending_bytes_of
IsSettled-held dev seq content out rest s r split cursor e =
    let full : (s.next_expected ≡ length content) ↔ (out ≡ content) =
      (λ h. whole content out rest split (sym cursor ∙ h), λ h. cursor ∙ ap length h) in
    let size = length content in
    let told = (seal-held dev seq 0 size s r e).0 in
    record {
      sealed = (
        λ h. full.0 ((==_iff s.next_expected size).0 (sym told ∙ h)),
        λ h. told ∙ (==_iff s.next_expected size).1 (full.1 h),
      );
      gap = λ c.
          let told_gap = (seal-held dev seq c size s r e).1 in
          (
            λ h.
                let both = sym told_gap ∙ h in
                let open_end : s.next_expected ≢ size = λ p. absurd (ground arith) in
                (ground arith, λ g. open_end (full.1 g), (s, e)),
            λ (at, other, held).
                let open_end : s.next_expected ≢ size = λ p. other (full.0 p) in
                told_gap ∙ ground arith,
          );
      freed = λ h. rw (sym (full.1 h)) (rw (pending_bytes_of, e) (seal-frees dev seq s r e));
      kept = λ t other h.
          let same : t ≡ s = ground arith in
          seal-keeps dev seq size t r h
            (λ p. other (full.0 (sym (ap (λ (x : SegmentBuf). x.next_expected) same) ∙ p)));
    }

IsSettled-unheld :
    (dev seq : ℕ) (content : List ℕ) (r : Reassembler)
    → 0 < length content
    → Map.get (dev, seq) r.segs ≡ none
    → IsSettled dev seq content [] r (seal dev seq (length content) r)
IsSettled-unheld dev seq content r more e =
    let untold = λ (c : ℕ). seal-unheld dev seq c (length content) r e in
    let empty_out : ¬ (◌≡◌ {A = List ℕ} [] content) = λ h. absurd (omega (arith, ap length h)) in
    record {
      sealed = (λ h. absurd (ground (arith, untold 0)), λ h. absurd (empty_out h));
      gap = λ c.
          (λ h. absurd (ground (arith, untold c)), λ (at, other, (s, held)). absurd (ground arith));
      freed = λ h. absurd (empty_out h);
      kept = λ t other h. absurd (ground arith);
    }

-- Let every segment have a content shorter than 2^64 bytes, that of one segment not be empty, and
-- slices of these contents arrive at an empty reassembler in any order, under any budgets. All are
-- processed, and then a seal of that segment with the length of its content reports it sealed
-- exactly when the bytes handed on are the whole content, and a gap at a cursor exactly when they
-- are not, the segment is held, and the cursor is their number. If they are, the segment is gone
-- and the global count and that of the connection are lower by its waiting bytes, down to zero at
-- most; if not, a held segment stays with the size noted and both counts as they were.
pub seal-settles :
    (content : SegmentKey → List ℕ) (b : Budgets) (cs : List Chunk)
    → ((key : SegmentKey) → length (content key) < 2 ^ 64)
    → AllSlices content cs
    → (dev seq : ℕ) → 0 < length (content (dev, seq))
    → (st' : Step) × (place_chunks cs (empty b) ≡ some st')
      × IsSettled dev seq
          (content (dev, seq))
          (written (dev, seq) st'.1)
          st'.0
          (seal dev seq (length (content (dev, seq))) st'.0)
unfolding next_expected_of
seal-settles content b cs fits slices dev seq more =
    let (st', e, delivered) = place_chunks-delivers content b cs fits slices in
    let key : SegmentKey = (dev, seq) in
    let (split, cursor) = delivered key in
    let rest = drop (next_expected_of key st'.0) (content key) in
    (
      st',
      e,
      elim (Option-cases (Map.get key st'.0.segs)) [
        | inr (s, held) ↦
            let at : s.next_expected ≡ next_expected_of key st'.0 =
              rw (next_expected_of, held) refl in
            IsSettled-held dev seq (content key) (written key st'.1) rest s st'.0 split
              (at ∙ cursor) held
        | inl unheld ↦
            let start : next_expected_of key st'.0 ≡ 0 = rw (next_expected_of, unheld) refl in
            let none_out = empty_of (written key st'.1) (sym cursor ∙ start) in
            subst
              (λ (out : List ℕ).
                IsSettled dev seq (content key) out st'.0
                  (seal dev seq (length (content key)) st'.0))
              (sym none_out) (IsSettled-unheld dev seq (content key) st'.0 more unheld)
      ],
    )
