-- ===== src/Reassembly/Delivery.antt =====
-- The contract of the reassembler, as the data plane relies on it.
use sov_vault.Base.{ℕ, ◌^◌, ◌<◌, ◌≡◌, ap, ◌∙◌, List, ◌++◌, some, arith, length}
use sov_vault.Map
use sov_vault.Map.{nat_eq, pair_eq}
use sov_vault.Reassembly.State.{SegmentKey, Budgets, empty}
use sov_vault.Reassembly.Steps.{Step, next_expected_of}
use sov_vault.Reassembly.Engine.{drop}
use sov_vault.Reassembly.Progress.{written, Holds}
use sov_vault.Reassembly.Run.{Chunk, place_chunks, AllSlices, place_chunks-Moves}
use sov_vault.Reassembly.Total.Place.{place_chunks-total, empty-IsSound}

empty-Holds : (content : SegmentKey → List ℕ) (b : Budgets) → Holds content (empty b)
unfolding empty Map.get
empty-Holds content b key s e = absurd (ground arith)

-- Let every segment have a content shorter than 2^64 bytes and let slices of these contents arrive
-- at an empty reassembler in any order, with any overlap and repetition, under any budgets. All
-- are processed, and the bytes handed on for a segment, one after the other, are the beginning of
-- its content up to the segment's cursor.
pub place_chunks-delivers :
    (content : SegmentKey → List ℕ) (b : Budgets) (cs : List Chunk)
    → ((key : SegmentKey) → length (content key) < 2 ^ 64)
    → AllSlices content cs
    → (st' : Step) × (place_chunks cs (empty b) ≡ some st')
      × ((key : SegmentKey)
          → (content key ≡ written key st'.1 ++ drop (next_expected_of key st'.0) (content key))
            × (next_expected_of key st'.0 ≡ length (written key st'.1)))
unfolding written empty next_expected_of Map.get drop
place_chunks-delivers content b cs fits slices =
    let (st', e, _) = place_chunks-total cs (empty b) (empty-IsSound b) in
    (
      st',
      e,
      λ key.
          let m =
            place_chunks-Moves content fits cs (empty b) st' (empty-Holds content b) slices e key in
          (m.next_bytes ∙ rw m.hands_on, omega (arith, m.cursor, ap length m.hands_on)),
    )
