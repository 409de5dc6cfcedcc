-- ===== src/Examples/Reassembled.antt =====
-- Runs of the reassembler of src/reassembly.rs on concrete chunks.
use sov_vault.Base.{
  ℕ, ◌+◌, ◌*◌, ◌<◌, ◌≡◌, ◌↔◌, ◌++◌, max, refl, true, List, [], ◌∷◌, none, some, arith, length,
}
use sov_vault.Map
use sov_vault.Map.{nat_eq, pair_eq}
use sov_vault.Reassembly.Pending
use sov_vault.Reassembly.State.{SegmentKey, SegmentState, SegmentBuf, Budgets, Reassembler, empty}
use sov_vault.Reassembly.Steps.{Step, next_expected_of}
use sov_vault.Reassembly.Engine.{drop, store, conn_used, place_chunk, seal, last_seq_of}
use sov_vault.Reassembly.Progress.{written}
use sov_vault.Reassembly.Run.{Chunk, place_chunks, AllSlices}
use sov_vault.Reassembly.Total.{Returns}
use sov_vault.Reassembly.Total.Place.{place_chunk-total, empty-IsSound}
use sov_vault.Reassembly.Delivery.{place_chunks-delivers}
use sov_vault.Reassembly.Seal.{reports, seal-reports}
use sov_vault.Reassembly.Seal.Contract.{IsSettled, seal-settles}
use sov_vault.Reassembly.Budget.{store-twice}

abbrev pub budgets : Budgets
budgets = record {
  l2_segment_cap = 1024;
  l25_conn_cap = 256;
  l3_global_cap = 1024;
  evict_window_secs = 30;
  evict_threshold = 3;
}

abbrev content : SegmentKey → List ℕ
content key = 10 ∷ 20 ∷ 30 ∷ 40 ∷ 50 ∷ []

-- The tail first, then a chunk that overlaps it, then the tail again.
abbrev pub chunks : List Chunk
chunks =
    record { dev_id = 1; segment_seq = 7; offset = 3; bytes = 40 ∷ 50 ∷ [] }
    ∷ record { dev_id = 1; segment_seq = 7; offset = 0; bytes = 10 ∷ 20 ∷ 30 ∷ 40 ∷ [] }
    ∷ record { dev_id = 1; segment_seq = 7; offset = 3; bytes = 40 ∷ 50 ∷ [] }
    ∷ []

chunks-AllSlices : AllSlices content chunks
unfolding drop
chunks-AllSlices = (([], refl), ((50 ∷ [], refl), (([], refl), tt)))

place_chunks-delivers_example :
    (st' : Step) × (place_chunks chunks (empty budgets) ≡ some st')
    × ((key : SegmentKey)
        → (content key ≡ written key st'.1 ++ drop (next_expected_of key st'.0) (content key))
          × (next_expected_of key st'.0 ≡ length (written key st'.1)))
place_chunks-delivers_example =
    place_chunks-delivers content budgets chunks (λ key. omega arith) chunks-AllSlices

place_chunk-total_example : Returns (place_chunk 1 7 3 (40 ∷ 50 ∷ []) (empty budgets))
place_chunk-total_example =
    place_chunk-total 1 7 3 (40 ∷ 50 ∷ []) (empty budgets) (empty-IsSound budgets)

abbrev pub segment : SegmentBuf
segment = record {
  key = (1, 7);
  state = SegmentState.unfinished;
  next_expected = 4;
  sealed_size = none;
  pending = [];
  pending_bytes = 0;
  dup_count = 0;
  gap_count = 0;
}

-- Segment 7 of connection 1 stands at byte 4, and 3 is the last sealed segment.
abbrev pub busy : Reassembler
busy = record {
  segs = ((1, 7), segment) ∷ [];
  conn_pending = (1, 0) ∷ [];
  held = [];
  evict = [];
  global_pending = 0;
  last_seq = (1, 3) ∷ [];
  budgets = budgets;
  now = 0;
}

last_seq_of-busy : last_seq_of 1 busy < 4294967295
unfolding last_seq_of
last_seq_of-busy = omega arith

seal-reports_example :
    ((reports 1 5 (seal 1 7 9 busy).1 ≡ true)
      ↔ ((◌≡◌ {A = ℕ} 1 1) × (0 < last_seq_of 1 busy) × (last_seq_of 1 busy < 5) × (5 < 7)))
    × (last_seq_of 1 (seal 1 7 9 busy).0 ≡ max (last_seq_of 1 busy) 7)
seal-reports_example = seal-reports 1 1 7 9 5 busy last_seq_of-busy

get-busy : Map.get (1, 7) busy.segs ≡ some segment
unfolding Map.get
get-busy = refl

content-IsFull : 0 < length (content (1, 7))
content-IsFull = omega arith

seal-settles_example :
    (st' : Step) × (place_chunks chunks (empty budgets) ≡ some st')
    × IsSettled 1 7
        (content (1, 7))
        (written (1, 7) st'.1)
        st'.0
        (seal 1 7 (length (content (1, 7))) st'.0)
seal-settles_example =
    seal-settles content budgets chunks (λ key. omega arith) chunks-AllSlices 1 7 content-IsFull

conn_used-busy : conn_used 1 busy ≡ 0
unfolding conn_used Map.get
conn_used-busy = refl

store-twice_example :
    (t : SegmentBuf) × (Map.get
        (1, 7)
        (store (1, 7) 6 (5 ∷ 5 ∷ []) (store (1, 7) 6 (5 ∷ 5 ∷ []) busy)).segs
      ≡ some t)
    × (t.pending ≡ Pending.insert 6 (5 ∷ 5 ∷ []) [])
    × (t.pending_bytes ≡ 0 + 2 * 2)
    × ((store (1, 7) 6 (5 ∷ 5 ∷ []) (store (1, 7) 6 (5 ∷ 5 ∷ []) busy)).global_pending ≡ 0 + 2 * 2)
    × (conn_used 1 (store (1, 7) 6 (5 ∷ 5 ∷ []) (store (1, 7) 6 (5 ∷ 5 ∷ []) busy))
        ≡ conn_used 1 busy + 2 * 2)
store-twice_example =
    store-twice (1, 7) 6 (5 ∷ 5 ∷ []) segment busy get-busy (omega arith) (omega arith)
      (omega (arith, conn_used-busy))
