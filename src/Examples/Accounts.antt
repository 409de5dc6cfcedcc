-- ===== src/Examples/Accounts.antt =====
-- Runs of the reassembler of src/reassembly.rs that count bytes, hand chunks on or strand them.
use sov_vault.Base.{ℕ, ◌-◌, ◌≤◌, ◌≡◌, ◌++◌, refl, false, inl, List, [], ◌∷◌, some, arith}
use sov_vault.Map
use sov_vault.Map.{nat_eq, pair_eq}
use sov_vault.Map.Total.{total}
use sov_vault.Reassembly.Pending
use sov_vault.Reassembly.State.{SegmentKey, SegmentBuf, contains, empty}
use sov_vault.Reassembly.Steps.{Step, next_expected_of}
use sov_vault.Reassembly.Engine.{drop, conn_used, place_chunk}
use sov_vault.Reassembly.Progress.{written}
use sov_vault.Reassembly.Run.{place_chunks}
use sov_vault.Reassembly.Sound.{IsSound}
use sov_vault.Reassembly.Handover.{place_chunk-hands_on}
use sov_vault.Reassembly.Overlap.{place_chunks-strands}
use sov_vault.Reassembly.Budget.{place_chunk-over_budget}
use sov_vault.Reassembly.Account.{Fits, Accounted, counted}
use sov_vault.Reassembly.Account.Place.{flat}
use sov_vault.Reassembly.Account.Runs.{volume, place_chunks-accounts}
use sov_vault.Examples.Reassembled.{budgets, chunks, segment, busy}

volume-chunks : volume chunks ≡ 8
unfolding volume
volume-chunks = refl

place_chunks-accounts_example :
    (st' : Step) × (place_chunks chunks (empty budgets) ≡ some st')
    × ((key : SegmentKey) (s : SegmentBuf) → Map.get key st'.0.segs ≡ some s → Fits 1024 s)
    × (st'.0.global_pending ≡ total counted st'.0.segs)
    × (st'.0.global_pending ≤ volume chunks)
place_chunks-accounts_example = place_chunks-accounts budgets chunks (omega (arith, volume-chunks))

get-busy_some : (key : SegmentKey) (s : SegmentBuf) → Map.get key busy.segs ≡ some s → s ≡ segment
unfolding Map.get
get-busy_some key s e = ground arith

busy-Accounted : Accounted 1024 (flat 1024) 0 busy
unfolding Map.get total Pending.bytes
busy-Accounted = record {
  distinct = (refl, tt);
  fits = λ key s e. rw (get-busy_some key s e) (omega arith, omega arith);
  global = refl;
  bounded = omega arith;
  budget = refl;
}

busy-IsSound : IsSound busy
unfolding Map.get
busy-IsSound = record {
  distinct = (refl, tt);
  backed = λ key s e. inl (rw (get-busy_some key s e) refl);
}

next-busy : next_expected_of (1, 7) busy ≡ 4
unfolding next_expected_of Map.get
next-busy = refl

contains-busy : contains 1 busy.held ≡ false
unfolding contains
contains-busy = refl

place_chunk-hands_on_example :
    (st' : Step) × (more : List ℕ) × (place_chunk 1 7 2 (30 ∷ 40 ∷ 50 ∷ 60 ∷ []) busy ≡ some st')
    × (written (1, 7) st'.1
        ≡ drop (next_expected_of (1, 7) busy - 2) (30 ∷ 40 ∷ 50 ∷ 60 ∷ []) ++ more)
place_chunk-hands_on_example =
    place_chunk-hands_on 1 7 2 (30 ∷ 40 ∷ 50 ∷ 60 ∷ []) busy busy-IsSound contains-busy
      (omega (arith, next-busy)) (omega (arith, next-busy)) (omega arith)

place_chunk-over_budget_example :
    (st' : Step) × (place_chunk 1 7 9
        (1 ∷ 2 ∷ 3 ∷ [])
        (empty (record budgets { l25_conn_cap = 1; l3_global_cap = 2 }))
      ≡ some st')
    × (st'.0.global_pending ≡ 3)
    × (conn_used 1 st'.0 ≡ 3)
    × (contains 1 st'.0.held ≡ false)
place_chunk-over_budget_example =
    place_chunk-over_budget (record budgets { l25_conn_cap = 1; l3_global_cap = 2 }) 1 7 9
      (1 ∷ 2 ∷ 3 ∷ []) (omega arith) (omega arith) (omega arith)

place_chunks-strands_example :
    (st' : Step) × (place_chunks
        (record { dev_id = 1; segment_seq = 7; offset = 1; bytes = 20 ∷ 30 ∷ 40 ∷ [] }
          ∷ record { dev_id = 1; segment_seq = 7; offset = 0; bytes = 10 ∷ 20 ∷ [] }
          ∷ [])
        (empty budgets)
      ≡ some st')
    × (written (1, 7) st'.1 ≡ 10 ∷ 20 ∷ [])
    × (next_expected_of (1, 7) st'.0 ≡ 2)
    × (s : SegmentBuf) × (Map.get (1, 7) st'.0.segs ≡ some s)
    × (s.pending ≡ (1, 20 ∷ 30 ∷ 40 ∷ []) ∷ [])
place_chunks-strands_example =
    place_chunks-strands budgets 1 7 1 (20 ∷ 30 ∷ 40 ∷ []) (10 ∷ 20 ∷ []) (omega arith)
      (omega arith) (omega arith) (omega arith) (omega arith) (omega arith)
