-- ===== src/Examples/Pipelines.antt =====
-- Runs of the pipeline of src/batch.rs on records without a payload, with a list as the index.
use sov_vault.Base.{
  ℕ, zero, suc, ◌+◌, ◌^◌, ◌<◌, ◌≤◌, ◌≡◌, refl, true, false, List, [], ◌∷◌, ◌++◌, Option, none, some,
  arith, length, length-append, ◌==◌, if◌then◌else◌,
}
use sov_vault.Map
use sov_vault.Map.{nat_eq, Distinct}
use sov_vault.Matcher.Types.{WalRecord, IndexedRecord}
use sov_vault.Batch.{
  HotFileWriter, BatchPipeline, payload_len, rec_len, flush, push_record, recover, open_or_recover,
}
use sov_vault.Ledger.{FileState, FileRow, Ledger, watermark}
use sov_vault.Batch.Barrier.{IsContiguous, flush-advances}
use sov_vault.Batch.Push.{next_record, push_record-IsContiguous}
use sov_vault.Batch.Crash.{recover-IsContiguous, flush-drops}
use sov_vault.Batch.Restart.{TakesUp, open_or_recover-IsContiguous}
use sov_vault.Examples.Matching.{response}

unfoldable zeros : ℕ → List ℕ
zeros zero = []
zeros (suc n) = 0 ∷ zeros n

length-zeros : (n : ℕ) → length (zeros n) ≡ n
unfolding zeros
length-zeros zero = refl
length-zeros (suc n) = omega (arith, length-zeros n)

-- A header of zeros, and the payload.
abbrev encode : WalRecord → List ℕ
encode rec = zeros 64 ++ rec.payload

length-encode : (rec : WalRecord) → length (encode rec) ≡ payload_len rec
unfolding payload_len
length-encode rec = omega (arith, length-append (zeros 64) rec.payload, length-zeros 64)

abbrev keep : List IndexedRecord → List IndexedRecord → Option (List IndexedRecord)
keep rs d = some (d ++ rs)

keep-some : (rs d : List IndexedRecord) → (d' : List IndexedRecord) × (keep rs d ≡ some d')
keep-some rs d = (d ++ rs, refl)

-- An index that refuses the first record of a file.
abbrev refuse : List IndexedRecord → List IndexedRecord → Option (List IndexedRecord)
refuse [] d = some d
refuse (r ∷ rs) d = if r.offset == 0 then none else some (d ++ r ∷ rs)

abbrev row : FileRow
row = record { dev_id = 1; segment_seq = some 0; state = FileState.opened; analysis_offset = 0 }

abbrev ledger : Ledger
ledger = record { files = (1, row) ∷ []; next_id = 2 }

abbrev bare : WalRecord
bare = record response { payload = [] }

abbrev first : IndexedRecord
first = record { dev_id = 1; file_id = 1; offset = 0; rec = bare }

-- File 1 holds one record that is not committed, and has room for one more.
abbrev hot : HotFileWriter
hot = record {
  dev_id = 1;
  segment_seq = 0;
  segment_size = 150;
  file_id = 1;
  offset = 64;
  bytes = encode bare;
  closed = [];
}

abbrev kept : BatchPipeline encode keep
kept = record { hot = hot; ledger = ledger; db = []; pending = first ∷ []; batch_size = 1 }

abbrev refused : BatchPipeline encode refuse
refused = record { hot = hot; ledger = ledger; db = []; pending = first ∷ []; batch_size = 1 }

waiting-IsContiguous :
    (lmdb : List IndexedRecord → List IndexedRecord → Option (List IndexedRecord))
    → IsContiguous encode lmdb
        (record { hot = hot; ledger = ledger; db = []; pending = first ∷ []; batch_size = 1 })
unfolding Map.get payload_len rec_len zeros
waiting-IsContiguous lmdb = record {
  row = row;
  row_at = refl;
  chain = (refl, refl, refl);
  size = refl;
  placed = (([], [], refl, refl), tt);
}

flush-advances_example :
    (p' : BatchPipeline encode keep) × (flush encode keep kept ≡ (p', true))
    × IsContiguous encode keep p'
    × (p'.pending ≡ [])
    × (p'.hot ≡ hot)
    × (p'.ledger.next_id ≡ 2)
    × (watermark 1 p'.ledger ≡ some 64)
flush-advances_example = flush-advances encode keep keep-some kept (waiting-IsContiguous keep)

push_record-IsContiguous_example :
    (p' : BatchPipeline encode keep) × (push_record encode keep response kept ≡ (p', true))
    × IsContiguous encode keep p'
push_record-IsContiguous_example =
    push_record-IsContiguous encode keep length-encode keep-some response kept (omega arith)
      (omega arith) (waiting-IsContiguous keep)

recover-IsContiguous_example :
    (hot' : HotFileWriter) × (lost : List ℕ) × (recover (hot, ledger) ≡ some hot')
    × (hot.bytes ≡ hot'.bytes ++ lost)
    × (watermark 1 ledger ≡ some hot'.offset)
    × IsContiguous encode keep (record kept { hot = hot'; pending = [] })
recover-IsContiguous_example =
    recover-IsContiguous encode keep kept (waiting-IsContiguous keep) (omega arith)

payload-bare : payload_len bare ≡ 64
unfolding payload_len
payload-bare = refl

flush-drops_example :
    (p' : BatchPipeline encode refuse) × (flush encode refuse refused
      ≡ (record refused { pending = [] }, false))
    × (push_record encode refuse bare (record refused { pending = [] }) ≡ (p', true))
    × (p'.db ≡ next_record encode refuse bare refused ∷ [])
    × (p'.pending ≡ [])
    × (watermark 1 p'.ledger ≡ some (64 + payload_len bare))
flush-drops_example =
    flush-drops encode refuse bare refused first [] (next_record encode refuse bare refused ∷ [])
      (waiting-IsContiguous refuse) refl refl refl (omega arith) (omega (arith, payload-bare))
      (omega arith)

ledger-Distinct : Distinct ledger.files
unfolding Map.get
ledger-Distinct = (refl, tt)

ledger-kept :
    (file_id : ℕ) (r : FileRow)
    → Map.get file_id ledger.files ≡ some r
    → (file_id < 2 ^ 32) × (r.analysis_offset ≤ length (encode bare))
unfolding Map.get
ledger-kept file_id r e = ground arith

open_or_recover-IsContiguous_example :
    IsContiguous encode keep (record kept {
      hot = (open_or_recover (λ i. encode bare) 1 0 150 ledger).0;
      ledger = (open_or_recover (λ i. encode bare) 1 0 150 ledger).1;
      pending = [];
    })
    × TakesUp 1 ledger (open_or_recover (λ i. encode bare) 1 0 150 ledger)
open_or_recover-IsContiguous_example =
    open_or_recover-IsContiguous encode keep (λ i. encode bare) 1 0 150 kept ledger-Distinct
      ledger-kept (omega arith)
