-- ===== src/Batch/Crash.antt =====
-- src/batch.rs: what a recovery leaves of the open file, and what a batch that fails leaves.
use sov_vault.Base.{
  ℕ, zero, suc, ◌+◌, ◌%◌, ◌^◌, ◌≤◌, ◌<◌, ◌≡◌, refl, ap, ◌∙◌, true, false, List, [], ◌∷◌, ◌++◌,
  Option, none, some, arith, length, ltb, leb, ◌==◌,
}
use sov_vault.Map.{nat_eq}
use sov_vault.Map.Laws.{get-insert_self}
use sov_vault.Matcher.Types.{WalRecord, IndexedRecord, take}
use sov_vault.Batch.{
  payload_len, rec_len, HotFileWriter, recover, BatchPipeline, commit_batch, flush, barrier,
  push_record,
}
use sov_vault.Ledger.{watermark}
use sov_vault.Batch.Barrier.{Chain-le, IsContiguous, moved, stage_sqlite-Chain, flush-cons}
use sov_vault.Batch.Push.{next_record, added, place_lem}

pub take-split :
    (n : ℕ) (xs : List ℕ)
    → n ≤ length xs
    → (rest : List ℕ) × (xs ≡ take n xs ++ rest) × (length (take n xs) ≡ n)
unfolding take
take-split zero xs h = (xs, refl, refl)
take-split (suc n) [] h = absurd (omega arith)
take-split (suc n) (x ∷ xs) h =
    let (rest, e, l) = take-split n xs (omega arith) in (rest, ap (λ t. x ∷ t) e, omega (arith, l))

module _ {D : Type 0} (encode : WalRecord → List ℕ) (lmdb : List IndexedRecord → D → Option D) where
  -- Let the pending records of a pipeline with a numbered file lie in the open file one after the
  -- other from its watermark to its end. Recovery cuts the file to a beginning of it that ends at
  -- the watermark, and with nothing pending the pipeline is contiguous.
  pub recover-IsContiguous :
      (p : BatchPipeline encode lmdb)
      → IsContiguous encode lmdb p
      → 0 < p.hot.file_id
      → (hot : HotFileWriter) × (lost : List ℕ) × (recover (p.hot, p.ledger) ≡ some hot)
        × (p.hot.bytes ≡ hot.bytes ++ lost)
        × (watermark p.hot.file_id p.ledger ≡ some hot.offset)
        × IsContiguous encode lmdb (record p { hot = hot; pending = [] })
  unfolding recover watermark
  recover-IsContiguous p v real =
      let wm = v.row.analysis_offset in
      let below = Chain-le p.hot.file_id wm p.pending p.hot.offset v.chain in
      let (lost, e, l) = take-split wm p.hot.bytes (omega (arith, v.size)) in
      let known : (p.hot.file_id == 0) ≡ false = ground arith in
      (
        record p.hot { offset = wm; bytes = take wm p.hot.bytes },
        lost,
        rw (recover, known, watermark, v.row_at) refl,
        e,
        rw (watermark, v.row_at) refl,
        record { row = v.row; row_at = v.row_at; chain = refl; size = l; placed = tt },
      )

  failed :
      (p : BatchPipeline encode lmdb) (r : IndexedRecord) (rs : List IndexedRecord)
      → p.pending ≡ r ∷ rs
      → lmdb (r ∷ rs) p.db ≡ none
      → flush encode lmdb p ≡ (record p { pending = [] }, false)
  unfolding commit_batch
  failed p r rs e f = flush-cons encode lmdb p r rs e ∙ rw (commit_batch, f) refl

  -- Let the pending records lie in the open file from its watermark to its end, the index refuse
  -- them as a batch, the next record fit the file, whose size is at most 2^32, and be accepted
  -- alone, and the batch size be at most 1. The failed flush leaves nothing pending, and pushing
  -- the next record succeeds: the index has that record only, and the watermark is past the
  -- refused records.
  pub flush-drops :
      (rec : WalRecord) (p : BatchPipeline encode lmdb) (r : IndexedRecord)
      (rs : List IndexedRecord) (d : D)
      → IsContiguous encode lmdb p
      → p.pending ≡ r ∷ rs
      → lmdb (r ∷ rs) p.db ≡ none
      → lmdb (next_record encode lmdb rec p ∷ []) p.db ≡ some d
      → p.batch_size ≤ 1
      → p.hot.offset + payload_len rec ≤ p.hot.segment_size
      → p.hot.segment_size ≤ 2 ^ 32
      → (p' : BatchPipeline encode lmdb) × (flush encode lmdb p
          ≡ (record p { pending = [] }, false))
        × (push_record encode lmdb rec (record p { pending = [] }) ≡ (p', true))
        × (p'.db ≡ d)
        × (p'.pending ≡ [])
        × (watermark p.hot.file_id p'.ledger ≡ some (p.hot.offset + payload_len rec))
  unfolding push_record barrier commit_batch watermark rec_len payload_len
  flush-drops rec p r rs d v e f next one room size =
      let p₀ : BatchPipeline encode lmdb = record p { pending = [] } in
      let p₁ = added encode lmdb rec p₀ in
      let fits : ltb p.hot.segment_size (p.hot.offset + payload_len rec) ≡ false = ground arith in
      let small : leb p.batch_size 1 ≡ true = ground arith in
      let exact : p.hot.offset % 2 ^ 32 ≡ p.hot.offset = omega arith in
      let below = Chain-le p.hot.file_id v.row.analysis_offset p.pending p.hot.offset v.chain in
      let end = p.hot.offset + payload_len rec in
      let placed = place_lem encode lmdb rec p₀ in
      let staged =
        stage_sqlite-Chain p.hot.file_id p.hot.offset end (next_record encode lmdb rec p) [] v.row
          p.ledger v.row_at below (refl, exact, refl) in
      (
        record p₁ { db = d; ledger = moved p.hot.file_id end v.row p.ledger; pending = [] },
        failed p r rs e f,
        rw (push_record, barrier, fits, placed, fits, small)
            (flush-cons encode lmdb p₁ (next_record encode lmdb rec p) [] refl
              ∙ rw (commit_batch, next, staged) refl),
        refl,
        refl,
        rw
            (
              watermark,
              get-insert_self p.hot.file_id (record v.row { analysis_offset = end }) p.ledger.files,
            )
            refl,
      )
