-- ===== src/Batch.antt =====
-- src/batch.rs: the hot file and the pipeline that writes records to it, indexes them in batches and
-- moves the watermark. `false` beside a state is an error. Calls of the file system do not fail here.
pub mod Barrier
pub mod Push
pub mod Crash
pub mod Restart
use sov_vault.Ledger.{
  FileState, FileRow, Ledger, insert_file, watermark, advance_watermark, set_file_state, is_opened,
  newer, open_file_for_dev,
}
use sov_vault.Base.{
  ℕ, ◌+◌, ◌%◌, ◌^◌, Bool, true, false, ◌&&◌, List, [], ◌∷◌, ◌++◌, Option, none, some, length, ltb,
  leb, ◌==◌, if◌then◌else◌,
}
use sov_vault.Map
use sov_vault.Map.{nat_eq}
use sov_vault.Matcher.Types.{WalRecord, IndexedRecord, take}

unfoldable pub payload_len : WalRecord → ℕ
payload_len rec = 64 + length rec.payload

unfoldable pub rec_len : IndexedRecord → ℕ
unfolding payload_len
rec_len r = payload_len r.rec

-- The largest end of the batch's records, by file.
unfoldable pub file_ends : List IndexedRecord → List (ℕ × ℕ) → List (ℕ × ℕ)
unfolding Map.get Map.insert rec_len
file_ends [] ends = ends
file_ends (r ∷ rs) ends =
    let e : ℕ = elim (Map.get r.file_id ends) [ none ↦ 0 | some e ↦ e ] in
    let rec_end = r.offset + rec_len r in
    file_ends rs (Map.insert r.file_id (if ltb e rec_end then rec_end else e) ends)

unfoldable pub advance_all : List (ℕ × ℕ) → Ledger → Ledger × Bool
unfolding advance_watermark
advance_all [] l = (l, true)
advance_all ((file_id, off) ∷ rest) l = elim (advance_watermark file_id off l) [
  | none ↦ (l, false)
  | some l' ↦ advance_all rest l'
]

unfoldable pub stage_sqlite : List IndexedRecord → Ledger → Ledger × Bool
unfolding file_ends advance_all
stage_sqlite records l = advance_all (file_ends records []) l

-- `HotFileWriter`, where `bytes` is what the open file holds and `closed` what the files before it do.
pub record HotFileWriter : Type 0 where
  pub dev_id : ℕ
  pub segment_seq : ℕ
  pub segment_size : ℕ
  pub file_id : ℕ
  pub offset : ℕ
  pub bytes : List ℕ
  pub closed : List (ℕ × List ℕ)

-- `ensure_open`, where no file is open.
unfoldable pub ensure_open : HotFileWriter × Ledger → HotFileWriter × Ledger
unfolding insert_file
ensure_open (hot, l) =
    let inserted = insert_file hot.dev_id hot.segment_seq l in
    (record hot { file_id = inserted.1 % 2 ^ 32; offset = 0; bytes = [] }, inserted.0)

unfoldable pub rotate : HotFileWriter × Ledger → HotFileWriter × Ledger
unfolding set_file_state ensure_open
rotate (hot, l) = ensure_open (
  record hot {
    closed = (hot.file_id, hot.bytes) ∷ hot.closed;
    segment_seq = (hot.segment_seq + 1) % 2 ^ 32;
  },
  if hot.file_id == 0 then l else set_file_state hot.file_id FileState.sealed l,
)

-- The open file is cut to its watermark.
unfoldable pub recover : HotFileWriter × Ledger → Option HotFileWriter
unfolding watermark take
recover (hot, l) = if hot.file_id == 0 then some hot else elim (watermark hot.file_id l) [
  | none ↦ none
  | some wm ↦ some (record hot { offset = wm; bytes = take wm hot.bytes })
]

-- A writer with no open file.
abbrev pub blank : ℕ → ℕ → ℕ → HotFileWriter
blank dev_id segment_seq segment_size = record {
  dev_id = dev_id;
  segment_seq = segment_seq;
  segment_size = segment_size;
  file_id = 0;
  offset = 0;
  bytes = [];
  closed = [];
}

unfoldable pub open_hot : ℕ → ℕ → ℕ → Ledger → HotFileWriter × Ledger
unfolding ensure_open
open_hot dev_id segment_seq segment_size l = ensure_open (blank dev_id segment_seq segment_size, l)

-- `contents` is what the file of each row holds on the disk.
unfoldable pub open_or_recover : (ℕ → List ℕ) → ℕ → ℕ → ℕ → Ledger → HotFileWriter × Ledger
unfolding open_file_for_dev open_hot take
open_or_recover contents dev_id segment_seq segment_size l =
    elim (open_file_for_dev dev_id l.files) [
      | none ↦ open_hot dev_id segment_seq segment_size l
      | some (file_id, row) ↦ (
        record {
          dev_id = dev_id;
          segment_seq = elim row.segment_seq [ none ↦ segment_seq | some n ↦ n % 2 ^ 32 ];
          segment_size = segment_size;
          file_id = file_id % 2 ^ 32;
          offset = row.analysis_offset;
          bytes = take row.analysis_offset (contents file_id);
          closed = [];
        },
        l,
      )
    ]

-- `encode` is that of sov_probe, and `lmdb` the stage of a batch in the index: a database before and
-- after, or an error.
module _ {D : Type 0} (encode : WalRecord → List ℕ) (lmdb : List IndexedRecord → D → Option D) where
  unfoldable pub append : WalRecord → HotFileWriter × Ledger → HotFileWriter × Ledger × ℕ
  unfolding rotate payload_len
  append rec (hot, l) =
      let ready =
        if ltb hot.segment_size (hot.offset + payload_len rec) then rotate (hot, l) else (hot, l) in
      (
        record ready.0 {
          bytes = ready.0.bytes ++ encode rec;
          offset = ready.0.offset + payload_len rec;
        },
        ready.1,
        ready.0.offset % 2 ^ 32,
      )

  pub record BatchPipeline : Type 0 where
    pub hot : HotFileWriter
    pub ledger : Ledger
    pub db : D
    pub pending : List IndexedRecord
    pub batch_size : ℕ

  -- The index first, then the watermark. The events go to the ledger on a best effort, and are not
  -- modelled.
  unfoldable pub commit_batch : List IndexedRecord → BatchPipeline → BatchPipeline × Bool
  unfolding stage_sqlite
  commit_batch records p = elim (lmdb records p.db) [
    | none ↦ (p, false)
    | some db' ↦
        let staged = stage_sqlite records p.ledger in
        (record p { db = db'; ledger = staged.0 }, staged.1)
  ]

  unfoldable pub flush : BatchPipeline → BatchPipeline × Bool
  unfolding commit_batch
  flush p = elim p.pending [
    | [] ↦ (p, true)
    | r ∷ rs ↦ commit_batch (r ∷ rs) (record p { pending = [] })
  ]

  unfoldable pub rotate_hot : BatchPipeline → BatchPipeline
  unfolding rotate
  rotate_hot p =
      let rotated = rotate (p.hot, p.ledger) in record p { hot = rotated.0; ledger = rotated.1 }

  -- The barrier between files: what is pending is committed before the file changes.
  unfoldable pub barrier : WalRecord → BatchPipeline → BatchPipeline × Bool
  unfolding flush rotate_hot payload_len
  barrier rec p =
      if ltb p.hot.segment_size (p.hot.offset + payload_len rec) && ltb 0 p.hot.offset
      then (let flushed = flush p in if flushed.1 then (rotate_hot flushed.0, true) else flushed)
      else (p, true)

  unfoldable pub place : WalRecord → BatchPipeline → BatchPipeline
  unfolding append
  place rec p =
      let (hot, l, offset) = append rec (p.hot, p.ledger) in
      record p {
        hot = hot;
        ledger = l;
        pending =
            p.pending
            ++ record {
              dev_id = hot.dev_id % 2 ^ 32;
              file_id = hot.file_id;
              offset = offset;
              rec = rec;
            }
              ∷ [];
      }

  unfoldable pub push_record : WalRecord → BatchPipeline → BatchPipeline × Bool
  unfolding barrier place flush
  push_record rec p =
      let start = barrier rec p in
      if start.1
      then (let placed = place rec start.0 in
          if leb placed.batch_size (length placed.pending % 2 ^ 32)
          then flush placed
          else (placed, true))
      else start

  unfoldable pub finish : BatchPipeline → BatchPipeline × Bool
  unfolding flush rotate_hot
  finish p = let flushed = flush p in if flushed.1 then (rotate_hot flushed.0, true) else flushed
