-- ===== src/Query/Export.antt =====
-- src/query.rs: the searches over the indexes, the exports that turn their pages, and the replay that
-- feeds records to a sink. A sink is the list of what it was fed; `none` is a panic of a slice index.
pub mod Rows
pub mod Stream
use sov_vault.Base.{
  ℕ, zero, suc, ◌+◌, ◌-◌, ◌^◌, Bool, true, false, List, [], ◌∷◌, ◌++◌, Option, none, some,
  split_at?, ◌==◌, if◌then◌else◌,
}
use sov_vault.Bytes.{to_be_bytes, from_be_bytes}
use sov_vault.Db.Pair.{QrStatus, to_u8}
use sov_vault.Db.Values.{v_record_summary_decode}
use sov_vault.Map
use sov_vault.Map.{nat_eq}
use sov_vault.Reassembly.Steps.{◌>>=◌}
use sov_vault.Store.{Lmdb, Row}
use sov_vault.Query.{
  EpochTarget, EpochDb, Page, page_default, PageRows, QrFilter, QrIndexRow, RecordRow, QuerySession,
  dbs_of, batch_statuses,
}
use sov_vault.Query.Scan.{Bound, included, Scans, RawEpochRow, page_rows_epochs, paged}

-- `be64(&k[o..o + 8])`.
unfoldable pub be64_at : ℕ → List ℕ → Option ℕ
be64_at o k = elim (split_at? o k) [
  | none ↦ none
  | some (front, rest) ↦ elim (split_at? 8 rest) [
    | none ↦ none
    | some (x, more) ↦ some (from_be_bytes x)
  ]
]

unfoldable pub candidates_of : ℕ → List RawEpochRow → Option (List ℕ)
unfolding be64_at
candidates_of o [] = some []
candidates_of o ((num, k, v) ∷ raw) = do
  c ← be64_at (o + 8) k
  cs ← candidates_of o raw
  some (c ∷ cs)

-- `if let Some(sf) = f.status { if sf != status { continue; } }`.
unfoldable pub wanted : Option QrStatus → QrStatus → Bool
unfolding to_u8
wanted none status = true
wanted (some sf) status = to_u8 sf == to_u8 status

-- The row for a locator, unless it has no status or not the one that is wanted.
unfoldable pub index_row : Option ℕ → Option QrStatus → ℕ → ℕ → Option QrStatus → List QrIndexRow
unfolding wanted
index_row conn sf q_ts c none = []
index_row conn sf q_ts c (some status) =
    if wanted sf status
    then record { q_first_idx = c; q_ts = q_ts; status = status; conn_hash = conn } ∷ []
    else []

-- The loop over the raw rows: time and locator stand in the key from `o` on, and `look` is the map of
-- statuses.
unfoldable pub index_rows :
    ℕ
    → Option ℕ
    → Option QrStatus
    → (ℕ → Option QrStatus)
    → List RawEpochRow
    → Option (List QrIndexRow)
unfolding be64_at index_row
index_rows o conn sf look [] = some []
index_rows o conn sf look ((num, k, v) ∷ raw) = do
  q_ts ← be64_at o k
  c ← be64_at (o + 8) k
  rest ← index_rows o conn sf look raw
  some (index_row conn sf q_ts c (look c) ++ rest)

abbrev pub or_value : ℕ → Option ℕ → ℕ
or_value d none = d
or_value d (some x) = x

abbrev pub zeros : List ℕ
zeros = 0 ∷ 0 ∷ 0 ∷ 0 ∷ 0 ∷ 0 ∷ 0 ∷ 0 ∷ []

abbrev pub ones : List ℕ
ones = 0xff ∷ 0xff ∷ 0xff ∷ 0xff ∷ 0xff ∷ 0xff ∷ 0xff ∷ 0xff ∷ []

unfoldable pub ts_bounds : Option ℕ → Option ℕ → List ℕ × List ℕ
ts_bounds start_ts end_ts = (
  to_be_bytes 8 (or_value 0 start_ts) ++ zeros,
  to_be_bytes 8 (or_value (2 ^ 64 - 1) end_ts) ++ ones,
)

unfoldable pub conn_qr_bounds : ℕ → Option ℕ → Option ℕ → List ℕ × List ℕ
unfolding ts_bounds
conn_qr_bounds conn_hash start_ts end_ts =
    let b = ts_bounds start_ts end_ts in
    (to_be_bytes 8 conn_hash ++ b.0, to_be_bytes 8 conn_hash ++ b.1)

-- The rows whose summary decodes.
unfoldable pub record_rows : List RawEpochRow → Option (List RecordRow)
unfolding be64_at
record_rows [] = some []
record_rows ((num, k, v) ∷ raw) = elim (v_record_summary_decode v) [
  | none ↦ record_rows raw
  | some summary ↦ do
    ts_ns ← be64_at 0 k
    packet_idx ← be64_at 8 k
    rest ← record_rows raw
    some (record { ts_ns = ts_ns; packet_idx = packet_idx; summary = summary } ∷ rest)
]

-- What an export ends with.
pub data Export : Type 0 where
  exported : List QrIndexRow → Export
  panicked stuck : Export

module _ (db : Lmdb) (scans : Scans db) where
  -- `scan_conn_qr` and `scan_time_qr` behind their bounds.
  unfoldable pub scan_index :
      QuerySession db
      → EpochDb
      → ℕ
      → Option ℕ
      → Option QrStatus
      → List ℕ × List ℕ
      → Page
      → Option (PageRows QrIndexRow)
  unfolding page_rows_epochs candidates_of batch_statuses index_rows paged Map.get
  scan_index s d o conn sf (lo, hi) page =
      let raw = page_rows_epochs db scans s d lo hi page in
      do
        candidates ← candidates_of o raw
        let statuses = batch_statuses db s candidates
        rows ← index_rows o conn sf (λ c. Map.get c statuses) raw
        some (paged raw rows page.limit)

  unfoldable pub scan_time_qr : QuerySession db → QrFilter → Page → Option (PageRows QrIndexRow)
  unfolding scan_index ts_bounds
  scan_time_qr s f page =
      scan_index s EpochDb.qr_time 0 none f.status (ts_bounds f.start_ts f.end_ts) page

  -- Without a connection the search is refused before it starts: the argument is what
  -- `let Some(ch) = f.conn_hash` binds.
  unfoldable pub scan_conn_qr : QuerySession db → QrFilter → ℕ → Page → Option (PageRows QrIndexRow)
  unfolding scan_index conn_qr_bounds
  scan_conn_qr s f ch page =
      scan_index s EpochDb.conn_qr 8 (some ch) f.status (conn_qr_bounds ch f.start_ts f.end_ts) page

  unfoldable pub scan_records :
      QuerySession db → Option ℕ → Option ℕ → Page → Option (PageRows RecordRow)
  unfolding page_rows_epochs ts_bounds record_rows paged
  scan_records s start_ts end_ts page =
      let b = ts_bounds start_ts end_ts in
      let raw = page_rows_epochs db scans s EpochDb.record_ts b.0 b.1 page in
      do rows ← record_rows raw; some (paged raw rows page.limit)

  -- `match f.conn_hash`.
  unfoldable pub scan_for : QuerySession db → QrFilter → Page → Option (PageRows QrIndexRow)
  unfolding scan_conn_qr scan_time_qr
  scan_for s f page = elim f.conn_hash [
    | some ch ↦ scan_conn_qr s f ch page
    | none ↦ scan_time_qr s f page
  ]

  -- The loop that turns the pages; `out` is what the sink was fed.
  unfoldable pub stream_pages : ℕ → QuerySession db → QrFilter → Page → List QrIndexRow → Export
  unfolding scan_for
  stream_pages zero s f page out = stuck
  stream_pages (suc fuel) s f page out = elim (scan_for s f page) [
    | none ↦ panicked
    | some r ↦
        let more = stream_pages fuel s f (record page { cursor = r.next_cursor }) (out ++ r.rows) in
        if r.has_more then more else exported (out ++ r.rows)
  ]

  unfoldable pub stream_qrs : ℕ → QuerySession db → QrFilter → Export
  unfolding stream_pages page_default
  stream_qrs fuel s f = stream_pages fuel s f page_default []

  -- One epoch's records go to the sink behind `fed`.
  unfoldable pub feed_rows : List Row → List RecordRow → Option (List RecordRow)
  unfolding be64_at
  feed_rows [] fed = some fed
  feed_rows ((k, v) ∷ rows) fed = elim (v_record_summary_decode v) [
    | none ↦ feed_rows rows fed
    | some summary ↦ do
      ts_ns ← be64_at 0 k
      packet_idx ← be64_at 8 k
      feed_rows rows
          (fed ++ record { ts_ns = ts_ns; packet_idx = packet_idx; summary = summary } ∷ [])
  ]

  unfoldable pub replay_epoch_range :
      db.Table → List ℕ → List ℕ → List RecordRow → Option (List RecordRow)
  unfolding feed_rows
  replay_epoch_range t lo hi fed = feed_rows (scans.range t (included lo) (included hi)) fed

  unfoldable pub replay_targets :
      QuerySession db
      → List ℕ
      → List ℕ
      → List EpochTarget
      → List RecordRow
      → Option (List RecordRow)
  unfolding replay_epoch_range dbs_of
  replay_targets s lo hi [] fed = some fed
  replay_targets s lo hi (t ∷ ts) fed = do
    fed' ← replay_epoch_range (dbs_of db s t EpochDb.record_ts) lo hi fed
    replay_targets s lo hi ts fed'

  unfoldable pub replay_into_sink : QuerySession db → Option ℕ → Option ℕ → Option (List RecordRow)
  unfolding ts_bounds replay_targets
  replay_into_sink s start_ts end_ts =
      let b = ts_bounds start_ts end_ts in replay_targets s b.0 b.1 s.targets []
