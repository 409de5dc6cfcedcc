-- ===== src/Examples/Queries.antt =====
-- Runs of the queries of src/query.rs over two epochs whose tables are lists of rows.
use sov_vault.Base.{
  ◌≡◌, refl, true, false, List, [], ◌∷◌, ◌++◌, none, some, arith, max, if◌then◌else◌, subst,
}
use sov_vault.Bytes.{to_be_bytes, from_be_bytes}
use sov_vault.Bytes.Lex.{compare_bytes}
use sov_vault.Db.Keys.{k_qr_time, k_qr_pair, k_record_ts}
use sov_vault.Db.Pair
use sov_vault.Db.Pair.{QrPairValue, QrStatus}
use sov_vault.Db.Values.{v_secondary_encode, v_record_summary_encode}
use sov_vault.Map
use sov_vault.Map.{nat_eq}
use sov_vault.Store.{Row}
use sov_vault.Store.Assoc.{assoc}
use sov_vault.Query.{
  EpochTarget, EpochDb, QrFilter, QrIndexRow, QuerySession, batch_statuses, dbs_of, first_hit,
  get_decoded, status_in,
}
use sov_vault.Query.Statuses.{has_candidate, status_of, get-batch_statuses}
use sov_vault.Query.Scan.{RawEpochRow, page_rows_epochs}
use sov_vault.Query.Scan.Assoc.{ordered, assoc_scans}
use sov_vault.Query.Scan.Backward.{AreOfFirst, page_rows_epochs-AreOfFirst}
use sov_vault.Query.Scan.Pages.{contents, cursor_after, page_rows_epochs-after}
use sov_vault.Query.Scan.Rows.{first}
use sov_vault.Query.Export.{exported, ts_bounds, index_row, index_rows, wanted, be64_at, stream_qrs}
use sov_vault.Query.Export.Stream.{rows_for, stream_qrs-all}
use sov_vault.Query.Prune.{EpochBoundary, boundaries_of, min_of, max_of}
use sov_vault.Query.Prune.Replay.{AreWithin, AreBounded}
use sov_vault.Query.Open.{
  DbRegistry, open_all, build, targets_of, stream_records, replay_scan, replay_scan-all,
}
use sov_vault.Examples.Codecs.{sample_summary}
use sov_vault.Examples.Matching.{waiting_pair}

abbrev answered : QrPairValue
answered = record waiting_pair { status = 1 }

-- Request 64 is answered in the frozen epoch, 128 waits.
abbrev frozen : EpochDb → List Row
frozen EpochDb.qr_pair = (k_qr_pair 64, Pair.encode answered) ∷ []
frozen EpochDb.packet_qr = []
frozen EpochDb.conn_qr = []
frozen EpochDb.qr_time = (k_qr_time 1000 64, v_secondary_encode 64) ∷ []
frozen EpochDb.record_ts = (k_record_ts 1000 64, v_record_summary_encode sample_summary) ∷ []

abbrev current : EpochDb → List Row
current EpochDb.qr_pair = []
current EpochDb.packet_qr = []
current EpochDb.conn_qr = []
current EpochDb.qr_time = (k_qr_time 2000 128, v_secondary_encode 128) ∷ []
current EpochDb.record_ts = (k_record_ts 2000 128, v_record_summary_encode sample_summary) ∷ []

abbrev epochs : List EpochTarget
epochs = record { num = 0; is_current = false } ∷ record { num = 1; is_current = true } ∷ []

abbrev session : QuerySession assoc
session = record {
  live_qr_pair = (k_qr_pair 128, Pair.encode waiting_pair) ∷ [];
  live_conn_state = [];
  cur_dbs = current;
  open_epoch = λ num. frozen;
  targets = epochs;
  all_targets = epochs;
}

page_rows_epochs-AreOfFirst_example : AreOfFirst (
    page_rows_epochs assoc assoc_scans session EpochDb.qr_time
      (0 ∷ [])
      (255 ∷ [])
      (record { cursor = none; limit = 100; forward = false }))
page_rows_epochs-AreOfFirst_example =
    page_rows_epochs-AreOfFirst assoc assoc_scans session EpochDb.qr_time (0 ∷ []) (255 ∷ []) 100

-- What QR_TIME holds, in order.
abbrev time_rows : List RawEpochRow
time_rows =
    (0, k_qr_time 1000 64, v_secondary_encode 64)
    ∷ (1, k_qr_time 2000 128, v_secondary_encode 128)
    ∷ []

in_order : contents assoc assoc_scans session EpochDb.qr_time (0 ∷ []) (255 ∷ []) epochs ≡ time_rows
unfolding ordered dbs_of compare_bytes k_qr_time to_be_bytes
in_order = refl

-- Behind the first row comes the second.
page_rows_epochs-after_example :
    page_rows_epochs assoc assoc_scans session EpochDb.qr_time
      (0 ∷ [])
      (255 ∷ [])
      (record { cursor = cursor_after (first 1 time_rows); limit = 1; forward = true })
    ≡ first (max 1 1) ((1, k_qr_time 2000 128, v_secondary_encode 128) ∷ [])
page_rows_epochs-after_example =
    page_rows_epochs-after assoc assoc_scans session EpochDb.qr_time (0 ∷ []) (255 ∷ []) 1
      (first 1 time_rows) ((1, k_qr_time 2000 128, v_secondary_encode 128) ∷ [])
      ((omega arith, record {}), (record {}, record {})) (omega arith, (omega arith, record {}))
      in_order

get-batch_statuses_example :
    Map.get 128 (batch_statuses assoc session (64 ∷ 128 ∷ []))
    ≡ (if has_candidate 128 (64 ∷ 128 ∷ []) then status_of assoc session 128 else none)
get-batch_statuses_example = get-batch_statuses assoc session 128 (64 ∷ 128 ∷ [])

abbrev anything : QrFilter
anything = record { conn_hash = none; start_ts = none; end_ts = none; status = none }

abbrev found : List QrIndexRow
found =
    record { q_first_idx = 64; q_ts = 1000; status = QrStatus.matched; conn_hash = none }
    ∷ record { q_first_idx = 128; q_ts = 2000; status = QrStatus.pending; conn_hash = none }
    ∷ []

-- The whole of QR_TIME lies inside the bounds of no window.
searched : rows_for assoc assoc_scans session anything ≡ time_rows
unfolding ordered dbs_of compare_bytes k_qr_time to_be_bytes ts_bounds
searched = refl

answered_pair : status_in assoc (Pair.encode answered) ≡ some QrStatus.matched
unfolding status_in Pair.from_u8
answered_pair = rw (status_in, Pair.decode-encode answered (omega arith)) refl

pending_pair : status_in assoc (Pair.encode waiting_pair) ≡ some QrStatus.pending
unfolding status_in Pair.from_u8
pending_pair = rw (status_in, Pair.decode-encode waiting_pair (omega arith)) refl

status_64 : status_of assoc session 64 ≡ some QrStatus.matched
unfolding dbs_of k_qr_pair to_be_bytes get_decoded first_hit Map.get
status_64 = rw (get_decoded, first_hit, answered_pair) refl

status_128 : status_of assoc session 128 ≡ some QrStatus.pending
unfolding dbs_of k_qr_pair to_be_bytes get_decoded first_hit Map.get
status_128 = rw (get_decoded, pending_pair) refl

found_in_order : index_rows 0 none none (status_of assoc session) time_rows ≡ some found
unfolding index_rows be64_at k_qr_time to_be_bytes from_be_bytes index_row wanted
found_in_order = rw (status_64, status_128) refl

found_rows :
    index_rows 0 none none (status_of assoc session) (rows_for assoc assoc_scans session anything)
    ≡ some found
found_rows = rw searched found_in_order

stream_qrs-all_example : stream_qrs assoc assoc_scans 3 session anything ≡ exported found
stream_qrs-all_example =
    stream_qrs-all assoc assoc_scans session 3 anything found
      ((omega arith, record {}), (record {}, record {})) (omega arith, (omega arith, record {}))
      (rw searched (omega arith)) found_rows

abbrev boundaries : List EpochBoundary
boundaries = record { epoch_id = 0; min_ts = some 1000; max_ts = some 1000 } ∷ []

abbrev databases : DbRegistry assoc
databases = record {
  live_qr_pair = session.live_qr_pair;
  live_conn_state = [];
  epoch_dbs = current;
  frozen = λ num. frozen;
  epoch_num = 1;
  epoch_targets = 0 ∷ 1 ∷ [];
}

abbrev boundary : EpochBoundary
boundary = record { epoch_id = 0; min_ts = some 1000; max_ts = some 1000 }

frozen-AreWithin :
    AreWithin
      (min_of boundary)
      (max_of boundary)
      (ordered (dbs_of assoc session (record { num = 0; is_current = false }) EpochDb.record_ts))
unfolding min_of max_of ordered dbs_of k_record_ts
frozen-AreWithin =
    ((1000, to_be_bytes 8 64 ++ [], refl, omega arith, omega arith, omega arith), record {})

the_boundary : (b : EpochBoundary) → Map.get 0 (boundaries_of boundaries []) ≡ some b → boundary ≡ b
unfolding Map.get Map.insert boundaries_of
the_boundary b h = ground arith

all_bounded :
    AreBounded assoc assoc_scans
      (open_all assoc databases)
      (boundaries_of boundaries [])
      (open_all assoc databases).targets
unfolding open_all build targets_of dbs_of
all_bounded = (
  λ b frozen_one h.
      subst
        (λ (c : EpochBoundary). AreWithin (min_of c) (max_of c) (
          ordered
            (dbs_of assoc session (record { num = 0; is_current = false }) EpochDb.record_ts)))
        (the_boundary b h) frozen-AreWithin,
  (λ b frozen_one h. absurd (ground arith), record {}),
)

replay_scan-all_example :
    replay_scan assoc assoc_scans databases boundaries (some 1500) none
    ≡ stream_records assoc assoc_scans databases (some 1500) none
replay_scan-all_example =
    replay_scan-all assoc assoc_scans databases boundaries (some 1500) none (omega arith)
      (record {}) all_bounded
