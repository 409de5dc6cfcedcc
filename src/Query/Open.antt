-- ===== src/Query/Open.antt =====
-- src/query.rs: how a session is opened on the registry of databases, and the two exports of records.
use sov_vault.Base.{
  ℕ, ◌^◌, ◌≡◌, Bool, ◌&&◌, List, [], ◌∷◌, Option, none, some, ltb, ◌==◌, if◌then◌else◌,
}
use sov_vault.Connection.State
use sov_vault.Connection.State.{ConnState}
use sov_vault.Db.Keys.{k_conn_state}
use sov_vault.Store.{Lmdb}
use sov_vault.Query.{EpochTarget, EpochDb, RecordRow, QuerySession, get_decoded}
use sov_vault.Query.Scan.{Scans}
use sov_vault.Query.Export.{replay_into_sink}
use sov_vault.Query.Prune.{EpochBoundary, boundaries_of, prune_targets_by_window}
use sov_vault.Query.Prune.Replay.{AreBounded, FitsTime, replay_into_sink-prune}

-- What a session reads of the registry; `frozen` are the tables in an epoch's directory, and
-- `epoch_targets` the numbers of the directories in rising order.
pub record DbRegistry (db : Lmdb) : Type 0 where
  pub live_qr_pair : db.Table
  pub live_conn_state : db.Table
  pub epoch_dbs : EpochDb → db.Table
  pub frozen : ℕ → EpochDb → db.Table
  pub epoch_num : ℕ
  pub epoch_targets : List ℕ

-- The times of a connection in the ledger's archive; a number with a sign is its 64 bits.
pub record ConnArchive : Type 0 where
  pub first_ts : Option ℕ
  pub last_ts : Option ℕ

unfoldable pub targets_of : ℕ → List ℕ → List EpochTarget
targets_of epoch_num [] = []
targets_of epoch_num (n ∷ ns) =
    record { num = n; is_current = n == epoch_num } ∷ targets_of epoch_num ns

abbrev is_positive : ℕ → Bool
is_positive x = ltb 0 x && ltb x (2 ^ 63)

-- The times of an archive, where both are there and positive.
unfoldable pub archive_window : Option ConnArchive → Option (ℕ × ℕ)
archive_window none = none
archive_window (some a) = elim a.first_ts [
  | none ↦ none
  | some f ↦ elim a.last_ts [
    | none ↦ none
    | some l ↦ if is_positive f && is_positive l then some (f, l) else none
  ]
]

module _ (db : Lmdb) where
  -- `archive` is what `ledger.conn_archive(conn_hash)` finds.
  unfoldable pub conn_window : DbRegistry db → Option ConnArchive → ℕ → Option (ℕ × ℕ)
  unfolding get_decoded archive_window
  conn_window reg archive conn_hash =
      elim (get_decoded db State.from_bytes (k_conn_state conn_hash) reg.live_conn_state) [
        | none ↦ archive_window archive
        | some st ↦
            if ltb 0 st.first_ts && ltb 0 st.last_ts
            then some (st.first_ts, st.last_ts)
            else archive_window archive
      ]

  -- `ledger` is the table epochs, where there is a ledger.
  unfoldable pub build :
      DbRegistry db → Option (List EpochBoundary) → Option ℕ → Option ℕ → QuerySession db
  unfolding targets_of prune_targets_by_window
  build reg ledger start_ts end_ts =
      let all = targets_of reg.epoch_num reg.epoch_targets in
      record {
        live_qr_pair = reg.live_qr_pair;
        live_conn_state = reg.live_conn_state;
        cur_dbs = reg.epoch_dbs;
        open_epoch = reg.frozen;
        targets = elim ledger [
          | none ↦ all
          | some rows ↦ prune_targets_by_window all rows start_ts end_ts
        ];
        all_targets = all;
      }

  unfoldable pub open_all : DbRegistry db → QuerySession db
  unfolding build
  open_all reg = build reg none none none

  unfoldable pub open_with_window :
      DbRegistry db → List EpochBoundary → Option ℕ → Option ℕ → QuerySession db
  unfolding build
  open_with_window reg rows start_ts end_ts = build reg (some rows) start_ts end_ts

  unfoldable pub open_for_conn :
      DbRegistry db → List EpochBoundary → Option ConnArchive → ℕ → QuerySession db
  unfolding conn_window build
  open_for_conn reg rows archive conn_hash = elim (conn_window reg archive conn_hash) [
    | some (first_ts, last_ts) ↦ build reg (some rows) (some first_ts) (some last_ts)
    | none ↦ build reg none none none
  ]

  module _ (scans : Scans db) where
    unfoldable pub stream_records : DbRegistry db → Option ℕ → Option ℕ → Option (List RecordRow)
    unfolding open_all replay_into_sink
    stream_records reg start_ts end_ts = replay_into_sink db scans (open_all reg) start_ts end_ts

    unfoldable pub replay_scan :
        DbRegistry db → List EpochBoundary → Option ℕ → Option ℕ → Option (List RecordRow)
    unfolding open_with_window replay_into_sink
    replay_scan reg rows start_ts end_ts =
        replay_into_sink db scans (open_with_window reg rows start_ts end_ts) start_ts end_ts

    -- Let the window's ends have 64 bits, and let the records of each epoch that is not the
    -- current one and has a row in the ledger lie between that row's times. The replay that leaves
    -- out epochs by their times feeds the sink what the export of records over all epochs feeds
    -- it.
    pub replay_scan-all :
        (reg : DbRegistry db) (rows : List EpochBoundary) (start_ts end_ts : Option ℕ)
        → FitsTime start_ts
        → FitsTime end_ts
        → AreBounded db scans (open_all reg) (boundaries_of rows []) (open_all reg).targets
        → replay_scan reg rows start_ts end_ts ≡ stream_records reg start_ts end_ts
    unfolding replay_scan stream_records open_all open_with_window build
    replay_scan-all reg rows start_ts end_ts hs he h =
        replay_into_sink-prune db scans (open_all reg) rows start_ts end_ts hs he h
