-- ===== src/Query.antt =====
-- src/query.rs: a session of queries over the live tables, the current epoch and the frozen ones, and
-- its lookups by key. The directory of an epoch is known by the epoch's number.
pub mod Scan
pub mod Statuses
pub mod Export
pub mod Prune
pub mod Open
use sov_vault.Base.{ℕ, Bool, true, false, List, [], ◌∷◌, Option, none, some, if◌then◌else◌}
use sov_vault.Connection.State
use sov_vault.Connection.State.{ConnState}
use sov_vault.Db.Keys.{k_conn_state, k_packet_qr, k_qr_pair}
use sov_vault.Db.Pair
use sov_vault.Db.Pair.{QrPairValue, QrStatus}
use sov_vault.Db.Values.{RecordSummary, v_secondary_decode}
use sov_vault.Map
use sov_vault.Map.{nat_eq}
use sov_vault.Store.{Lmdb}

pub record EpochTarget : Type 0 where
  pub num : ℕ
  pub is_current : Bool

-- The tables of an epoch that queries read.
pub data EpochDb : Type 0 where
  qr_pair packet_qr conn_qr qr_time record_ts : EpochDb

pub record Page : Type 0 where
  pub cursor : Option (List ℕ)
  pub limit : ℕ
  pub forward : Bool

unfoldable pub page_default : Page
page_default = record { cursor = none; limit = 100; forward = true }

pub record PageRows {ℓ} (A : Type ℓ) : Type ℓ where
  pub rows : List A
  pub has_more : Bool
  pub next_cursor : Option (List ℕ)

pub record QrFilter : Type 0 where
  pub conn_hash : Option ℕ
  pub start_ts : Option ℕ
  pub end_ts : Option ℕ
  pub status : Option QrStatus

-- The name of the status goes with it.
pub record QrIndexRow : Type 0 where
  pub q_first_idx : ℕ
  pub q_ts : ℕ
  pub status : QrStatus
  pub conn_hash : Option ℕ

pub record RecordRow : Type 0 where
  pub ts_ns : ℕ
  pub packet_idx : ℕ
  pub summary : RecordSummary

-- What a session reads: `open_epoch` gives the tables of a frozen epoch.
pub record QuerySession (db : Lmdb) : Type 0 where
  pub live_qr_pair : db.Table
  pub live_conn_state : db.Table
  pub cur_dbs : EpochDb → db.Table
  pub open_epoch : ℕ → EpochDb → db.Table
  pub targets : List EpochTarget
  pub all_targets : List EpochTarget

module _ (db : Lmdb) where
  open db use {Table, get}

  -- `if t.is_current { &self.cur_dbs } else { self.open_epoch(t.num, &t.dir)?.dbs }`.
  unfoldable pub dbs_of : QuerySession db → EpochTarget → EpochDb → Table
  dbs_of s t = if t.is_current then s.cur_dbs else s.open_epoch t.num

  -- `db.get(txn, key)?.and_then(decode)`.
  unfoldable pub get_decoded {ℓ} : {A : Type ℓ} → (List ℕ → Option A) → List ℕ → Table → Option A
  get_decoded decode key t = elim (get t key) [ none ↦ none | some v ↦ decode v ]

  -- The loop over the targets, which ends at the first hit.
  unfoldable pub first_hit {ℓ} :
      {A : Type ℓ} → QuerySession db → EpochDb → (Table → Option A) → List EpochTarget → Option A
  unfolding dbs_of
  first_hit s d look [] = none
  first_hit s d look (t ∷ ts) =
      let rest = first_hit s d look ts in
      elim (look (dbs_of s t d)) [ some a ↦ some a | none ↦ rest ]

  unfoldable pub epoch_get {ℓ} :
      {A : Type ℓ} → QuerySession db → EpochDb → List ℕ → (List ℕ → Option A) → Option A
  unfolding first_hit get_decoded
  epoch_get s d key decode = first_hit s d (get_decoded decode key) s.all_targets

  unfoldable pub qr_by_idx : QuerySession db → ℕ → Option QrPairValue
  unfolding epoch_get get_decoded
  qr_by_idx s q_first_idx =
      let kp = k_qr_pair q_first_idx in
      elim (get_decoded Pair.decode kp s.live_qr_pair) [
        | some p ↦ some p
        | none ↦ epoch_get s EpochDb.qr_pair kp Pair.decode
      ]

  unfoldable pub qr_by_packet : QuerySession db → ℕ → Option ℕ
  unfolding epoch_get
  qr_by_packet s packet_idx =
      epoch_get s EpochDb.packet_qr (k_packet_qr packet_idx) v_secondary_decode

  unfoldable pub conn_state : QuerySession db → ℕ → Option ConnState
  unfolding get_decoded
  conn_state s conn_hash = get_decoded State.from_bytes (k_conn_state conn_hash) s.live_conn_state

  -- `QrPairValue::decode(v)` and then `QrStatus::from_u8(p.status)`.
  unfoldable pub status_in : List ℕ → Option QrStatus
  status_in v = elim (Pair.decode v) [ none ↦ none | some p ↦ Pair.from_u8 p.status ]

  -- `if let Some(st) = .. { out.insert(c, st); }`.
  unfoldable pub note_status : Table → ℕ → List (ℕ × QrStatus) → List (ℕ × QrStatus)
  unfolding get_decoded status_in Map.insert
  note_status t c out = elim (get_decoded status_in (k_qr_pair c) t) [
    | none ↦ out
    | some st ↦ Map.insert c st out
  ]

  -- The candidates that are in flight.
  unfoldable pub live_statuses : Table → List ℕ → List (ℕ × QrStatus) → List (ℕ × QrStatus)
  unfolding note_status
  live_statuses t [] out = out
  live_statuses t (c ∷ cs) out = live_statuses t cs (note_status t c out)

  unfoldable pub batch_resolve_epoch : Table → List ℕ → List (ℕ × QrStatus) → List (ℕ × QrStatus)
  unfolding note_status Map.get
  batch_resolve_epoch t [] out = out
  batch_resolve_epoch t (c ∷ cs) out = elim (Map.get c out) [
    | some st ↦ batch_resolve_epoch t cs out
    | none ↦ batch_resolve_epoch t cs (note_status t c out)
  ]

  unfoldable pub resolve_epochs :
      QuerySession db → List ℕ → List EpochTarget → List (ℕ × QrStatus) → List (ℕ × QrStatus)
  unfolding batch_resolve_epoch dbs_of
  resolve_epochs s candidates [] out = out
  resolve_epochs s candidates (t ∷ ts) out =
      resolve_epochs s candidates ts
        (batch_resolve_epoch (dbs_of s t EpochDb.qr_pair) candidates out)

  unfoldable pub batch_statuses : QuerySession db → List ℕ → List (ℕ × QrStatus)
  unfolding live_statuses resolve_epochs
  batch_statuses s candidates =
      resolve_epochs s candidates s.all_targets (live_statuses s.live_qr_pair candidates [])
