-- ===== src/Matcher/Rows.antt =====
-- src/qr.rs: the steps of the engine on its tables. Reads and writes go through the interface; a failing
-- call of LMDB gives the whole batch up, and is not modelled.
use sov_vault.Base.{
  ℕ, Bool, true, false, List, [], ◌∷◌, Option, none, some, min, ◌==◌, if◌then◌else◌,
}
use sov_vault.Db.Keys.{k_qr_pair, k_qr_pending, k_qr_pending_prefix, k_pending_ttl}
use sov_vault.Db.Pair
use sov_vault.Db.Pair.{QrPairValue, QrStatus, to_u8}
use sov_vault.Db.Values.{v_qr_pending_decode}
use sov_vault.Store.{Lmdb, Row, put_no_overwrite}
use sov_vault.Connection.State.{ConnState}
use sov_vault.Matcher.Types.{AnomalyEvent, ExtMetaEvent, ConnArchiveEvent, PendingHit, u48_max}

module _ (db : Lmdb) where
  open db use {Table, get, delete, range}

  -- The two write transactions, and what the engine holds beside them.
  pub record Matcher : Type 0 where
    pub live_conn_state : Table
    pub live_qr_pair : Table
    pub live_qr_pending : Table
    pub live_pending_ttl : Table
    pub epoch_qr_pair : Table
    pub epoch_conn_qr : Table
    pub epoch_qr_key : Table
    pub epoch_qr_time : Table
    pub epoch_packet_qr : Table
    pub epoch_record_ts : Table
    pub ack_tol : ℕ
    pub conns : List (ℕ × ConnState)
    pub anomalies : List AnomalyEvent
    pub ext_meta : List ExtMetaEvent
    pub conn_archives : List ConnArchiveEvent

  -- The rows that decode.
  unfoldable pub hits_of : List Row → List PendingHit
  hits_of [] = []
  hits_of ((k, v) ∷ rows) = elim (v_qr_pending_decode v) [
    | none ↦ hits_of rows
    | some (q_first_idx, q_ts, q_len) ↦
        record { key = k; q_first_idx = q_first_idx; q_ts = q_ts } ∷ hits_of rows
  ]

  unfoldable pub scan_pending_upto : Matcher → ℕ → ℕ → ℕ → List PendingHit
  unfolding hits_of
  scan_pending_upto m h inc abs_limit = hits_of (
      range m.live_qr_pending (k_qr_pending_prefix h inc)
        (k_qr_pending h inc (min abs_limit u48_max)))

  -- The row that is to move: what the live database holds at the locator, if it decodes and is pending.
  abbrev pub pending_pair : Option (List ℕ) → Option QrPairValue
  pending_pair none = none
  pending_pair (some v) = elim (Pair.decode v) [
    | none ↦ none
    | some pair ↦ if pair.status == to_u8 QrStatus.pending then some pair else none
  ]

  unfoldable pub migrate_terminal : ℕ → (QrPairValue → QrPairValue) → Matcher → Matcher × Bool
  unfolding put_no_overwrite
  migrate_terminal q_first_idx flip m =
      let kp = k_qr_pair q_first_idx in
      elim (get m.epoch_qr_pair kp) [
        | some v ↦ (record m { live_qr_pair = delete m.live_qr_pair kp }, false)
        | none ↦ elim (pending_pair (get m.live_qr_pair kp)) [
          | none ↦ (m, false)
          | some pair ↦ (
            record m {
              epoch_qr_pair = (put_no_overwrite db m.epoch_qr_pair kp (Pair.encode (flip pair))).0;
              live_qr_pair = delete m.live_qr_pair kp;
            },
            true,
          )
        ]
      ]

  -- The rows of QR_PENDING and PENDING_TTL of a request that is done with.
  unfoldable pub clear_pending : ℕ → PendingHit → Matcher → Matcher
  clear_pending h hit m = record m {
    live_qr_pending = delete m.live_qr_pending hit.key;
    live_pending_ttl = delete m.live_pending_ttl (k_pending_ttl hit.q_ts h);
  }
