-- ===== src/Ttl.antt =====
-- src/anomaly.rs: the scan that ends the requests that have waited too long. `none` is the panic of a
-- slice of a key that is too short; a failing call of LMDB gives the scan up, and is not modelled.
pub mod Pairs
pub mod Expiry
pub mod Window
pub mod Deadlines
use Prim.Native.Nat.{bit_or}
use sov_vault.Base.{
  ℕ, ◌+◌, ◌-◌, ◌*◌, ◌/◌, Bool, true, false, ◌&&◌, List, [], ◌∷◌, ◌++◌, Option, none, some, min,
  length, ltb, leb, ◌==◌, if◌then◌else◌,
}
use sov_vault.Bytes.{take_uint}
use sov_vault.Connection.Kind.{flag_qr_unmatched}
use sov_vault.Connection.Signed.{ℤ, pos}
use sov_vault.Connection.State
use sov_vault.Connection.State.{ConnState}
use sov_vault.Db.Keys.{k_conn_state, k_qr_pair}
use sov_vault.Db.Keys.Order.{block_lo, block_hi, ttl_lo, ttl_hi}
use sov_vault.Db.Pair
use sov_vault.Db.Pair.{QrPairValue, QrStatus}
use sov_vault.Db.Values.{v_pending_ttl_decode, v_qr_pending_decode}
use sov_vault.Map
use sov_vault.Map.{nat_eq}
use sov_vault.Store.{Lmdb, Row, put_no_overwrite}
use sov_vault.Matcher.Types.{
  AnomalyEvent, AnomKind, event, qr_timeout_ms, u64_max, saturating_add64,
}
use sov_vault.Matcher.Rows.{pending_pair}
use sov_vault.Matcher.Terminal.{set_status}

pub record TtlScanStats : Type 0 where
  pub scanned : ℕ
  pub timed_out : ℕ
  pub stale : ℕ
  pub conns_touched : ℕ

-- `ConnState::default()`.
unfoldable pub default_state : ConnState
default_state = record {
  state = 0;
  client_ip = 0;
  client_port = 0;
  server_ip = 0;
  server_port = 0;
  proto = 0;
  first_ts = 0;
  last_ts = 0;
  syn_seen = 0;
  synack_seen = 0;
  fin_seen = 0;
  rst_seen = 0;
  req_cnt = 0;
  resp_cnt = 0;
  bytes_c = 0;
  bytes_s = 0;
  pkts_c = 0;
  pkts_s = 0;
  abs_seq_c = 0;
  abs_seq_s = 0;
  consumed_ack_c = 0;
  consumed_ack_s = 0;
  meta_bind_id = pos 0;
  protocol_hint = 0;
  anomaly_flags = 0;
  qr_open = 0;
  last_raw_c = 0;
  last_raw_s = 0;
  incarnation = 0;
  dir_flags = 0;
  syn_pkt_idx = 0;
}

-- A row of PENDING_TTL that the scan collects.
pub record TtlHit : Type 0 where
  pub key : List ℕ
  pub q_ts : ℕ
  pub conn : ℕ
  pub q_first_idx : ℕ

abbrev pub saturating_mul64 : ℕ → ℕ → ℕ
saturating_mul64 a b = min (a * b) u64_max

unfoldable pub timeout_ns : ℕ → ℕ
timeout_ns qr_timeout_secs = saturating_mul64 qr_timeout_secs 1_000_000_000

-- The shortest time after which a request can end.
unfoldable pub short_ns : ℕ → ℕ → ℕ
unfolding timeout_ns
short_ns qr_timeout_secs fin_short_timeout_secs =
    if ltb 0 fin_short_timeout_secs && ltb fin_short_timeout_secs qr_timeout_secs
    then timeout_ns fin_short_timeout_secs
    else timeout_ns qr_timeout_secs

-- The time at which a request of a connection with this `fin_seen` is over.
unfoldable pub deadline : ℕ → ℕ → ℕ → ℕ → ℕ
deadline qr_timeout short fin_seen q_ts =
    let base_deadline = saturating_add64 q_ts qr_timeout in
    let fin_deadline =
      if ltb 0 fin_seen && leb q_ts fin_seen then saturating_add64 fin_seen short else u64_max in
    min base_deadline fin_deadline

-- The first and the second half of a key, `be64(&k[0..8])` and `be64(&k[8..16])`.
unfoldable pub halves : List ℕ → Option (ℕ × ℕ)
halves k = elim (take_uint 8 k) [
  | none ↦ none
  | some (a, rest) ↦ elim (take_uint 8 rest) [ none ↦ none | some (b, _) ↦ some (a, b) ]
]

-- The rows that decode.
unfoldable pub ttl_hits : List Row → Option (List TtlHit)
unfolding halves
ttl_hits [] = some []
ttl_hits ((k, v) ∷ rows) = elim (v_pending_ttl_decode v) [
  | none ↦ ttl_hits rows
  | some (q_first_idx, abs_q_end) ↦ elim (halves k) [
    | none ↦ none
    | some (q_ts, conn) ↦ elim (ttl_hits rows) [
      | none ↦ none
      | some hits ↦
          some (record { key = k; q_ts = q_ts; conn = conn; q_first_idx = q_first_idx } ∷ hits)
    ]
  ]
]

-- The key of the first row of a request.
unfoldable pub find_pending : ℕ → List Row → Option (List ℕ)
find_pending q_first_idx [] = none
find_pending q_first_idx ((k, v) ∷ rows) = elim (v_qr_pending_decode v) [
  | none ↦ find_pending q_first_idx rows
  | some (fid, q_ts, q_len) ↦ if fid == q_first_idx then some k else find_pending q_first_idx rows
]

module _ (db : Lmdb) where
  open db use {Table, get, put, delete, range}

  -- The two write transactions, the states of connections read so far, the events and the counts.
  pub record Scan : Type 0 where
    pub live_conn_state : Table
    pub live_qr_pair : Table
    pub live_qr_pending : Table
    pub live_pending_ttl : Table
    pub epoch_qr_pair : Table
    pub conn_cache : List (ℕ × ConnState)
    pub events : List AnomalyEvent
    pub stats : TtlScanStats

  unfoldable pub load_conn : ℕ → Scan → Option ConnState
  load_conn h s = elim (get s.live_conn_state (k_conn_state h)) [
    | none ↦ none
    | some v ↦ State.from_bytes v
  ]

  -- `conn_cache.entry(h).or_insert_with(…)`.
  unfoldable pub conn_of : ℕ → Scan → ConnState
  unfolding Map.get load_conn default_state
  conn_of h s = elim (Map.get h s.conn_cache) [
    | some st ↦ st
    | none ↦ elim (load_conn h s) [ none ↦ default_state | some st ↦ st ]
  ]

  unfoldable pub cleanup_pending : ℕ → ℕ → Scan → Scan
  unfolding find_pending
  cleanup_pending h q_first_idx s =
      elim (find_pending q_first_idx (range s.live_qr_pending (block_lo h) (block_hi h))) [
        | none ↦ s
        | some k ↦ record s { live_qr_pending = delete s.live_qr_pending k }
      ]

  unfoldable pub cleanup_residual : TtlHit → Scan → Scan
  unfolding cleanup_pending
  cleanup_residual hit s =
      let cleaned = cleanup_pending hit.conn hit.q_first_idx s in
      record cleaned { live_pending_ttl = delete cleaned.live_pending_ttl hit.key }

  abbrev pub count_stale : Scan → Scan
  count_stale s = record s { stats = record s.stats { stale = s.stats.stale + 1 } }

  -- A request ends by the time: it moves to the epoch database, and its connection is marked.
  unfoldable pub time_out : ℕ → TtlHit → QrPairValue → ConnState → Scan → Scan
  unfolding cleanup_residual put_no_overwrite event Map.insert
  time_out now_ns hit pair st s =
      let kp = k_qr_pair hit.q_first_idx in
      let moved = cleanup_residual hit (record s {
        epoch_qr_pair =
            (put_no_overwrite db s.epoch_qr_pair kp
              (Pair.encode (set_status QrStatus.timeout pair))).0;
        live_qr_pair = delete s.live_qr_pair kp;
      }) in
      let st' = record st {
        qr_open = st.qr_open - 1;
        anomaly_flags = bit_or st.anomaly_flags flag_qr_unmatched;
      } in
      let report =
        event now_ns AnomKind.qr_timeout hit.conn (some hit.q_first_idx)
          (qr_timeout_ms ((now_ns - hit.q_ts) / 1_000_000)) in
      record moved {
        conn_cache = Map.insert hit.conn st' moved.conn_cache;
        events = moved.events ++ report ∷ [];
        stats = record moved.stats { timed_out = moved.stats.timed_out + 1 };
      }

  -- A row whose time has come.
  unfoldable pub expire : ℕ → TtlHit → ConnState → Scan → Scan
  unfolding cleanup_residual time_out
  expire now_ns hit st s =
      let kp = k_qr_pair hit.q_first_idx in
      elim (get s.epoch_qr_pair kp) [
        | some v ↦
            count_stale
              (cleanup_residual hit (record s { live_qr_pair = delete s.live_qr_pair kp }))
        | none ↦ elim (pending_pair db (get s.live_qr_pair kp)) [
          | none ↦ count_stale (cleanup_residual hit s)
          | some pair ↦ time_out now_ns hit pair st s
        ]
      ]

  unfoldable pub evaluate : ℕ → ℕ → ℕ → TtlHit → Scan → Scan
  unfolding conn_of deadline expire Map.insert
  evaluate now_ns qr_timeout short hit s =
      let st = conn_of hit.conn s in
      let cached = record s { conn_cache = Map.insert hit.conn st s.conn_cache } in
      if ltb now_ns (deadline qr_timeout short st.fin_seen hit.q_ts)
      then cached
      else expire now_ns hit st cached

  unfoldable pub evaluate_all : ℕ → ℕ → ℕ → List TtlHit → Scan → Scan
  unfolding evaluate
  evaluate_all now_ns qr_timeout short [] s = s
  evaluate_all now_ns qr_timeout short (hit ∷ hits) s =
      evaluate_all now_ns qr_timeout short hits (evaluate now_ns qr_timeout short hit s)

  -- The states go back to the live database.
  unfoldable pub write_back : List (ℕ × ConnState) → Scan → Scan
  write_back [] s = s
  write_back ((h, st) ∷ rest) s = write_back rest (record s {
    live_conn_state = put s.live_conn_state (k_conn_state h) (State.to_bytes st);
    stats = record s.stats { conns_touched = s.stats.conns_touched + 1 };
  })

  unfoldable pub scan_pending_ttl : ℕ → ℕ → ℕ → Scan → Option Scan
  unfolding timeout_ns short_ns ttl_hits evaluate_all write_back
  scan_pending_ttl now_ns qr_timeout_secs fin_short_timeout_secs s =
      if qr_timeout_secs == 0
      then some s
      else (let short = short_ns qr_timeout_secs fin_short_timeout_secs in
          let rows = range s.live_pending_ttl ttl_lo (ttl_hi (now_ns - short)) in
          elim (ttl_hits rows) [
            | none ↦ none
            | some hits ↦
                let counted = record s {
                  stats = record s.stats { scanned = s.stats.scanned + length rows };
                } in
                let done = evaluate_all now_ns (timeout_ns qr_timeout_secs) short hits counted in
                some (write_back done.conn_cache done)
          ])
