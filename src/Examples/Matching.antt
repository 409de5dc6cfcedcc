-- ===== src/Examples/Matching.antt =====
-- Runs of the engine of src/qr.rs on concrete packets, over tables that are lists of rows.
use sov_vault.Map
use sov_vault.Store.{list_eq}
use sov_vault.Base.{◌≡◌, min, false, [], ◌∷◌, arith}
use sov_vault.Connection.State.{ConnState}
use sov_vault.Connection.Signed.{negsuc}
use sov_vault.Db.Keys.{k_qr_pair, k_qr_pending, k_pending_ttl}
use sov_vault.Db.Pair
use sov_vault.Db.Pair.{QrPairValue, QrStatus}
use sov_vault.Db.Values.{v_qr_pending_encode, v_pending_ttl_encode}
use sov_vault.Store.Assoc.{assoc}
use sov_vault.Matcher.Types.{WalRecord, Masks, IndexedRecord, saturating_add64, u48_max}
use sov_vault.Matcher.Rows.{Matcher, migrate_terminal}
use sov_vault.Matcher.Terminal.{set_status, consume_r, rst_cascade}
use sov_vault.Matcher.Isolation.{swept, consume_r-pending, rst_cascade-pending}
use sov_vault.Matcher.Migrate.{crashed, Agree, migrate_terminal-crashed}
use sov_vault.Matcher.Changes.{Changes}
use sov_vault.Matcher.Answer.{rst_cascade-pairs}

abbrev pub masks : Masks
masks = record { syn = 2; ack = 16; rst = 4; fin = 1; degraded = 1 }

abbrev pub response : WalRecord
response = record {
  timestamp_ns = 5_000_000;
  flags = 0;
  tcp_flags = 16;
  tcp_seq = 900;
  tcp_ack = 101;
  src_ip = 10 ∷ 0 ∷ 0 ∷ 2 ∷ [];
  dst_ip = 10 ∷ 0 ∷ 0 ∷ 1 ∷ [];
  src_port = 80;
  dst_port = 12345;
  proto = 6;
  window_size = 512;
  orig_payload_len = 40;
  payload = 79 ∷ 75 ∷ [];
}

abbrev pub indexed : IndexedRecord
indexed = record { dev_id = 1; file_id = 2; offset = 128; rec = response }

abbrev pub conn : ConnState
conn = record {
  state = 2;
  client_ip = 0x0a00_0001;
  client_port = 12345;
  server_ip = 0x0a00_0002;
  server_port = 80;
  proto = 6;
  first_ts = 1000;
  last_ts = 1000;
  syn_seen = 1000;
  synack_seen = 0;
  fin_seen = 0;
  rst_seen = 0;
  req_cnt = 1;
  resp_cnt = 0;
  bytes_c = 100;
  bytes_s = 0;
  pkts_c = 1;
  pkts_s = 0;
  abs_seq_c = 101;
  abs_seq_s = 0;
  consumed_ack_c = 0;
  consumed_ack_s = 0;
  meta_bind_id = negsuc 0;
  protocol_hint = 0;
  anomaly_flags = 16;
  qr_open = 1;
  last_raw_c = 101;
  last_raw_s = 0;
  incarnation = 3;
  dir_flags = 1;
  syn_pkt_idx = 64;
}

abbrev pub waiting_pair : QrPairValue
waiting_pair = record {
  status = 0;
  conn_hash = 77;
  q_ts = 1000;
  r_ts = 0;
  latency_ms = 0;
  q_len = 100;
  r_len = 0;
  abs_q_seq = 1;
  abs_q_end = 101;
  pseudo = 0;
  q_idx = 64 ∷ [];
  r_idx = [];
  req_key = 71 ∷ 69 ∷ 84 ∷ [];
  resp_key = [];
}

-- Request 64 of connection 77 waits in generation 3 for the byte 101 to be acknowledged.
abbrev pub tables : Matcher assoc
tables = record {
  live_conn_state = [];
  live_qr_pair = (k_qr_pair 64, Pair.encode waiting_pair) ∷ [];
  live_qr_pending = (k_qr_pending 77 3 101, v_qr_pending_encode 64 1000 100) ∷ [];
  live_pending_ttl = (k_pending_ttl 1000 77, v_pending_ttl_encode 64 101) ∷ [];
  epoch_qr_pair = [];
  epoch_conn_qr = [];
  epoch_qr_key = [];
  epoch_qr_time = [];
  epoch_packet_qr = [];
  epoch_record_ts = [];
  ack_tol = 4;
  conns = (77, conn) ∷ [];
  anomalies = [];
  ext_meta = [];
  conn_archives = [];
}

consume_r-pending_example :
    assoc.get
      (consume_r assoc 77 indexed 101 (conn, tables)).1.live_qr_pending
      (k_qr_pending 77 3 101)
    ≡ swept assoc 77 3 (min (saturating_add64 101 4) u48_max) 77 3 101 tables
consume_r-pending_example =
    consume_r-pending assoc 77 3 101 (omega arith) (omega arith) (omega arith) 77 indexed 101 conn
      tables (omega arith) (omega arith)

rst_cascade-pending_example :
    assoc.get
      (rst_cascade assoc 77 response (conn, tables)).1.live_qr_pending
      (k_qr_pending 77 3 101)
    ≡ swept assoc 77 3 u48_max 77 3 101 tables
rst_cascade-pending_example =
    rst_cascade-pending assoc 77 3 101 (omega arith) (omega arith) (omega arith) 77 response conn
      tables (omega arith) (omega arith)

abbrev moved : Matcher assoc
moved = (migrate_terminal assoc 64 (set_status QrStatus.timeout) tables).0

migrate_terminal-crashed_example :
    ((migrate_terminal assoc 64 (set_status QrStatus.matched) (crashed assoc tables moved)).1
      ≡ false)
    × Agree assoc
        (migrate_terminal assoc 64 (set_status QrStatus.matched) (crashed assoc tables moved)).0
        moved
        (k_qr_pair 64)
migrate_terminal-crashed_example =
    migrate_terminal-crashed assoc 64 (set_status QrStatus.timeout) (set_status QrStatus.matched)
      tables (k_qr_pair 64)

rst_cascade-pairs_example :
    Changes assoc
      (λ pair pair'. pair' ≡ set_status QrStatus.rst_abort pair)
      tables
      (rst_cascade assoc 77 response (conn, tables)).1
      (k_qr_pair 64)
rst_cascade-pairs_example = rst_cascade-pairs assoc 77 response conn tables (k_qr_pair 64)
