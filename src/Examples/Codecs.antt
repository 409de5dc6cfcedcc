-- ===== src/Examples/Codecs.antt =====
-- Runs of the codecs of src/id.rs, src/connection.rs and src/db.rs on concrete values.
use sov_vault.Base.{ℕ, ◌≤◌, ◌≡◌, ◌↔◌, refl, true, [], ◌∷◌, some, arith, length}
use sov_vault.Connection.Signed.{negsuc}
use sov_vault.Connection.State
use sov_vault.Connection.State.{ConnState}
use sov_vault.Connection.Key.{Tuple, key_of, conn_key_bytes-injective}
use sov_vault.Db.Keys.{k_qr_pending, k_qr_pending_prefix}
use sov_vault.Db.Keys.Order.{in_range, in_range-k_qr_pending}
use sov_vault.Db.Pair
use sov_vault.Db.Pair.{QrPairValue}
use sov_vault.Db.Values.{
  RecordSummary, v_record_summary_encode, v_record_summary_decode, v_qr_pending_encode,
  v_qr_pending_decode, v_pending_ttl_encode, v_pending_ttl_decode, values_roundtrip,
  v_secondary_encode, v_secondary_decode,
}

abbrev sample_state : ConnState
sample_state = record {
  state = 2;
  client_ip = 0xc0a8_0001;
  client_port = 12345;
  server_ip = 0xc0a8_0002;
  server_port = 443;
  proto = 6;
  first_ts = 1;
  last_ts = 2;
  syn_seen = 1;
  synack_seen = 1;
  fin_seen = 0;
  rst_seen = 0;
  req_cnt = 3;
  resp_cnt = 3;
  bytes_c = 123456;
  bytes_s = 9;
  pkts_c = 4;
  pkts_s = 4;
  abs_seq_c = 0x1_0000_0001;
  abs_seq_s = 17;
  consumed_ack_c = 0;
  consumed_ack_s = 12;
  meta_bind_id = negsuc 0;
  protocol_hint = 1;
  anomaly_flags = 256;
  qr_open = 7;
  last_raw_c = 0xdead_beef;
  last_raw_s = 0x1234_5678;
  incarnation = 65535;
  dir_flags = 3;
  syn_pkt_idx = 0x1122_3344_5566_7788;
}

from_bytes-to_bytes_example :
    (length (State.to_bytes sample_state) ≡ 191)
    × (State.from_bytes (State.to_bytes sample_state) ≡ some sample_state)
from_bytes-to_bytes_example = State.from_bytes-to_bytes sample_state (omega arith)

abbrev client : Tuple
client = record {
  dev_id = 1;
  client_ip = 0xc0a8_0001;
  client_port = 12345;
  server_ip = 0xc0a8_0002;
  server_port = 443;
  proto = 6;
}

conn_key_bytes-injective_example : (length (key_of client) ≡ 17) × (client ≡ client)
conn_key_bytes-injective_example =
    conn_key_bytes-injective client client (omega arith) (omega arith) refl

abbrev sample_pair : QrPairValue
sample_pair = record {
  status = 1;
  conn_hash = 77;
  q_ts = 1000;
  r_ts = 2000;
  latency_ms = 0;
  q_len = 100;
  r_len = 200;
  abs_q_seq = 1;
  abs_q_end = 101;
  pseudo = 0;
  q_idx = 64 ∷ 128 ∷ [];
  r_idx = 192 ∷ [];
  req_key = 71 ∷ 69 ∷ 84 ∷ [];
  resp_key = 79 ∷ 75 ∷ [];
}

decode-encode_example : Pair.decode (Pair.encode sample_pair) ≡ some sample_pair
decode-encode_example = Pair.decode-encode sample_pair (omega arith)

abbrev pub sample_summary : RecordSummary
sample_summary = record {
  proto = 6;
  flags = 2;
  src_ip = 0xc0a8_0001;
  dst_ip = 1;
  sport = 5;
  dport = 80;
  len = 1460;
}

in_range-k_qr_pending_example :
    (in_range (k_qr_pending_prefix 77 3) (k_qr_pending 77 3 101) (k_qr_pending 77 3 100) ≡ true)
    ↔ ((◌≡◌ {A = ℕ} 77 77) × (◌≡◌ {A = ℕ} 3 3) × (100 ≤ 101))
in_range-k_qr_pending_example =
    in_range-k_qr_pending 77 3 100 (omega arith) (omega arith) (omega arith) 77 3 101 (omega arith)
      (omega arith) (omega arith)

values_roundtrip_example :
    (v_record_summary_decode (v_record_summary_encode sample_summary) ≡ some sample_summary)
    × (v_qr_pending_decode (v_qr_pending_encode 64 1000 100) ≡ some (64, 1000, 100))
    × (v_pending_ttl_decode (v_pending_ttl_encode 64 101) ≡ some (64, 101))
    × (v_secondary_decode (v_secondary_encode 64) ≡ some 64)
values_roundtrip_example =
    values_roundtrip sample_summary 64 1000 100 101 (omega arith) (omega arith) (omega arith)
      (omega arith) (omega arith)
