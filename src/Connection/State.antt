-- ===== src/Connection/State.antt =====
-- src/connection.rs: ConnState and its 191-byte value. The reserved fields, which the code writes
-- as zero and never reads, are left out of the record and kept in the bytes.
use sov_vault.Base.{
  ℕ, ◌^◌, ◌<◌, ◌≡◌, List, [], ◌∷◌, Option, none, some, arith, length, length-append, ◌==◌,
  if◌then◌else◌,
}
use sov_vault.Bytes.{
  to_be_bytes, length-to_be_bytes, Reader, ◌>>=◌, pure, take_uint, take-put_uint, value_of, concat,
}
use sov_vault.Connection.Signed.{
  ℤ, to_i64_bits, of_i64_bits, FitsI64, to_i64_bits-lt, of-to_i64_bits,
}

pub record ConnState : Type 0 where
  pub state : ℕ
  pub client_ip : ℕ
  pub client_port : ℕ
  pub server_ip : ℕ
  pub server_port : ℕ
  pub proto : ℕ
  pub first_ts : ℕ
  pub last_ts : ℕ
  pub syn_seen : ℕ
  pub synack_seen : ℕ
  pub fin_seen : ℕ
  pub rst_seen : ℕ
  pub req_cnt : ℕ
  pub resp_cnt : ℕ
  pub bytes_c : ℕ
  pub bytes_s : ℕ
  pub pkts_c : ℕ
  pub pkts_s : ℕ
  pub abs_seq_c : ℕ
  pub abs_seq_s : ℕ
  pub consumed_ack_c : ℕ
  pub consumed_ack_s : ℕ
  pub meta_bind_id : ℤ
  pub protocol_hint : ℕ
  pub anomaly_flags : ℕ
  pub qr_open : ℕ
  pub last_raw_c : ℕ
  pub last_raw_s : ℕ
  pub incarnation : ℕ
  pub dir_flags : ℕ
  pub syn_pkt_idx : ℕ

-- The ranges of the fields' types.
pub record FitsState (s : ConnState) : Type 0 where
  pub state : s.state < 2 ^ 8
  pub client_ip : s.client_ip < 2 ^ 32
  pub client_port : s.client_port < 2 ^ 16
  pub server_ip : s.server_ip < 2 ^ 32
  pub server_port : s.server_port < 2 ^ 16
  pub proto : s.proto < 2 ^ 8
  pub first_ts : s.first_ts < 2 ^ 64
  pub last_ts : s.last_ts < 2 ^ 64
  pub syn_seen : s.syn_seen < 2 ^ 64
  pub synack_seen : s.synack_seen < 2 ^ 64
  pub fin_seen : s.fin_seen < 2 ^ 64
  pub rst_seen : s.rst_seen < 2 ^ 64
  pub req_cnt : s.req_cnt < 2 ^ 64
  pub resp_cnt : s.resp_cnt < 2 ^ 64
  pub bytes_c : s.bytes_c < 2 ^ 64
  pub bytes_s : s.bytes_s < 2 ^ 64
  pub pkts_c : s.pkts_c < 2 ^ 64
  pub pkts_s : s.pkts_s < 2 ^ 64
  pub abs_seq_c : s.abs_seq_c < 2 ^ 64
  pub abs_seq_s : s.abs_seq_s < 2 ^ 64
  pub consumed_ack_c : s.consumed_ack_c < 2 ^ 64
  pub consumed_ack_s : s.consumed_ack_s < 2 ^ 64
  pub meta_bind_id : FitsI64 s.meta_bind_id
  pub protocol_hint : s.protocol_hint < 2 ^ 8
  pub anomaly_flags : s.anomaly_flags < 2 ^ 32
  pub qr_open : s.qr_open < 2 ^ 64
  pub last_raw_c : s.last_raw_c < 2 ^ 32
  pub last_raw_s : s.last_raw_s < 2 ^ 32
  pub incarnation : s.incarnation < 2 ^ 16
  pub dir_flags : s.dir_flags < 2 ^ 8
  pub syn_pkt_idx : s.syn_pkt_idx < 2 ^ 64

unfoldable pub to_bytes : ConnState → List ℕ
to_bytes s =
    concat
      (to_be_bytes 1 s.state
        ∷ to_be_bytes 7 0
        ∷ to_be_bytes 4 s.client_ip
        ∷ to_be_bytes 4 s.server_ip
        ∷ to_be_bytes 2 s.client_port
        ∷ to_be_bytes 2 s.server_port
        ∷ to_be_bytes 1 s.proto
        ∷ to_be_bytes 1 0
        ∷ to_be_bytes 8 s.first_ts
        ∷ to_be_bytes 8 s.last_ts
        ∷ to_be_bytes 8 s.syn_seen
        ∷ to_be_bytes 8 s.synack_seen
        ∷ to_be_bytes 8 s.fin_seen
        ∷ to_be_bytes 8 s.rst_seen
        ∷ to_be_bytes 8 s.req_cnt
        ∷ to_be_bytes 8 s.resp_cnt
        ∷ to_be_bytes 8 s.bytes_c
        ∷ to_be_bytes 8 s.bytes_s
        ∷ to_be_bytes 8 s.pkts_c
        ∷ to_be_bytes 8 s.pkts_s
        ∷ to_be_bytes 8 s.abs_seq_c
        ∷ to_be_bytes 8 s.abs_seq_s
        ∷ to_be_bytes 8 s.consumed_ack_c
        ∷ to_be_bytes 8 s.consumed_ack_s
        ∷ to_be_bytes 8 (to_i64_bits s.meta_bind_id)
        ∷ to_be_bytes 1 s.protocol_hint
        ∷ to_be_bytes 4 s.anomaly_flags
        ∷ to_be_bytes 8 s.qr_open
        ∷ to_be_bytes 4 s.last_raw_c
        ∷ to_be_bytes 4 s.last_raw_s
        ∷ to_be_bytes 2 s.incarnation
        ∷ to_be_bytes 1 s.dir_flags
        ∷ to_be_bytes 1 0
        ∷ to_be_bytes 8 s.syn_pkt_idx
        ∷ [])
      []

read_state : Reader ConnState
read_state = do
  state ← take_uint 1
  _ ← take_uint 7
  client_ip ← take_uint 4
  server_ip ← take_uint 4
  client_port ← take_uint 2
  server_port ← take_uint 2
  proto ← take_uint 1
  _ ← take_uint 1
  first_ts ← take_uint 8
  last_ts ← take_uint 8
  syn_seen ← take_uint 8
  synack_seen ← take_uint 8
  fin_seen ← take_uint 8
  rst_seen ← take_uint 8
  req_cnt ← take_uint 8
  resp_cnt ← take_uint 8
  bytes_c ← take_uint 8
  bytes_s ← take_uint 8
  pkts_c ← take_uint 8
  pkts_s ← take_uint 8
  abs_seq_c ← take_uint 8
  abs_seq_s ← take_uint 8
  consumed_ack_c ← take_uint 8
  consumed_ack_s ← take_uint 8
  bits ← take_uint 8
  protocol_hint ← take_uint 1
  anomaly_flags ← take_uint 4
  qr_open ← take_uint 8
  last_raw_c ← take_uint 4
  last_raw_s ← take_uint 4
  incarnation ← take_uint 2
  dir_flags ← take_uint 1
  _ ← take_uint 1
  syn_pkt_idx ← take_uint 8
  pure (record {
    state = state;
    client_ip = client_ip;
    client_port = client_port;
    server_ip = server_ip;
    server_port = server_port;
    proto = proto;
    first_ts = first_ts;
    last_ts = last_ts;
    syn_seen = syn_seen;
    synack_seen = synack_seen;
    fin_seen = fin_seen;
    rst_seen = rst_seen;
    req_cnt = req_cnt;
    resp_cnt = resp_cnt;
    bytes_c = bytes_c;
    bytes_s = bytes_s;
    pkts_c = pkts_c;
    pkts_s = pkts_s;
    abs_seq_c = abs_seq_c;
    abs_seq_s = abs_seq_s;
    consumed_ack_c = consumed_ack_c;
    consumed_ack_s = consumed_ack_s;
    meta_bind_id = of_i64_bits bits;
    protocol_hint = protocol_hint;
    anomaly_flags = anomaly_flags;
    qr_open = qr_open;
    last_raw_c = last_raw_c;
    last_raw_s = last_raw_s;
    incarnation = incarnation;
    dir_flags = dir_flags;
    syn_pkt_idx = syn_pkt_idx;
  })

unfoldable pub from_bytes : List ℕ → Option ConnState
unfolding read_state
from_bytes b = if length b == 191 then value_of read_state b else none

pub length-to_bytes : (s : ConnState) → length (to_bytes s) ≡ 191
unfolding to_bytes
length-to_bytes s = simp (length-append, length-to_be_bytes)

read_state_lem : (s : ConnState) → FitsState s → read_state (to_bytes s) ≡ some (s, [])
unfolding read_state to_bytes
read_state_lem s h = simp (
  ◌>>=◌,
  take-put_uint 7 0 _ (omega arith),
  take-put_uint 1 0 _ (omega arith),
  take-put_uint 1 s.state _ h.state,
  take-put_uint 4 s.client_ip _ h.client_ip,
  take-put_uint 4 s.server_ip _ h.server_ip,
  take-put_uint 2 s.client_port _ h.client_port,
  take-put_uint 2 s.server_port _ h.server_port,
  take-put_uint 1 s.proto _ h.proto,
  take-put_uint 8 s.first_ts _ h.first_ts,
  take-put_uint 8 s.last_ts _ h.last_ts,
  take-put_uint 8 s.syn_seen _ h.syn_seen,
  take-put_uint 8 s.synack_seen _ h.synack_seen,
  take-put_uint 8 s.fin_seen _ h.fin_seen,
  take-put_uint 8 s.rst_seen _ h.rst_seen,
  take-put_uint 8 s.req_cnt _ h.req_cnt,
  take-put_uint 8 s.resp_cnt _ h.resp_cnt,
  take-put_uint 8 s.bytes_c _ h.bytes_c,
  take-put_uint 8 s.bytes_s _ h.bytes_s,
  take-put_uint 8 s.pkts_c _ h.pkts_c,
  take-put_uint 8 s.pkts_s _ h.pkts_s,
  take-put_uint 8 s.abs_seq_c _ h.abs_seq_c,
  take-put_uint 8 s.abs_seq_s _ h.abs_seq_s,
  take-put_uint 8 s.consumed_ack_c _ h.consumed_ack_c,
  take-put_uint 8 s.consumed_ack_s _ h.consumed_ack_s,
  take-put_uint 8 (to_i64_bits s.meta_bind_id) _ (to_i64_bits-lt s.meta_bind_id h.meta_bind_id),
  of-to_i64_bits s.meta_bind_id h.meta_bind_id,
  take-put_uint 1 s.protocol_hint _ h.protocol_hint,
  take-put_uint 4 s.anomaly_flags _ h.anomaly_flags,
  take-put_uint 8 s.qr_open _ h.qr_open,
  take-put_uint 4 s.last_raw_c _ h.last_raw_c,
  take-put_uint 4 s.last_raw_s _ h.last_raw_s,
  take-put_uint 2 s.incarnation _ h.incarnation,
  take-put_uint 1 s.dir_flags _ h.dir_flags,
  take-put_uint 8 s.syn_pkt_idx _ h.syn_pkt_idx,
)

-- A connection state whose fields are in the range of their types is written as 191 bytes and
-- comes back from them.
pub from_bytes-to_bytes :
    (s : ConnState) → FitsState s → (length (to_bytes s) ≡ 191) × (from_bytes (to_bytes s) ≡ some s)
unfolding from_bytes
from_bytes-to_bytes s h =
    (length-to_bytes s, rw (length-to_bytes s) (rw (read_state_lem s h, value_of)))
