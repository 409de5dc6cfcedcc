-- ===== src/Matcher/Engine.antt =====
-- src/qr.rs: what `ingest` makes of a packet before any table is touched: its summary, a new
-- connection, the binding to a protocol and the row of a request.
use Prim.Native.Nat.{bit_or}
use sov_vault.Base.{
  ℕ, ◌%◌, ◌^◌, Bool, true, false, List, [], ◌∷◌, Option, none, some, length, ◌==◌, if◌then◌else◌,
}
use sov_vault.Bytes.{from_be_bytes}
use sov_vault.Connection.Signed.{negsuc, is_negative}
use sov_vault.Connection.Kind
use sov_vault.Connection.Kind.{
  ConnStateKind, flag_reset, flag_half_open, flag_syn_seen, flag_fin_seen, flag_retrans,
  flag_seq_gap, is_terminal,
}
use sov_vault.Connection.State.{ConnState}
use sov_vault.Connection.Flags.{active_c, active_s}
use sov_vault.Db.Pair
use sov_vault.Db.Pair.{QrPairValue, QrStatus}
use sov_vault.Db.Values.{RecordSummary}
use sov_vault.Map.{nat_eq}
use sov_vault.Reassembly.Steps.{◌>>=◌}
use sov_vault.Stream.{SeqStream}
use sov_vault.Matcher.Types.{
  WalRecord, Masks, IndexedRecord, idx, MetaRegistry, ExtMetaEvent, req_key_of, has_flag,
}

-- `RecordSummary::from`.
unfoldable pub summary_of : Masks → WalRecord → RecordSummary
summary_of masks rec = record {
  proto = rec.proto % 256;
  flags = bit_or rec.tcp_flags (Prim.Native.Nat.bit_and rec.flags masks.degraded % 256);
  src_ip = from_be_bytes rec.src_ip;
  dst_ip = from_be_bytes rec.dst_ip;
  sport = rec.src_port;
  dport = rec.dst_port;
  len = length rec.payload % 2 ^ 32;
}

-- `SeqStream::from_state`.
unfoldable pub stream_of : ConnState → Bool → SeqStream
unfolding active_c active_s
stream_of st true = record {
  last_raw = st.last_raw_c;
  last_abs = st.abs_seq_c;
  active = active_c st;
}
stream_of st false = record {
  last_raw = st.last_raw_s;
  last_abs = st.abs_seq_s;
  active = active_s st;
}

-- The state of a connection that was not known; all other fields are zero.
unfoldable pub fresh : Masks → WalRecord → ConnState
unfolding has_flag
fresh masks rec = record {
  state = Kind.to_u8 ConnStateKind.half_open;
  client_ip = from_be_bytes rec.src_ip;
  client_port = rec.src_port;
  server_ip = from_be_bytes rec.dst_ip;
  server_port = rec.dst_port;
  proto = rec.proto % 256;
  first_ts = rec.timestamp_ns;
  last_ts = rec.timestamp_ns;
  syn_seen = 0;
  synack_seen = 0;
  fin_seen = 0;
  rst_seen = 0;
  req_cnt = 0;
  resp_cnt = 0;
  bytes_c = 0;
  bytes_s = 0;
  pkts_c = 0;
  pkts_s = 0;
  abs_seq_c = 0;
  abs_seq_s = 0;
  consumed_ack_c = 0;
  consumed_ack_s = 0;
  meta_bind_id = negsuc 0;
  protocol_hint = 0;
  anomaly_flags = if has_flag rec.tcp_flags masks.syn then 0 else flag_half_open;
  qr_open = 0;
  last_raw_c = 0;
  last_raw_s = 0;
  incarnation = 0;
  dir_flags = 0;
  syn_pkt_idx = 0;
}

-- The request key of a payload, the binding that goes with it, and the fingerprint event.
pub record Bound : Type 0 where
  pub key : List ℕ
  pub pseudo : ℕ
  pub state : ConnState
  pub events : List ExtMetaEvent

-- `none` where the registry panics.
unfoldable pub bind_request : Option MetaRegistry → ℕ → IndexedRecord → ConnState → Option Bound
unfolding req_key_of
bind_request none h r st =
    some (record { key = req_key_of r.rec; pseudo = 0; state = st; events = [] })
bind_request (some reg) h r st =
    if is_negative st.meta_bind_id
    then (do
      b ← reg.bind_and_extract r.rec.payload (r.rec.proto % 256) r.rec.dst_port
      some (record {
        key = b.key;
        pseudo = if b.pseudo then 1 else 0;
        state = record st { meta_bind_id = b.meta_bind_id; protocol_hint = b.protocol_hint };
        events =
            if b.protocol_hint == reg.unknown
            then []
            else record {
              conn_hash = h;
              protocol_hint = b.protocol_hint;
              dst_port = r.rec.dst_port;
              print = reg.fingerprint r.rec.payload;
            }
              ∷ [];
      }))
    else (do
      k ← reg.extract_key r.rec.payload st.protocol_hint
      some (record { key = k.0; pseudo = if k.1 then 1 else 0; state = st; events = [] }))

-- The row of a request that opens.
unfoldable pub opened_pair : ℕ → IndexedRecord → ℕ → ℕ → List ℕ → ℕ → QrPairValue
unfolding idx
opened_pair h r abs_start abs_end req_key pseudo = record {
  status = Pair.to_u8 QrStatus.pending;
  conn_hash = h;
  q_ts = r.rec.timestamp_ns;
  r_ts = 0;
  latency_ms = 0;
  q_len = r.rec.orig_payload_len;
  r_len = 0;
  abs_q_seq = abs_start;
  abs_q_end = abs_end;
  pseudo = pseudo;
  q_idx = idx r ∷ [];
  r_idx = [];
  req_key = req_key;
  resp_key = [];
}
