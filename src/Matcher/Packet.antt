-- ===== src/Matcher/Packet.antt =====
-- src/qr.rs: what a packet does to the state of its connection, before any table is touched.
use Prim.Native.Nat.{bit_or}
use sov_vault.Base.{
  ◌+◌, ◌%◌, ◌^◌, Bool, true, false, not, ◌&&◌, ◌||◌, ltb, leb, ◌==◌, if◌then◌else◌,
}
use sov_vault.Connection.Kind
use sov_vault.Connection.Kind.{
  ConnStateKind, flag_reset, flag_syn_seen, flag_fin_seen, flag_retrans, flag_seq_gap, is_terminal,
}
use sov_vault.Connection.State.{ConnState}
use sov_vault.Connection.Flags.{set_active_c, set_active_s}
use sov_vault.Map.{nat_eq}
use sov_vault.Stream.{SeqStream, diff, magnitude}
use sov_vault.Matcher.Types.{
  WalRecord, Masks, IndexedRecord, idx, Dir, c2s, s2c, epoch_jump_threshold, saturating_add64,
  has_flag,
}
use sov_vault.Matcher.Engine.{stream_of}

-- The stream that a packet of this direction moves.
unfoldable pub side : ConnState → Dir → SeqStream
unfolding stream_of
side st c2s = stream_of st true
side st s2c = stream_of st false

-- A packet that starts a new generation: `d` is the distance to the last sequence number of its side.
unfoldable pub epoch_triggered : Masks → IndexedRecord → Dir → ConnState → Bool
unfolding side diff has_flag idx
epoch_triggered masks r dir st =
    let cur = side st dir in
    cur.active
    && has_flag r.rec.tcp_flags masks.syn
    && not ((st.state == 0) || (st.state == 1))
    && (not (magnitude (diff cur r.rec.tcp_seq) == 0) || (leb 3 st.state && leb st.state 5))
    && not (idx r == st.syn_pkt_idx)

unfoldable pub mark_gap : Masks → WalRecord → Dir → ConnState → ConnState
unfolding side diff has_flag
mark_gap masks rec dir st =
    let cur = side st dir in
    if not (has_flag rec.tcp_flags masks.syn)
      && ltb epoch_jump_threshold (magnitude (diff cur rec.tcp_seq))
    then record st { anomaly_flags = bit_or st.anomaly_flags flag_seq_gap }
    else st

-- Step 4: the state machine of the connection.
unfoldable pub advance : Masks → IndexedRecord → Dir → ConnState → ConnState
unfolding has_flag idx Kind.to_u8
advance masks r dir st =
    let syn = has_flag r.rec.tcp_flags masks.syn in
    let st' : ConnState = elim dir [
      | c2s ↦
          if syn
          then record st {
            state = Kind.to_u8 ConnStateKind.syn_sent;
            syn_seen = r.rec.timestamp_ns;
            anomaly_flags = bit_or st.anomaly_flags flag_syn_seen;
            syn_pkt_idx = idx r;
          }
          else if has_flag r.rec.tcp_flags masks.ack
              && (st.state == Kind.to_u8 ConnStateKind.syn_rcvd)
          then record st { state = Kind.to_u8 ConnStateKind.established }
          else st
      | s2c ↦
          if syn
          then record st {
            state =
                if st.state == Kind.to_u8 ConnStateKind.syn_sent
                then Kind.to_u8 ConnStateKind.syn_rcvd
                else st.state;
            synack_seen = r.rec.timestamp_ns;
          }
          else st
    ] in
    if has_flag r.rec.tcp_flags masks.fin
    then record st' {
      fin_seen = r.rec.timestamp_ns;
      anomaly_flags = bit_or st'.anomaly_flags flag_fin_seen;
    }
    else st'

-- Step 5: the counters.
unfoldable pub count_packet : WalRecord → Dir → ConnState → ConnState
count_packet rec dir st = elim dir [
  | c2s ↦ record st {
    last_ts = rec.timestamp_ns;
    pkts_c = (st.pkts_c + 1) % 2 ^ 64;
    bytes_c = saturating_add64 st.bytes_c rec.orig_payload_len;
  }
  | s2c ↦ record st {
    last_ts = rec.timestamp_ns;
    pkts_s = (st.pkts_s + 1) % 2 ^ 64;
    bytes_s = saturating_add64 st.bytes_s rec.orig_payload_len;
  }
]

-- Step 7: the two translators go back into the state.
unfoldable pub store_streams : SeqStream → SeqStream → ConnState → ConnState
unfolding set_active_c set_active_s
store_streams sc ss st =
    let with_c =
      set_active_c sc.active (record st { last_raw_c = sc.last_raw; abs_seq_c = sc.last_abs }) in
    set_active_s ss.active (record with_c { last_raw_s = ss.last_raw; abs_seq_s = ss.last_abs })

unfoldable pub retransmitted : ConnState → ConnState
retransmitted st = record st { anomaly_flags = bit_or st.anomaly_flags flag_retrans }
