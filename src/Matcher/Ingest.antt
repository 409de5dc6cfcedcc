-- ===== src/Matcher/Ingest.antt =====
-- src/qr.rs: `ingest` on the tables, with `locate`, `load_conn`, `open_q`, and `commit` with
-- `writeback_conns`. `none` is a panic of an `unwrap`.
use sov_vault.Matcher.Packet.{
  epoch_triggered, mark_gap, advance, count_packet, store_streams, retransmitted,
}
use Prim.Native.Nat.{bit_or}
use sov_vault.Base.{
  ℕ, ◌+◌, ◌%◌, ◌^◌, Bool, true, false, not, ◌&&◌, List, [], ◌∷◌, ◌++◌, Option, none, some, length,
  ltb, leb, ◌==◌, if◌then◌else◌,
}
use sov_vault.Bytes.{from_be_bytes}
use sov_vault.Connection.Kind
use sov_vault.Connection.Kind.{
  ConnStateKind, flag_reset, flag_syn_seen, flag_fin_seen, flag_retrans, flag_seq_gap, is_terminal,
}
use sov_vault.Connection.State
use sov_vault.Connection.State.{ConnState}
use sov_vault.Connection.Key.{conn_hash, fnv1a64}
use sov_vault.Db.Keys.{
  k_conn_state, k_qr_pair, k_qr_pending, k_pending_ttl, k_packet_qr, k_conn_qr, k_qr_key, k_qr_time,
  k_record_ts,
}
use sov_vault.Db.Keys.Order.{block_lo, block_hi}
use sov_vault.Db.Pair
use sov_vault.Db.Values.{
  v_record_summary_encode, v_qr_pending_encode, v_pending_ttl_encode, v_secondary_encode,
}
use sov_vault.Map
use sov_vault.Map.{nat_eq}
use sov_vault.Store.{Lmdb, put_no_overwrite}
use sov_vault.Reassembly.Steps.{◌>>=◌}
use sov_vault.Stream.{SeqStream, abs_of, feed_packet}
use sov_vault.Matcher.Types.{
  WalRecord, Masks, IndexedRecord, idx, Dir, c2s, s2c, MetaRegistry, AnomalyEvent, ConnArchiveEvent,
  ack_lead_cap, saturating_add64, has_flag,
}
use sov_vault.Matcher.Engine.{summary_of, stream_of, fresh, Bound, bind_request, opened_pair}
use sov_vault.Matcher.Rows.{Matcher}
use sov_vault.Matcher.Terminal.{consume_r, rst_cascade, flip_epoch}

unfoldable pub insert_key : ℕ → List ℕ → List ℕ
insert_key h [] = h ∷ []
insert_key h (k ∷ ks) = let rest = insert_key h ks in if leb h k then h ∷ k ∷ ks else k ∷ rest

-- The keys of the map, `sort_unstable`.
unfoldable pub sorted_keys : List (ℕ × ConnState) → List ℕ
unfolding insert_key
sorted_keys [] = []
sorted_keys ((h, st) ∷ conns) = insert_key h (sorted_keys conns)

module _ (db : Lmdb) (masks : Masks) (meta : Option MetaRegistry) where
  open db use {get, put, range}

  unfoldable pub load_conn : ℕ → Matcher db → Matcher db × Bool
  unfolding Map.get Map.insert
  load_conn h m = elim (Map.get h m.conns) [
    | some st ↦ (m, true)
    | none ↦ elim (get m.live_conn_state (k_conn_state h)) [
      | none ↦ (m, false)
      | some v ↦ elim (State.from_bytes v) [
        | none ↦ (m, false)
        | some st ↦ (record m { conns = Map.insert h st m.conns }, true)
      ]
    ]
  ]

  unfoldable pub locate : WalRecord → ℕ → Matcher db → Matcher db × ℕ × Dir
  unfolding load_conn fresh Map.insert
  locate rec dev_id m =
      let src_ip = from_be_bytes rec.src_ip in
      let dst_ip = from_be_bytes rec.dst_ip in
      let proto = rec.proto % 256 in
      let h_f = conn_hash dev_id src_ip rec.src_port dst_ip rec.dst_port proto in
      let h_b = conn_hash dev_id dst_ip rec.dst_port src_ip rec.src_port proto in
      let forward = load_conn h_f m in
      let backward = load_conn h_b forward.0 in
      if forward.1 then (forward.0, h_f, c2s) else if backward.1 then (backward.0, h_b, s2c) else (
        record backward.0 { conns = Map.insert h_f (fresh masks rec) backward.0.conns },
        h_f,
        c2s,
      )

  -- A request whose key is known.
  unfoldable pub open_bound :
      ℕ → IndexedRecord → ℕ → ℕ → Bound → Matcher db → ConnState × Matcher db
  unfolding idx opened_pair put_no_overwrite
  open_bound h r abs_start abs_end bound m =
      let q = idx r in
      let ts = r.rec.timestamp_ns in
      let pair = opened_pair h r abs_start abs_end bound.key bound.pseudo in
      let sec = v_secondary_encode q in
      let insert = put_no_overwrite db in
      (
        record bound.state {
          req_cnt = (bound.state.req_cnt + 1) % 2 ^ 64;
          qr_open = (bound.state.qr_open + 1) % 2 ^ 64;
        },
        record m {
          live_qr_pair = (insert m.live_qr_pair (k_qr_pair q) (Pair.encode pair)).0;
          live_qr_pending =
              (insert m.live_qr_pending (k_qr_pending h bound.state.incarnation abs_end)
                (v_qr_pending_encode q ts pair.q_len)).0;
          live_pending_ttl =
              (insert m.live_pending_ttl (k_pending_ttl ts h) (v_pending_ttl_encode q abs_end)).0;
          epoch_packet_qr = (insert m.epoch_packet_qr (k_packet_qr q) sec).0;
          epoch_conn_qr = (insert m.epoch_conn_qr (k_conn_qr h ts q) sec).0;
          epoch_qr_key = (insert m.epoch_qr_key (k_qr_key (fnv1a64 pair.req_key) ts q) sec).0;
          epoch_qr_time = (insert m.epoch_qr_time (k_qr_time ts q) sec).0;
          ext_meta = m.ext_meta ++ bound.events;
        },
      )

  unfoldable pub open_q :
      ℕ → IndexedRecord → ℕ → ℕ → ConnState × Matcher db → Option (ConnState × Matcher db)
  unfolding bind_request open_bound
  open_q h r abs_start abs_end (st, m) = do
    bound ← bind_request meta h r st
    some (open_bound h r abs_start abs_end bound m)

  -- Step 6 for a packet of the client.
  unfoldable pub on_request :
      ℕ → IndexedRecord → ℕ → ℕ → ConnState × Matcher db → Option (ConnState × Matcher db)
  unfolding open_q retransmitted
  on_request h r abs_start wire_new (st, m) =
      let abs_end = saturating_add64 abs_start wire_new in
      if r.rec.orig_payload_len == 0
      then some (st, m)
      else if ltb 0 wire_new && ltb st.consumed_ack_s abs_end
      then open_q h r abs_start abs_end (st, m)
      else some (retransmitted st, m)

  -- Step 6 for a packet of the server; `sc` translates its acknowledgement.
  unfoldable pub on_response :
      ℕ → IndexedRecord → SeqStream → ℕ → ConnState × Matcher db → ConnState × Matcher db
  unfolding abs_of consume_r
  on_response h r sc wire_new (st, m) =
      let abs_ack = abs_of sc r.rec.tcp_ack in
      let st' =
        if ltb 0 wire_new then record st { resp_cnt = (st.resp_cnt + 1) % 2 ^ 64 } else st in
      if ltb st'.consumed_ack_s abs_ack && leb abs_ack (saturating_add64 sc.last_abs ack_lead_cap)
      then consume_r db h r abs_ack (st', m)
      else (st', m)

  unfoldable pub persist_state : ℕ → ConnState × Matcher db → Option (Matcher db)
  unfolding Map.get Map.insert
  persist_state h (st, m) = elim (Map.get h m.conns) [
    | none ↦ none
    | some old ↦ some (record m { conns = Map.insert h st m.conns })
  ]

  -- Step 2.
  unfoldable pub on_reset : ℕ → WalRecord → ConnState × Matcher db → Option (Matcher db)
  unfolding rst_cascade persist_state Kind.to_u8
  on_reset h rec (st, m) =
      let done = rst_cascade db h rec (st, m) in
      persist_state h (
        record done.0 {
          state = Kind.to_u8 ConnStateKind.reset;
          rst_seen = rec.timestamp_ns;
          anomaly_flags = bit_or done.0.anomaly_flags flag_reset;
        },
        done.1,
      )

  -- Steps 3 to 7.
  unfoldable pub on_segment : ℕ → IndexedRecord → Dir → ConnState × Matcher db → Option (Matcher db)
  unfolding stream_of feed_packet advance count_packet on_request on_response store_streams
      persist_state
  on_segment h r dir (st, m) =
      let sc = stream_of st true in
      let ss = stream_of st false in
      let ready = count_packet r.rec dir (advance masks r dir st) in
      elim dir [
        | c2s ↦
            let fed = feed_packet sc r.rec.tcp_seq r.rec.orig_payload_len in
            (do
              done ← on_request h r fed.1 fed.2 (ready, m)
              persist_state h (store_streams fed.0 ss done.0, done.1))
        | s2c ↦
            let fed = feed_packet ss r.rec.tcp_seq r.rec.orig_payload_len in
            let done = on_response h r sc fed.2 (ready, m) in
            persist_state h (store_streams sc fed.0 done.0, done.1)
      ]

  -- The state of the connection after step 1, which may open a generation.
  unfoldable pub enter :
      ℕ → IndexedRecord → Dir → ConnState → Matcher db → Option (ConnState × Matcher db)
  unfolding epoch_triggered mark_gap flip_epoch idx Map.get
  enter h r dir st m =
      let flipped = flip_epoch db masks h r.rec dir (idx r) m in
      if epoch_triggered masks r dir st
      then (do m' ← flipped; st' ← Map.get h m'.conns; some (st', m'))
      else some (mark_gap masks r.rec dir st, m)

  unfoldable pub ingest : IndexedRecord → Matcher db → Option (Matcher db)
  unfolding summary_of idx locate put_no_overwrite enter on_reset on_segment has_flag Map.get
  ingest r m0 =
      let m1 = record m0 {
        epoch_record_ts =
            (put_no_overwrite db m0.epoch_record_ts (k_record_ts r.rec.timestamp_ns (idx r))
              (v_record_summary_encode (summary_of masks r.rec))).0;
      } in
      if not (r.rec.proto == 6)
      then some m1
      else (let found = locate r.rec r.dev_id m1 in
          let h = found.1 in
          let dir = found.2 in
          do
            st ← Map.get h found.0.conns
            now ← enter h r dir st found.0
            if has_flag r.rec.tcp_flags masks.rst
                then on_reset h r.rec now
                else on_segment h r dir now)

  -- The rows of all generations of a connection.
  unfoldable pub count_live_pending : ℕ → Matcher db → ℕ
  count_live_pending h m = length (range m.live_qr_pending (block_lo h) (block_hi h))

  unfoldable pub writeback_keys : List ℕ → Matcher db → Option (Matcher db)
  unfolding count_live_pending is_terminal Map.get
  writeback_keys [] m = some m
  writeback_keys (h ∷ hs) m = elim (Map.get h m.conns) [
    | none ↦ none
    | some old ↦
        let st = record old { qr_open = count_live_pending h m } in
        let archive : List ConnArchiveEvent =
          if is_terminal st.state
          then record {
            conn_hash = h;
            first_ts = st.first_ts;
            last_ts = st.last_ts;
            state = st.state;
          }
            ∷ []
          else [] in
        writeback_keys hs (record m {
          live_conn_state = put m.live_conn_state (k_conn_state h) (State.to_bytes st);
          conn_archives = m.conn_archives ++ archive;
        })
  ]

  unfoldable pub writeback_conns : Matcher db → Option (Matcher db)
  unfolding sorted_keys writeback_keys
  writeback_conns m = writeback_keys (sorted_keys m.conns) m

  -- What the two transactions hold when they commit, and what the caller goes on to write.
  unfoldable pub commit :
      Matcher db → Option (Matcher db × List AnomalyEvent × List ConnArchiveEvent)
  unfolding writeback_conns
  commit m = do m' ← writeback_conns m; some (m', m'.anomalies, m'.conn_archives)
