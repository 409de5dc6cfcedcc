-- ===== src/Matcher/Total.antt =====
-- src/qr.rs: the `unwrap`s of `ingest`, and what each step does to the map of connections.
use sov_vault.Base.{
  ℕ, ◌+◌, ◌%◌, ◌^◌, ltb, ◌≡◌, ◌==◌, ◌∙◌, refl, Bool, true, false, List, [], ◌∷◌, Option, none, some,
  ◌&&◌, arith, Option-cases, Bool-cases, inl, inr, if◌then◌else◌, ==_iff,
}
use sov_vault.Map.{nat_eq}
use sov_vault.Map
use sov_vault.Map.Laws.{get-insert}
use sov_vault.Connection.State
use sov_vault.Connection.State.{ConnState}
use sov_vault.Connection.Key.{conn_hash}
use sov_vault.Db.Keys.{k_conn_state}
use sov_vault.Db.Pair.{QrPairValue, QrStatus}
use sov_vault.Bytes.{from_be_bytes}
use sov_vault.Db.Keys.{k_record_ts}
use sov_vault.Db.Values.{v_record_summary_encode}
use sov_vault.Store.{Lmdb, put_no_overwrite}
use sov_vault.Matcher.Types.{
  WalRecord, Masks, IndexedRecord, idx, Dir, c2s, s2c, MetaRegistry, Binding, AnomalyEvent,
  PendingHit, has_flag, AnomKind, rst_cascade_of, event, u48_max, saturating_add64,
}
use sov_vault.Stream.{SeqStream, abs_of, feed_packet}
use sov_vault.Matcher.Rows.{Matcher, migrate_terminal, clear_pending, scan_pending_upto}
use sov_vault.Matcher.Terminal.{
  consume_hits, consume_r, abort_hits, rst_cascade, flip_epoch, flip_known, reborn,
}
use sov_vault.Matcher.Ingest.{
  load_conn, locate, open_bound, open_q, on_request, on_response, persist_state, on_reset,
  on_segment, enter, ingest,
}
use sov_vault.Matcher.Packet.{
  epoch_triggered, mark_gap, advance, count_packet, store_streams, retransmitted,
}
use sov_vault.Matcher.Engine.{fresh, stream_of, summary_of, Bound, bind_request}

-- The registry, where there is one, does not panic on a payload.
abbrev pub Answers : Option MetaRegistry → List ℕ → Type 0
Answers none payload = Unit {0}
Answers (some reg) payload =
    ((proto dst_port : ℕ) → (b : Binding) × (reg.bind_and_extract payload proto dst_port ≡ some b))
    × ((hint : ℕ) → (k : List ℕ × Bool) × (reg.extract_key payload hint ≡ some k))

bind_request-some :
    (meta : Option MetaRegistry) (h : ℕ) (r : IndexedRecord) (st : ConnState)
    → Answers meta r.rec.payload
    → (bound : Bound) × (bind_request meta h r st ≡ some bound)
unfolding bind_request
bind_request-some none h r st answers = (_, refl)
bind_request-some (some reg) h r st answers =
    let (b, bound) = answers.0 (r.rec.proto % 256) r.rec.dst_port in
    let (k, key) = answers.1 st.protocol_hint in
    elim (Option-cases (bind_request (some reg) h r st)) [
      | inr found ↦ found
      | inl e ↦ absurd (ground (arith, bound, key))
    ]

module _ (db : Lmdb) where
  open db use {get}

  -- The map holds a connection.
  abbrev pub Holds : ℕ → Matcher db → Type 0
  Holds h m = (st : ConnState) × (Map.get h m.conns ≡ some st)

  -- The moves of the tables leave the map as it is.
  pub conns-migrate_terminal :
      (q : ℕ) (flip : QrPairValue → QrPairValue) (m : Matcher db)
      → (migrate_terminal db q flip m).0.conns ≡ m.conns
  unfolding migrate_terminal
  conns-migrate_terminal q flip m = ground arith

  pub conns-consume_hits :
      (h : ℕ) (r : IndexedRecord) (primary : Bool) (hits : List PendingHit) (st : ConnState)
      (m : Matcher db)
      → (consume_hits db h r primary hits (st, m)).1.conns ≡ m.conns
  unfolding consume_hits clear_pending
  conns-consume_hits h r primary [] st m = refl
  conns-consume_hits h r primary (hit ∷ hits) st m =
      conns-consume_hits h r false hits _ _ ∙ conns-migrate_terminal hit.q_first_idx _ m

  pub conns-abort_hits :
      (h : ℕ) (status : QrStatus) (report : PendingHit → AnomalyEvent) (hits : List PendingHit)
      (m : Matcher db)
      → (abort_hits db h status report hits m).conns ≡ m.conns
  unfolding abort_hits clear_pending
  conns-abort_hits h status report [] m = refl
  conns-abort_hits h status report (hit ∷ hits) m =
      conns-abort_hits h status report hits _ ∙ conns-migrate_terminal hit.q_first_idx _ m

  pub conns-consume_r :
      (h : ℕ) (r : IndexedRecord) (abs_ack : ℕ) (st : ConnState) (m : Matcher db)
      → (consume_r db h r abs_ack (st, m)).1.conns ≡ m.conns
  unfolding consume_r
  conns-consume_r h r abs_ack st m =
      conns-consume_hits h r true
        (scan_pending_upto db m h st.incarnation (saturating_add64 abs_ack m.ack_tol)) st m

  pub conns-rst_cascade :
      (h : ℕ) (rec : WalRecord) (st : ConnState) (m : Matcher db)
      → (rst_cascade db h rec (st, m)).1.conns ≡ m.conns
  unfolding rst_cascade
  conns-rst_cascade h rec st m =
      conns-abort_hits h QrStatus.rst_abort
        (λ hit.
          event rec.timestamp_ns AnomKind.qr_rst_abort h (some hit.q_first_idx)
            (rst_cascade_of st.incarnation))
        (scan_pending_upto db m h st.incarnation u48_max) m

  pub Holds-insert :
      (h : ℕ) (st : ConnState) (conns : List (ℕ × ConnState))
      → Map.get h (Map.insert h st conns) ≡ some st
  Holds-insert h st conns = ground (arith, get-insert h h st conns, ==_iff h h)

  module _ (masks : Masks) (meta : Option MetaRegistry) where
    pub Holds-flip_epoch :
        (h : ℕ) (rec : WalRecord) (dir : Dir) (syn_idx : ℕ) (m : Matcher db)
        → Holds h m
        → (m' : Matcher db) × (flip_epoch db masks h rec dir syn_idx m ≡ some m') × Holds h m'
    unfolding flip_epoch flip_known
    Holds-flip_epoch h rec dir syn_idx m (st, e) = (
      flip_known db masks h rec dir syn_idx st m,
      ground arith,
      (reborn db masks rec dir syn_idx st, Holds-insert h _ _),
    )

    pub Holds-load_conn :
        (h : ℕ) (m : Matcher db)
        → (load_conn db masks meta h m).1 ≡ true
        → Holds h (load_conn db masks meta h m).0
    unfolding load_conn
    Holds-load_conn h m e = elim (Option-cases (Map.get h m.conns)) [
      | inr (st, e1) ↦ (st, ground arith)
      | inl e1 ↦ elim (Option-cases (get m.live_conn_state (k_conn_state h))) [
        | inl e2 ↦ ground arith
        | inr (v, e2) ↦ elim (Option-cases (State.from_bytes v)) [
          | inl e3 ↦ ground arith
          | inr (st, e3) ↦ (st, ground (arith, Holds-insert h st m.conns))
        ]
      ]
    ]

    pub Holds-locate :
        (rec : WalRecord) (dev_id : ℕ) (m : Matcher db)
        → Holds (locate db masks meta rec dev_id m).1 (locate db masks meta rec dev_id m).0
    unfolding locate
    Holds-locate rec dev_id m =
        let proto = rec.proto % 256 in
        let src = from_be_bytes rec.src_ip in
        let dst = from_be_bytes rec.dst_ip in
        let h_f = conn_hash dev_id src rec.src_port dst rec.dst_port proto in
        let h_b = conn_hash dev_id dst rec.dst_port src rec.src_port proto in
        let forward = load_conn db masks meta h_f m in
        let backward = load_conn db masks meta h_b forward.0 in
        elim (Bool-cases forward.1) [
          | inl e ↦ (let known = Holds-load_conn h_f m e in (known.0, ground (arith, known.1)))
          | inr e ↦ elim (Bool-cases backward.1) [
            | inl e2 ↦
                (let known = Holds-load_conn h_b forward.0 e2 in (known.0, ground (arith, known.1)))
            | inr e2 ↦ (
              fresh masks rec,
              ground (arith, Holds-insert h_f (fresh masks rec) backward.0.conns),
            )
          ]
        ]

    pub persist_state-some :
        (h : ℕ) (st : ConnState) (m : Matcher db)
        → Holds h m
        → (m' : Matcher db) × (persist_state db masks meta h (st, m) ≡ some m')
    unfolding persist_state
    persist_state-some h st m (old, e) =
        (record m { conns = Map.insert h st m.conns }, ground arith)

    pub enter-some :
        (h : ℕ) (r : IndexedRecord) (dir : Dir) (st : ConnState) (m : Matcher db)
        → Holds h m
        → (now : ConnState × Matcher db) × (enter db masks meta h r dir st m ≡ some now)
          × Holds h now.1
    unfolding enter
    enter-some h r dir st m held =
        let flipped = Holds-flip_epoch h r.rec dir (idx r) m held in
        elim (Bool-cases (epoch_triggered masks r dir st)) [
          | inl e ↦ ((flipped.2.0, flipped.0), ground (arith, flipped.1, flipped.2.1), flipped.2)
          | inr e ↦ ((mark_gap masks r.rec dir st, m), ground arith, held)
        ]

    pub Holds-same : (h : ℕ) (m n : Matcher db) → n.conns ≡ m.conns → Holds h m → Holds h n
    Holds-same h m n e (st, held) = (st, ground arith)

    pub open_q-some :
        (h : ℕ) (r : IndexedRecord) (abs_start abs_end : ℕ) (st : ConnState) (m : Matcher db)
        → Answers meta r.rec.payload
        → (done : ConnState × Matcher db) × (open_q db masks meta h r abs_start abs_end (st, m)
            ≡ some done)
          × (done.1.conns ≡ m.conns)
    unfolding open_q open_bound
    open_q-some h r abs_start abs_end st m answers =
        let (bound, e) = bind_request-some meta h r st answers in
        (open_bound db masks meta h r abs_start abs_end bound m, rw e refl, refl)

    pub on_request-some :
        (h : ℕ) (r : IndexedRecord) (abs_start wire_new : ℕ) (st : ConnState) (m : Matcher db)
        → Answers meta r.rec.payload
        → (done : ConnState × Matcher db) × (on_request db masks meta h r abs_start wire_new (st, m)
            ≡ some done)
          × (done.1.conns ≡ m.conns)
    unfolding on_request
    on_request-some h r abs_start wire_new st m answers =
        let abs_end = saturating_add64 abs_start wire_new in
        let (done, e, same) = open_q-some h r abs_start abs_end st m answers in
        elim (Bool-cases (r.rec.orig_payload_len == 0)) [
          | inl empty ↦ ((st, m), ground arith, refl)
          | inr full ↦ elim (Bool-cases (ltb 0 wire_new && ltb st.consumed_ack_s abs_end)) [
            | inl fresh_bytes ↦ (done, ground arith, same)
            | inr seen ↦ ((retransmitted st, m), ground arith, refl)
          ]
        ]

    pub conns-on_response :
        (h : ℕ) (r : IndexedRecord) (sc : SeqStream) (wire_new : ℕ) (st : ConnState)
        (m : Matcher db)
        → (on_response db masks meta h r sc wire_new (st, m)).1.conns ≡ m.conns
    unfolding on_response
    conns-on_response h r sc wire_new st m =
        let st' =
          if ltb 0 wire_new then record st { resp_cnt = (st.resp_cnt + 1) % 2 ^ 64 } else st in
        ground (arith, conns-consume_r h r (abs_of sc r.rec.tcp_ack) st' m)

    pub on_reset-some :
        (h : ℕ) (rec : WalRecord) (st : ConnState) (m : Matcher db)
        → Holds h m
        → (m' : Matcher db) × (on_reset db masks meta h rec (st, m) ≡ some m')
    unfolding on_reset
    on_reset-some h rec st m held =
        let n = (rst_cascade db h rec (st, m)).1 in
        persist_state-some h _ n (Holds-same h m n (conns-rst_cascade h rec st m) held)

    pub on_segment-some :
        (h : ℕ) (r : IndexedRecord) (dir : Dir) (st : ConnState) (m : Matcher db)
        → Answers meta r.rec.payload
        → Holds h m
        → (m' : Matcher db) × (on_segment db masks meta h r dir (st, m) ≡ some m')
    unfolding on_segment
    on_segment-some h r c2s st m answers held =
        let fed = feed_packet (stream_of st true) r.rec.tcp_seq r.rec.orig_payload_len in
        let ready = count_packet r.rec c2s (advance masks r c2s st) in
        let (done, e, same) = on_request-some h r fed.1 fed.2 ready m answers in
        let next = store_streams fed.0 (stream_of st false) done.0 in
        let (m', kept) = persist_state-some h next done.1 (Holds-same h m done.1 same held) in
        (m', rw e kept)
    on_segment-some h r s2c st m answers held =
        let sc = stream_of st true in
        let fed = feed_packet (stream_of st false) r.rec.tcp_seq r.rec.orig_payload_len in
        let ready = count_packet r.rec s2c (advance masks r s2c st) in
        let n = (on_response db masks meta h r sc fed.2 (ready, m)).1 in
        persist_state-some h _ n (Holds-same h m n (conns-on_response h r sc fed.2 ready m) held)

    -- Whatever the state, the tables and the packet, ingest returns: no unwrap of the engine's
    -- connection map meets a missing entry.
    pub ingest-some :
        (r : IndexedRecord) (m : Matcher db)
        → Answers meta r.rec.payload
        → (m' : Matcher db) × (ingest db masks meta r m ≡ some m')
    unfolding ingest
    ingest-some r m answers =
        let m1 = record m {
          epoch_record_ts =
              (put_no_overwrite db m.epoch_record_ts (k_record_ts r.rec.timestamp_ns (idx r))
                (v_record_summary_encode (summary_of masks r.rec))).0;
        } in
        let found = locate db masks meta r.rec r.dev_id m1 in
        let held = Holds-locate r.rec r.dev_id m1 in
        let now = enter-some found.1 r found.2 held.0 found.0 held in
        let reset = on_reset-some found.1 r.rec now.0.0 now.0.1 now.2 in
        let fed = on_segment-some found.1 r found.2 now.0.0 now.0.1 answers now.2 in
        elim (Bool-cases (r.rec.proto == 6)) [
          | inr e ↦ (m1, ground arith)
          | inl e ↦ elim (Bool-cases (has_flag r.rec.tcp_flags masks.rst)) [
            | inl e2 ↦ (reset.0, ground (arith, held.1, now.1, reset.1))
            | inr e2 ↦ (fed.0, ground (arith, held.1, now.1, fed.1))
          ]
        ]
