-- ===== src/Matcher/Terminal.antt =====
-- src/qr.rs: the ways in which a request ends: an acknowledgement, a reset, a new generation.
use sov_vault.Base.{
  ℕ, ◌+◌, ◌-◌, ◌/◌, ◌%◌, ◌^◌, Bool, true, false, ◌||◌, List, [], ◌∷◌, ◌++◌, Option, none, some, max,
  length, ◌==◌, if◌then◌else◌,
}
use sov_vault.Db.Pair.{QrPairValue, QrStatus, to_u8}
use sov_vault.Connection.Kind
use sov_vault.Connection.Kind.{ConnStateKind}
use sov_vault.Connection.State.{ConnState}
use sov_vault.Connection.Flags.{set_active_c, set_active_s}
use sov_vault.Map
use sov_vault.Map.{nat_eq}
use sov_vault.Store.{Lmdb}
use sov_vault.Matcher.Types.{
  WalRecord, Masks, IndexedRecord, idx, Dir, c2s, s2c, AnomalyEvent, AnomKind, event, gen_flip,
  rst_cascade_of, epoch_rebirth_syn, epoch_rebirth_jump, rst_cascade_total, PendingHit, u48_max,
  saturating_add64, saturating_add32, req_key_of, has_flag,
}
use sov_vault.Matcher.Rows.{Matcher, migrate_terminal, scan_pending_upto, clear_pending}

-- `contains`, then `push`, for each locator.
unfoldable pub contains : ℕ → List ℕ → Bool
contains x [] = false
contains x (y ∷ ys) = (x == y) || contains x ys

unfoldable pub push_all : List PendingHit → List ℕ → List ℕ
unfolding contains
push_all [] q_idx = q_idx
push_all (hit ∷ hits) q_idx =
    push_all hits (if contains hit.q_first_idx q_idx then q_idx else q_idx ++ hit.q_first_idx ∷ [])

-- What an answer does to the row of a request; the first request of the batch takes the locators of
-- the others.
unfoldable pub answer : IndexedRecord → Bool → List PendingHit → QrPairValue → QrPairValue
unfolding idx push_all req_key_of
answer r primary others pair = record pair {
  status = to_u8 QrStatus.matched;
  r_ts = r.rec.timestamp_ns;
  latency_ms = (r.rec.timestamp_ns - pair.q_ts) / 1_000_000;
  r_len = saturating_add32 pair.r_len r.rec.orig_payload_len;
  r_idx = pair.r_idx ++ idx r ∷ [];
  resp_key = if primary then req_key_of r.rec else pair.resp_key;
  q_idx = if primary then push_all others pair.q_idx else pair.q_idx;
}

abbrev pub set_status : QrStatus → QrPairValue → QrPairValue
set_status status pair = record pair { status = to_u8 status }

module _ (db : Lmdb) where
  -- `for (i, hit) in hits.iter().enumerate()`.
  unfoldable pub consume_hits :
      ℕ → IndexedRecord → Bool → List PendingHit → ConnState × Matcher db → ConnState × Matcher db
  unfolding migrate_terminal clear_pending answer
  consume_hits h r primary [] (st, m) = (st, m)
  consume_hits h r primary (hit ∷ hits) (st, m) =
      let moved = migrate_terminal db hit.q_first_idx (answer r primary hits) m in
      consume_hits h r false hits (
        (if moved.1 then record st { qr_open = st.qr_open - 1 } else st),
        clear_pending db h hit moved.0,
      )

  unfoldable pub consume_r : ℕ → IndexedRecord → ℕ → ConnState × Matcher db → ConnState × Matcher db
  unfolding scan_pending_upto consume_hits
  consume_r h r abs_ack (st, m) =
      let limit = saturating_add64 abs_ack m.ack_tol in
      let done = consume_hits h r true (scan_pending_upto db m h st.incarnation limit) (st, m) in
      (record done.0 { consumed_ack_s = max abs_ack done.0.consumed_ack_s }, done.1)

  -- Each waiting request of a generation ends with `status`, and is reported.
  unfoldable pub abort_hits :
      ℕ → QrStatus → (PendingHit → AnomalyEvent) → List PendingHit → Matcher db → Matcher db
  unfolding migrate_terminal clear_pending
  abort_hits h status report [] m = m
  abort_hits h status report (hit ∷ hits) m =
      let moved = (migrate_terminal db hit.q_first_idx (set_status status) m).0 in
      abort_hits h status report hits
        (clear_pending db h hit (record moved { anomalies = moved.anomalies ++ report hit ∷ [] }))

  unfoldable pub rst_cascade : ℕ → WalRecord → ConnState × Matcher db → ConnState × Matcher db
  unfolding scan_pending_upto abort_hits event
  rst_cascade h rec (st, m) =
      let hits = scan_pending_upto db m h st.incarnation u48_max in
      let report = λ (hit : PendingHit).
        event rec.timestamp_ns AnomKind.qr_rst_abort h (some hit.q_first_idx)
          (rst_cascade_of st.incarnation) in
      let m' = abort_hits h QrStatus.rst_abort report hits m in
      let total =
        event rec.timestamp_ns AnomKind.conn_rst h none (rst_cascade_total (length hits)) in
      (
        record st { qr_open = st.qr_open - length hits },
        record m' { anomalies = m'.anomalies ++ total ∷ [] },
      )

  -- The state of the connection at the start of a generation that the packet opens.
  unfoldable pub reborn : Masks → WalRecord → Dir → ℕ → ConnState → ConnState
  unfolding set_active_c set_active_s has_flag
  reborn masks rec dir syn_idx st =
      let opened = record st {
        incarnation = (st.incarnation + 1) % 2 ^ 16;
        qr_open = 0;
        syn_pkt_idx = if has_flag rec.tcp_flags masks.syn then syn_idx else 0;
        state = Kind.to_u8 ConnStateKind.half_open;
        consumed_ack_c = 0;
        consumed_ack_s = 0;
      } in
      elim dir [
        | c2s ↦ set_active_s false (
            set_active_c true (record opened {
              last_raw_c = rec.tcp_seq;
              abs_seq_c = rec.tcp_seq;
              last_raw_s = 0;
              abs_seq_s = 0;
            }))
        | s2c ↦ set_active_c false (
            set_active_s true (record opened {
              last_raw_s = rec.tcp_seq;
              abs_seq_s = rec.tcp_seq;
              last_raw_c = 0;
              abs_seq_c = 0;
            }))
      ]

  -- The flip of a connection whose state is `st`.
  unfoldable pub flip_known : Masks → ℕ → WalRecord → Dir → ℕ → ConnState → Matcher db → Matcher db
  unfolding scan_pending_upto abort_hits event reborn has_flag Map.insert
  flip_known masks h rec dir syn_idx st m =
      let hits = scan_pending_upto db m h st.incarnation u48_max in
      let report = λ (hit : PendingHit).
        event rec.timestamp_ns AnomKind.qr_unmatched h (some hit.q_first_idx)
          (gen_flip st.incarnation) in
      let m' = abort_hits h QrStatus.unmatched report hits m in
      let pending = length hits in
      let total = event rec.timestamp_ns AnomKind.epoch_rebirth h none (
        if has_flag rec.tcp_flags masks.syn
        then epoch_rebirth_syn pending
        else epoch_rebirth_jump pending) in
      record m' {
        conns = Map.insert h (reborn masks rec dir syn_idx st) m'.conns;
        anomalies = m'.anomalies ++ total ∷ [];
      }

  -- `none` is the panic of `conns.get(&h).unwrap()`.
  unfoldable pub flip_epoch : Masks → ℕ → WalRecord → Dir → ℕ → Matcher db → Option (Matcher db)
  unfolding flip_known Map.get
  flip_epoch masks h rec dir syn_idx m = elim (Map.get h m.conns) [
    | none ↦ none
    | some st ↦ some (flip_known masks h rec dir syn_idx st m)
  ]
