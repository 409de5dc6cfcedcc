-- ===== src/Ttl/Expiry.antt =====
-- The rows of PENDING_TTL while the collected rows are evaluated: the states read for the
-- connections, and which rows are deleted.
use Prim.Native.Nat.{bit_or}
use sov_vault.Base.{
  ℕ, ◌≡◌, ◌-◌, ==_iff, refl, ap, ◌∙◌, Bool, true, false, ◌&&◌, ◌||◌, List, [], ◌∷◌, none, some,
  arith, leb, ltb, ◌==◌, if◌then◌else◌, Option-cases, Bool-cases, inl, inr,
}
use sov_vault.Connection.State.{ConnState}
use sov_vault.Connection.Kind.{flag_qr_unmatched}
use sov_vault.Db.Pair
use sov_vault.Db.Pair.{QrStatus}
use sov_vault.Matcher.Terminal.{set_status}
use sov_vault.Db.Values.{v_pending_ttl_decode}
use sov_vault.Map
use sov_vault.Map.{nat_eq}
use sov_vault.Map.Laws.{get-insert}
use sov_vault.Store.{Lmdb, Row, Has, bytes_eq, bytes_eq_iff, put_no_overwrite}
use sov_vault.Matcher.Rows.{pending_pair}
use sov_vault.Db.Keys.{k_qr_pair}
use sov_vault.Ttl.{
  TtlHit, Scan, halves, ttl_hits, load_conn, conn_of, cleanup_pending, cleanup_residual, time_out,
  expire, evaluate, evaluate_all, deadline,
}

-- The time of a request with key `key` has come, where `fin` gives the time of each connection's FIN.
unfoldable pub over : (ℕ → ℕ) → ℕ → ℕ → ℕ → List ℕ → Bool
over fin now timeout short key = elim (halves key) [
  | none ↦ false
  | some (q_ts, conn) ↦ leb (deadline timeout short (fin conn) q_ts) now
]

-- A collected row with this key is over.
unfoldable pub doomed : (ℕ → ℕ) → ℕ → ℕ → ℕ → List ℕ → List TtlHit → Bool
doomed fin now timeout short key [] = false
doomed fin now timeout short key (hit ∷ hits) =
    (bytes_eq key hit.key && leb (deadline timeout short (fin hit.conn) hit.q_ts) now)
    || doomed fin now timeout short key hits

abbrev pub decodes : List ℕ → Bool
decodes v = elim (v_pending_ttl_decode v) [ none ↦ false | some w ↦ true ]

module _ (fin : ℕ → ℕ) (now timeout short : ℕ) where
  pub doomed-Has :
      (key : List ℕ) (rows : List Row) (hits : List TtlHit)
      → ttl_hits rows ≡ some hits
      → doomed fin now timeout short key hits ≡ true
      → (v : List ℕ) × Has (key, v) rows
        × (decodes v ≡ true)
        × (over fin now timeout short key ≡ true)
  unfolding ttl_hits doomed over
  doomed-Has key [] hits e h = absurd (ground arith)
  doomed-Has key ((k, v) ∷ rows) hits e h = elim (Option-cases (v_pending_ttl_decode v)) [
    | inl n ↦ let (w, m, d, o) = doomed-Has key rows hits (ground arith) h in (w, inr m, d, o)
    | inr ((q, q_end), d) ↦ elim (Option-cases (halves k)) [
      | inl n ↦ absurd (ground arith)
      | inr ((q_ts, conn), p) ↦ elim (Option-cases (ttl_hits rows)) [
        | inl n ↦ absurd (ground arith)
        | inr (rest, r) ↦ elim (Bool-cases (doomed fin now timeout short key rest)) [
          | inl b ↦ let (w, m, d', o) = doomed-Has key rows rest r b in (w, inr m, d', o)
          | inr b ↦
              let here : (key ≡ k) × (leb (deadline timeout short (fin conn) q_ts) now ≡ true) =
                ground (arith, bytes_eq_iff key k) in
              (v, inl (ground (arith, here)), ground arith, ground (arith, here))
        ]
      ]
    ]
  ]

  pub Has-doomed :
      (key v : List ℕ) (rows : List Row) (hits : List TtlHit)
      → ttl_hits rows ≡ some hits
      → Has (key, v) rows
      → decodes v ≡ true
      → over fin now timeout short key ≡ true
      → doomed fin now timeout short key hits ≡ true
  unfolding ttl_hits doomed over
  Has-doomed key v [] hits e m d o = elim m [ ]
  Has-doomed key v ((k, w) ∷ rows) hits e (inl m) d o =
      elim (Option-cases (v_pending_ttl_decode w)) [
        | inl n ↦ absurd (ground arith)
        | inr ((q, q_end), p) ↦ elim (Option-cases (halves k)) [
          | inl n ↦ absurd (ground arith)
          | inr ((q_ts, conn), p₂) ↦ elim (Option-cases (ttl_hits rows)) [
            | inl n ↦ absurd (ground arith)
            | inr (rest, r) ↦ ground (arith, bytes_eq_iff key k)
          ]
        ]
      ]
  Has-doomed key v ((k, w) ∷ rows) hits e (inr m) d o =
      elim (Option-cases (v_pending_ttl_decode w)) [
        | inl n ↦ Has-doomed key v rows hits (ground arith) m d o
        | inr ((q, q_end), p) ↦ elim (Option-cases (halves k)) [
          | inl n ↦ absurd (ground arith)
          | inr ((q_ts, conn), p₂) ↦ elim (Option-cases (ttl_hits rows)) [
            | inl n ↦ absurd (ground arith)
            | inr (rest, r) ↦ ground (arith, Has-doomed key v rows rest r m d o)
          ]
        ]
      ]

module _ (db : Lmdb) where
  open db use {get, get-delete}

  cleanup-cache :
      (hit : TtlHit) (s : Scan db)
      → ((cleanup_residual db hit s).conn_cache ≡ s.conn_cache)
        × ((cleanup_residual db hit s).live_conn_state ≡ s.live_conn_state)
  unfolding cleanup_residual cleanup_pending
  cleanup-cache hit s = ground arith

  cleanup-ttl :
      (hit : TtlHit) (s : Scan db) (key : List ℕ)
      → get (cleanup_residual db hit s).live_pending_ttl key
        ≡ (if bytes_eq key hit.key then none else get s.live_pending_ttl key)
  unfolding cleanup_residual cleanup_pending
  cleanup-ttl hit s key = ground (arith, get-delete s.live_pending_ttl hit.key key)

  expire-ttl :
      (now : ℕ) (hit : TtlHit) (st : ConnState) (s : Scan db) (key : List ℕ)
      → get (expire db now hit st s).live_pending_ttl key
        ≡ (if bytes_eq key hit.key then none else get s.live_pending_ttl key)
  unfolding expire time_out
  expire-ttl now hit st s key =
      let kp = k_qr_pair hit.q_first_idx in
      elim (Option-cases (get s.epoch_qr_pair kp)) [
        | inr (v, e) ↦ rw (expire, e) (cleanup-ttl hit _ key)
        | inl e ↦ elim (Option-cases (pending_pair db (get s.live_qr_pair kp))) [
          | inl n ↦ rw (expire, e, n) (cleanup-ttl hit _ key)
          | inr (pair, p) ↦ rw (expire, e, p) (cleanup-ttl hit _ key)
        ]
      ]

  evaluate-ttl :
      (now timeout short : ℕ) (hit : TtlHit) (s : Scan db) (key : List ℕ)
      → get (evaluate db now timeout short hit s).live_pending_ttl key ≡ (
          if bytes_eq key hit.key
            && leb (deadline timeout short (conn_of db hit.conn s).fin_seen hit.q_ts) now
          then none
          else get s.live_pending_ttl key)
  unfolding evaluate
  evaluate-ttl now timeout short hit s key =
      let d = deadline timeout short (conn_of db hit.conn s).fin_seen hit.q_ts in
      elim (Bool-cases (ltb now d)) [
        | inl b ↦
            (let late : leb d now ≡ false = ground arith in rw (evaluate, b, late) (ground arith))
        | inr b ↦
            (let late : leb d now ≡ true = ground arith in
              rw (evaluate, b, late)
                (expire-ttl now hit (conn_of db hit.conn s) _ key ∙ ground arith))
      ]

  load_conn-same :
      (h : ℕ) (s s' : Scan db)
      → s'.live_conn_state ≡ s.live_conn_state
      → load_conn db h s' ≡ load_conn db h s
  unfolding load_conn
  load_conn-same h s s' f = rw (load_conn, f) refl

  -- A state in the cache is the one that is read.
  conn_of-insert :
      (h c : ℕ) (st : ConnState) (s s' : Scan db)
      → s'.conn_cache ≡ Map.insert c st s.conn_cache
      → s'.live_conn_state ≡ s.live_conn_state
      → conn_of db h s' ≡ (if h == c then st else conn_of db h s)
  unfolding conn_of
  conn_of-insert h c st s s' e f =
      ground (arith, get-insert h c st s.conn_cache, ap (Map.get h) e, load_conn-same h s s' f)

  conn_of-same :
      (h : ℕ) (s s' : Scan db)
      → s'.conn_cache ≡ s.conn_cache
      → s'.live_conn_state ≡ s.live_conn_state
      → conn_of db h s' ≡ conn_of db h s
  unfolding conn_of
  conn_of-same h s s' e f = ground (arith, ap (Map.get h) e, load_conn-same h s s' f)

  expire-fin :
      (now : ℕ) (hit : TtlHit) (st : ConnState) (s : Scan db) (h : ℕ)
      → conn_of db hit.conn s ≡ st
      → (conn_of db h (expire db now hit st s)).fin_seen ≡ (conn_of db h s).fin_seen
  unfolding expire time_out
  expire-fin now hit st s h c =
      let kp = k_qr_pair hit.q_first_idx in
      elim (Option-cases (get s.epoch_qr_pair kp)) [
        | inr (v, e) ↦
            let s₁ = record s { live_qr_pair = db.delete s.live_qr_pair kp } in
            ap (λ t. t.fin_seen)
              (conn_of-same h s (expire db now hit st s) (ground (arith, cleanup-cache hit s₁))
                (ground (arith, cleanup-cache hit s₁)))
        | inl e ↦ elim (Option-cases (pending_pair db (get s.live_qr_pair kp))) [
          | inl n ↦
              ap (λ t. t.fin_seen)
                (conn_of-same h s (expire db now hit st s) (ground (arith, cleanup-cache hit s))
                  (ground (arith, cleanup-cache hit s)))
          | inr (pair, p) ↦
              let s₁ = record s {
                epoch_qr_pair =
                    (put_no_overwrite db s.epoch_qr_pair kp
                      (Pair.encode (set_status QrStatus.timeout pair))).0;
                live_qr_pair = db.delete s.live_qr_pair kp;
              } in
              let st' = record st {
                qr_open = st.qr_open - 1;
                anomaly_flags = bit_or st.anomaly_flags flag_qr_unmatched;
              } in
              let e₁ =
                conn_of-insert h hit.conn st' s (expire db now hit st s)
                  (ground (arith, cleanup-cache hit s₁)) (ground (arith, cleanup-cache hit s₁)) in
              ap (λ t. t.fin_seen) e₁ ∙ ground (arith, ==_iff h hit.conn)
        ]
      ]

  evaluate-fin :
      (now timeout short : ℕ) (hit : TtlHit) (s : Scan db) (h : ℕ)
      → (conn_of db h (evaluate db now timeout short hit s)).fin_seen ≡ (conn_of db h s).fin_seen
  unfolding evaluate
  evaluate-fin now timeout short hit s h =
      let st = conn_of db hit.conn s in
      let cached = record s { conn_cache = Map.insert hit.conn st s.conn_cache } in
      let at = λ (j : ℕ). conn_of-insert j hit.conn st s cached refl refl in
      let same : conn_of db h cached ≡ conn_of db h s = ground (arith, at h, ==_iff h hit.conn) in
      elim (Bool-cases (ltb now (deadline timeout short st.fin_seen hit.q_ts))) [
        | inl b ↦ rw (evaluate, b) (ap (λ t. t.fin_seen) same)
        | inr b ↦
            rw (evaluate, b)
              (expire-fin now hit st cached h
                  (ground (arith, at hit.conn, ==_iff hit.conn hit.conn))
                ∙ ap (λ t. t.fin_seen) same)
      ]

  pub evaluate_all-ttl :
      (fin : ℕ → ℕ) (now timeout short : ℕ) (hits : List TtlHit) (s : Scan db) (key : List ℕ)
      → ((h : ℕ) → (conn_of db h s).fin_seen ≡ fin h)
      → get (evaluate_all db now timeout short hits s).live_pending_ttl key
        ≡ (if doomed fin now timeout short key hits then none else get s.live_pending_ttl key)
  unfolding evaluate_all doomed
  evaluate_all-ttl fin now timeout short [] s key f = refl
  evaluate_all-ttl fin now timeout short (hit ∷ hits) s key f =
      let s₁ = evaluate db now timeout short hit s in
      evaluate_all-ttl fin now timeout short hits s₁ key
        (λ h. evaluate-fin now timeout short hit s h ∙ f h)
      ∙ ground (arith, evaluate-ttl now timeout short hit s key, f hit.conn)
