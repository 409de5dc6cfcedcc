-- ===== src/Ttl/Pairs.antt =====
-- The rows of QR_PAIR after a scan.
use sov_vault.Base.{ℕ, ◌≡◌, refl, List, [], ◌∷◌, arith, Option-cases, Bool-cases, inl, inr}
use sov_vault.Connection.State.{ConnState}
use sov_vault.Db.Keys.{k_qr_pair}
use sov_vault.Db.Pair
use sov_vault.Db.Pair.{QrPairValue, QrStatus}
use sov_vault.Store.{Lmdb, put_no_overwrite, get-put_no_overwrite, bytes_eq_iff, bytes_eq}
use sov_vault.Matcher.Rows.{pending_pair}
use sov_vault.Matcher.Terminal.{set_status}
use sov_vault.Matcher.Outcome.{Outcome, Outcome-trans, kept, cleared, ended}
use sov_vault.Ttl.{
  TtlHit, Scan, cleanup_pending, cleanup_residual, time_out, expire, evaluate, evaluate_all,
  write_back, deadline, conn_of,
}
use sov_vault.Base.{ltb}

module _ (db : Lmdb) where
  open db use {Table, get, delete, get-delete}

  abbrev pub TimesOut : QrPairValue → QrPairValue → Type 0
  TimesOut pair pair' = pair' ≡ set_status QrStatus.timeout pair

  -- What a step of the scan does to the row of a request at `key`.
  abbrev pub Changes : Scan db → Scan db → List ℕ → Type 0
  Changes s s' key =
      Outcome db TimesOut (get s.epoch_qr_pair key) (get s.live_qr_pair key)
        (get s'.epoch_qr_pair key) (get s'.live_qr_pair key)

  Changes-trans :
      (s s₁ s₂ : Scan db) (key : List ℕ) → Changes s s₁ key → Changes s₁ s₂ key → Changes s s₂ key
  Changes-trans s s₁ s₂ key a b =
      Outcome-trans db TimesOut (get s.epoch_qr_pair key) (get s.live_qr_pair key)
        (get s₁.epoch_qr_pair key) (get s₁.live_qr_pair key) (get s₂.epoch_qr_pair key)
        (get s₂.live_qr_pair key) a b

  cleanup-pairs :
      (hit : TtlHit) (s : Scan db)
      → ((cleanup_residual db hit s).epoch_qr_pair ≡ s.epoch_qr_pair)
        × ((cleanup_residual db hit s).live_qr_pair ≡ s.live_qr_pair)
  unfolding cleanup_residual cleanup_pending
  cleanup-pairs hit s = ground arith

  expire-Changes :
      (now : ℕ) (hit : TtlHit) (st : ConnState) (s : Scan db) (key : List ℕ)
      → Changes s (expire db now hit st s) key
  unfolding expire time_out
  expire-Changes now hit st s key =
      let kp = k_qr_pair hit.q_first_idx in
      elim (Option-cases (get s.epoch_qr_pair kp)) [
        | inr (v, e) ↦
            let s₁ = record s { live_qr_pair = delete s.live_qr_pair kp } in
            elim (Bool-cases (bytes_eq key kp)) [
              | inl b ↦
                  cleared v (ground (arith, bytes_eq_iff key kp))
                    (ground (arith, cleanup-pairs hit s₁))
                    (ground (arith, cleanup-pairs hit s₁, get-delete s.live_qr_pair kp key))
              | inr b ↦
                  kept (ground (arith, cleanup-pairs hit s₁))
                    (ground (arith, cleanup-pairs hit s₁, get-delete s.live_qr_pair kp key))
            ]
        | inl e ↦ elim (Option-cases (pending_pair db (get s.live_qr_pair kp))) [
          | inl n ↦ kept (ground (arith, cleanup-pairs hit s)) (ground (arith, cleanup-pairs hit s))
          | inr (pair, p) ↦
              let row = Pair.encode (set_status QrStatus.timeout pair) in
              let s₁ = record s {
                epoch_qr_pair = (put_no_overwrite db s.epoch_qr_pair kp row).0;
                live_qr_pair = delete s.live_qr_pair kp;
              } in
              elim (Bool-cases (bytes_eq key kp)) [
                | inl b ↦
                    ended pair (set_status QrStatus.timeout pair) refl
                      (ground (arith, bytes_eq_iff key kp)) (ground (arith, bytes_eq_iff key kp))
                      (ground (
                        arith,
                        cleanup-pairs hit s₁,
                        get-put_no_overwrite db s.epoch_qr_pair kp row key,
                        bytes_eq_iff key kp,
                      ))
                      (ground (arith, cleanup-pairs hit s₁, get-delete s.live_qr_pair kp key))
                | inr b ↦
                    kept
                      (ground (
                        arith,
                        cleanup-pairs hit s₁,
                        get-put_no_overwrite db s.epoch_qr_pair kp row key,
                        Option-cases (get s.epoch_qr_pair key),
                      ))
                      (ground (arith, cleanup-pairs hit s₁, get-delete s.live_qr_pair kp key))
              ]
        ]
      ]

  evaluate-Changes :
      (now timeout short : ℕ) (hit : TtlHit) (s : Scan db) (key : List ℕ)
      → Changes s (evaluate db now timeout short hit s) key
  unfolding evaluate
  evaluate-Changes now timeout short hit s key =
      elim (Bool-cases
        (ltb now (deadline timeout short (conn_of db hit.conn s).fin_seen hit.q_ts))) [
          | inl b ↦ rw (evaluate, b) (kept refl refl)
          | inr b ↦ rw (evaluate, b) (expire-Changes now hit (conn_of db hit.conn s) _ key)
        ]

  pub evaluate_all-Changes :
      (now timeout short : ℕ) (hits : List TtlHit) (s : Scan db) (key : List ℕ)
      → Changes s (evaluate_all db now timeout short hits s) key
  unfolding evaluate_all
  evaluate_all-Changes now timeout short [] s key = kept refl refl
  evaluate_all-Changes now timeout short (hit ∷ hits) s key =
      let s₁ = evaluate db now timeout short hit s in
      Changes-trans s s₁ (evaluate_all db now timeout short hits s₁) key
        (evaluate-Changes now timeout short hit s key)
        (evaluate_all-Changes now timeout short hits s₁ key)

  pub write_back-tables :
      (m : List (ℕ × ConnState)) (s : Scan db)
      → ((write_back db m s).epoch_qr_pair ≡ s.epoch_qr_pair)
        × ((write_back db m s).live_qr_pair ≡ s.live_qr_pair)
        × ((write_back db m s).live_pending_ttl ≡ s.live_pending_ttl)
  unfolding write_back
  write_back-tables [] s = (refl, refl, refl)
  write_back-tables ((h, st) ∷ m) s = write_back-tables m _
