-- ===== src/Matcher/Changes.antt =====
-- src/qr.rs: what a move from the live to the epoch table does at each key.
use sov_vault.Base.{ℕ, ◌≡◌, inl, inr, List, none, arith, Option-cases, Bool-cases}
use sov_vault.Db.Keys.{k_qr_pair}
use sov_vault.Db.Pair
use sov_vault.Db.Pair.{QrPairValue, QrStatus}
use sov_vault.Store.{Lmdb, get-put_no_overwrite, bytes_eq_iff, bytes_eq}
use sov_vault.Matcher.Rows.{Matcher, pending_pair, migrate_terminal}
use sov_vault.Matcher.Outcome.{Outcome, Outcome-trans, kept, cleared, ended}

module _ (db : Lmdb) where
  open db use {get, delete, range, range_iff, get-delete}

  module _ (Ends : QrPairValue → QrPairValue → Type 0) where
    abbrev pub Changes : Matcher db → Matcher db → List ℕ → Type 0
    Changes m m' key =
        Outcome db Ends (get m.epoch_qr_pair key) (get m.live_qr_pair key)
          (get m'.epoch_qr_pair key) (get m'.live_qr_pair key)

    pub Changes-trans :
        (m m₁ m₂ : Matcher db) (key : List ℕ)
        → Changes m m₁ key
        → Changes m₁ m₂ key
        → Changes m m₂ key
    Changes-trans m m₁ m₂ key =
        Outcome-trans db Ends (get m.epoch_qr_pair key) (get m.live_qr_pair key)
          (get m₁.epoch_qr_pair key) (get m₁.live_qr_pair key) (get m₂.epoch_qr_pair key)
          (get m₂.live_qr_pair key)

    pub migrate-Changes :
        (q : ℕ) (flip : QrPairValue → QrPairValue) (m : Matcher db) (key : List ℕ)
        → ((pair : QrPairValue) → key ≡ k_qr_pair q → Ends pair (flip pair))
        → Changes m (migrate_terminal db q flip m).0 key
    unfolding migrate_terminal
    migrate-Changes q flip m key f =
        let kp = k_qr_pair q in
        elim (Option-cases (get m.epoch_qr_pair kp)) [
          | inr (v, e) ↦ elim (Bool-cases (bytes_eq key kp)) [
            | inl b ↦
                cleared v (ground (arith, bytes_eq_iff key kp)) (ground arith)
                  (ground (arith, get-delete m.live_qr_pair kp key))
            | inr b ↦ kept (ground arith) (ground (arith, get-delete m.live_qr_pair kp key))
          ]
          | inl e ↦ elim (Option-cases (pending_pair db (get m.live_qr_pair kp))) [
            | inl n ↦ kept (ground arith) (ground arith)
            | inr (pair, p) ↦
                let row = Pair.encode (flip pair) in
                let written = get-put_no_overwrite db m.epoch_qr_pair kp row key in
                elim (Bool-cases (bytes_eq key kp)) [
                  | inl b ↦
                      ended pair (flip pair) (f pair ((bytes_eq_iff key kp).0 b))
                        (ground (arith, bytes_eq_iff key kp)) (ground (arith, bytes_eq_iff key kp))
                        (ground (arith, written, bytes_eq_iff key kp))
                        (ground (arith, get-delete m.live_qr_pair kp key))
                  | inr b ↦
                      kept (ground (arith, written, Option-cases (get m.epoch_qr_pair key)))
                        (ground (arith, get-delete m.live_qr_pair kp key))
                ]
          ]
        ]

  -- The request that is moved does not wait any more.
  pub migrate-settled :
      (q : ℕ) (flip : QrPairValue → QrPairValue) (m : Matcher db)
      → pending_pair db (get (migrate_terminal db q flip m).0.live_qr_pair (k_qr_pair q)) ≡ none
  unfolding migrate_terminal
  migrate-settled q flip m =
      let kp = k_qr_pair q in
      elim (Option-cases (get m.epoch_qr_pair kp)) [
        | inr (v, e) ↦ ground (arith, get-delete m.live_qr_pair kp kp, bytes_eq_iff kp kp)
        | inl e ↦ elim (Option-cases (pending_pair db (get m.live_qr_pair kp))) [
          | inl n ↦ ground arith
          | inr (pair, p) ↦ ground (arith, get-delete m.live_qr_pair kp kp, bytes_eq_iff kp kp)
        ]
      ]
