-- ===== src/Matcher/Migrate.antt =====
-- src/qr.rs, `migrate_terminal`: the move of a request from the live to the epoch database, and what a
-- crash between the commits of the two leaves to do.
use sov_vault.Base.{
  ℕ, ◌≡◌, Bool, true, false, ◌||◌, List, Option, none, some, arith, Option-cases, inl, inr,
}
use sov_vault.Db.Keys.{k_qr_pair}
use sov_vault.Db.Pair
use sov_vault.Db.Pair.{QrPairValue}
use sov_vault.Store.{Lmdb, get-put_no_overwrite, bytes_eq_iff}
use sov_vault.Matcher.Rows.{Matcher, pending_pair, migrate_terminal}

abbrev pub is_some : Option (List ℕ) → Bool
is_some none = false
is_some (some v) = true

module _ (db : Lmdb) where
  open db use {get, delete, get-delete}

  -- A request stands in one of the two databases.
  abbrev pub known : Matcher db → List ℕ → Bool
  known m key = is_some (get m.epoch_qr_pair key) || is_some (get m.live_qr_pair key)

  -- What a crash after the commit of the epoch database, and before that of the live one, leaves.
  abbrev pub crashed : Matcher db → Matcher db → Matcher db
  crashed before after = record before { epoch_qr_pair = after.epoch_qr_pair }

  -- For every key, moving a request leaves unchanged whether one of the two tables of requests
  -- holds a row at that key.
  pub migrate_terminal-known :
      (q : ℕ) (flip : QrPairValue → QrPairValue) (m : Matcher db) (key : List ℕ)
      → known (migrate_terminal db q flip m).0 key ≡ known m key
  unfolding migrate_terminal
  migrate_terminal-known q flip m key =
      let k = k_qr_pair q in
      elim (Option-cases (get m.epoch_qr_pair k)) [
        | inl e ↦ elim (Option-cases (pending_pair db (get m.live_qr_pair k))) [
          | inl e2 ↦ ground arith
          | inr (pair, e2) ↦ ground (
            arith,
            get-put_no_overwrite db m.epoch_qr_pair k (Pair.encode (flip pair)) key,
            get-delete m.live_qr_pair k key,
            bytes_eq_iff key k,
          )
        ]
        | inr (v, e) ↦ ground (arith, get-delete m.live_qr_pair k key, bytes_eq_iff key k)
      ]

  -- What a step of the engine leaves of the two tables of requests, at a key.
  abbrev pub Agree : Matcher db → Matcher db → List ℕ → Type 0
  Agree m n key =
      (get m.epoch_qr_pair key ≡ get n.epoch_qr_pair key)
      × (get m.live_qr_pair key ≡ get n.live_qr_pair key)

  -- After a crash between the commits of the epoch and the live database, the move of a request
  -- made again, whatever it would write, moves nothing, and both tables of requests read, at every
  -- key, as after the first move.
  pub migrate_terminal-crashed :
      (q : ℕ) (flip again : QrPairValue → QrPairValue) (m : Matcher db) (key : List ℕ)
      → ((migrate_terminal db q again (crashed m (migrate_terminal db q flip m).0)).1 ≡ false)
        × Agree
            (migrate_terminal db q again (crashed m (migrate_terminal db q flip m).0)).0
            (migrate_terminal db q flip m).0
            key
  unfolding migrate_terminal
  migrate_terminal-crashed q flip again m key =
      let k = k_qr_pair q in
      elim (Option-cases (get m.epoch_qr_pair k)) [
        | inl e ↦ elim (Option-cases (pending_pair db (get m.live_qr_pair k))) [
          | inl e2 ↦ ground arith
          | inr (pair, e2) ↦ ground (
            arith,
            get-put_no_overwrite db m.epoch_qr_pair k (Pair.encode (flip pair)) k,
            bytes_eq_iff k k,
          )
        ]
        | inr (v, e) ↦ ground arith
      ]
