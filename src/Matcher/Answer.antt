-- ===== src/Matcher/Answer.antt =====
-- src/qr.rs: the rows of requests after an acknowledgement or a reset.
use sov_vault.Base.{ℕ, ◌≡◌, refl, ◌++◌, List, [], ◌∷◌, some}
use sov_vault.Connection.State.{ConnState}
use sov_vault.Db.Keys.{k_qr_pair}
use sov_vault.Db.Pair
use sov_vault.Db.Pair.{QrPairValue, QrStatus}
use sov_vault.Store.{Lmdb}
use sov_vault.Matcher.Changes.{Changes, Changes-trans, migrate-Changes}
use sov_vault.Matcher.Types.{
  WalRecord, IndexedRecord, AnomalyEvent, AnomKind, event, rst_cascade_of, PendingHit, u48_max,
}
use sov_vault.Matcher.Rows.{Matcher, migrate_terminal, clear_pending, scan_pending_upto}
use sov_vault.Matcher.Terminal.{set_status, abort_hits, rst_cascade}
use sov_vault.Matcher.Answered.{IsReply}
use sov_vault.Matcher.Outcome.{kept}

module _ (db : Lmdb) where
  open db use {get, delete, range, range_iff, get-delete}

  -- The request at a key, as one of the batch, and its row before and after the answer.
  abbrev pub IsAnswered :
      IndexedRecord → List PendingHit → List ℕ → QrPairValue → QrPairValue → Type 0
  IsAnswered r batch key pair pair' =
      (before : List PendingHit) × (hit : PendingHit) × (others : List PendingHit) × (batch
        ≡ before ++ hit ∷ others)
      × (key ≡ k_qr_pair hit.q_first_idx)
      × IsReply r before others pair pair'

  abort_hits-pairs :
      (h : ℕ) (status : QrStatus) (report : PendingHit → AnomalyEvent) (hits : List PendingHit)
      (m : Matcher db) (key : List ℕ)
      → Changes db
          (λ pair pair'. pair' ≡ set_status status pair)
          m
          (abort_hits db h status report hits m)
          key
  unfolding abort_hits clear_pending
  abort_hits-pairs h status report [] m key = kept refl refl
  abort_hits-pairs h status report (hit ∷ hits) m key =
      let Ends = λ (pair pair' : QrPairValue). pair' ≡ set_status status pair in
      let moved = (migrate_terminal db hit.q_first_idx (set_status status) m).0 in
      let next =
        clear_pending db h hit (record moved { anomalies = moved.anomalies ++ report hit ∷ [] }) in
      Changes-trans db Ends m next (abort_hits db h status report hits next) key
        (migrate-Changes db Ends hit.q_first_idx (set_status status) m key (λ pair e. refl))
        (abort_hits-pairs h status report hits next key)

  -- A reset does one of three things to the two tables of requests at each key: both rows stay as
  -- they are; or the epoch row stays and the live one is gone; or there was no epoch row, the live
  -- row was pending, and afterwards the epoch table has that row with the status of an abort by
  -- reset and the live one none.
  pub rst_cascade-pairs :
      (h : ℕ) (rec : WalRecord) (st : ConnState) (m : Matcher db) (key : List ℕ)
      → Changes db
          (λ pair pair'. pair' ≡ set_status QrStatus.rst_abort pair)
          m
          (rst_cascade db h rec (st, m)).1
          key
  unfolding rst_cascade
  rst_cascade-pairs h rec st m key =
      abort_hits-pairs h QrStatus.rst_abort
        (λ hit.
          event rec.timestamp_ns AnomKind.qr_rst_abort h (some hit.q_first_idx)
            (rst_cascade_of st.incarnation))
        (scan_pending_upto db m h st.incarnation u48_max) m key
