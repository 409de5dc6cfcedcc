-- ===== src/Matcher/Pending.antt =====
-- src/qr.rs: which rows of QR_PENDING a scan finds, and which are left once each hit is cleared.
use sov_vault.Base.{
  ℕ, ◌≡◌, ◌∙◌, ◌++◌, ◌-◌, refl, Bool, true, false, ◌&&◌, ◌||◌, List, [], ◌∷◌, Option, none, some,
  min, arith, Option-cases, Bool-cases, inl, inr, if◌then◌else◌,
}
use sov_vault.Connection.State.{ConnState}
use sov_vault.Db.Keys.{k_qr_pending, k_qr_pending_prefix}
use sov_vault.Db.Keys.Order.{in_range}
use sov_vault.Db.Pair.{QrPairValue, QrStatus}
use sov_vault.Db.Values.{v_qr_pending_decode}
use sov_vault.Store.{Lmdb, Row, Has, bytes_eq, bytes_eq_iff}
use sov_vault.Matcher.Types.{IndexedRecord, AnomalyEvent, PendingHit, u48_max}
use sov_vault.Matcher.Rows.{Matcher, migrate_terminal, clear_pending, scan_pending_upto, hits_of}
use sov_vault.Matcher.Terminal.{answer, set_status, consume_hits, abort_hits}

-- One of the hits has the key.
unfoldable pub hit_at : List ℕ → List PendingHit → Bool
hit_at key [] = false
hit_at key (hit ∷ hits) = bytes_eq key hit.key || hit_at key hits

-- A row that the scan reads.
abbrev pub decodes : Option (List ℕ) → Bool
decodes none = false
decodes (some v) = elim (v_qr_pending_decode v) [ none ↦ false | some w ↦ true ]

module _ (db : Lmdb) where
  open db use {get, range, range_iff, get-delete}

  pub hit_at-Has :
      (key : List ℕ) (rows : List Row)
      → hit_at key (hits_of db rows) ≡ true
      → (v : List ℕ) × Has (key, v) rows × (decodes (some v) ≡ true)
  unfolding hits_of hit_at
  hit_at-Has key [] h = ground arith
  hit_at-Has key ((k, v) ∷ rows) h =
      let rest = hit_at-Has key rows in
      elim (Bool-cases (hit_at key (hits_of db rows))) [
        | inl e ↦ (let found = rest e in (found.0, inr found.1, found.2))
        | inr e ↦ (v, inl (ground (arith, bytes_eq_iff key k)), ground arith)
      ]

  pub Has-hit_at :
      (key v : List ℕ) (rows : List Row)
      → Has (key, v) rows
      → decodes (some v) ≡ true
      → hit_at key (hits_of db rows) ≡ true
  unfolding hits_of hit_at
  Has-hit_at key v [] e d = elim e [ ]
  Has-hit_at key v ((k, w) ∷ rows) (inl e) d = ground (arith, bytes_eq_iff key k)
  Has-hit_at key v ((k, w) ∷ rows) (inr e) d = ground (arith, Has-hit_at key v rows e d)

  -- The scan reads the rows in its range that decode.
  pub hit_at-scan :
      (m : Matcher db) (h inc limit : ℕ) (key : List ℕ)
      → hit_at key (scan_pending_upto db m h inc limit) ≡ (
          in_range (k_qr_pending_prefix h inc) (k_qr_pending h inc (min limit u48_max)) key
          && decodes (get m.live_qr_pending key))
  unfolding scan_pending_upto
  hit_at-scan m h inc limit key =
      let lo = k_qr_pending_prefix h inc in
      let hi = k_qr_pending h inc (min limit u48_max) in
      let rows = range m.live_qr_pending lo hi in
      elim (Bool-cases (hit_at key (hits_of db rows))) [
        | inl e ↦
            (let found = hit_at-Has key rows e in
              ground (arith, found.2, (range_iff m.live_qr_pending lo hi key found.0).0 found.1))
        | inr e ↦ elim (Option-cases (get m.live_qr_pending key)) [
          | inl e2 ↦ ground arith
          | inr (v, e2) ↦
              ground (arith, Has-hit_at key v rows, (range_iff m.live_qr_pending lo hi key v).1)
        ]
      ]

  pub pending-migrate_terminal :
      (q : ℕ) (flip : QrPairValue → QrPairValue) (m : Matcher db)
      → (migrate_terminal db q flip m).0.live_qr_pending ≡ m.live_qr_pending
  unfolding migrate_terminal
  pending-migrate_terminal q flip m = ground arith

  pub pending-consume_hits :
      (h : ℕ) (r : IndexedRecord) (primary : Bool) (hits : List PendingHit) (st : ConnState)
      (m : Matcher db) (key : List ℕ)
      → get (consume_hits db h r primary hits (st, m)).1.live_qr_pending key
        ≡ (if hit_at key hits then none else get m.live_qr_pending key)
  unfolding consume_hits clear_pending hit_at
  pending-consume_hits h r primary [] st m key = refl
  pending-consume_hits h r primary (hit ∷ hits) st m key =
      let moved = migrate_terminal db hit.q_first_idx (answer r primary hits) m in
      let st' = if moved.1 then record st { qr_open = st.qr_open - 1 } else st in
      pending-consume_hits h r false hits st' (clear_pending db h hit moved.0) key
      ∙ ground (
        arith,
        pending-migrate_terminal hit.q_first_idx (answer r primary hits) m,
        get-delete moved.0.live_qr_pending hit.key key,
      )

  pub pending-abort_hits :
      (h : ℕ) (status : QrStatus) (report : PendingHit → AnomalyEvent) (hits : List PendingHit)
      (m : Matcher db) (key : List ℕ)
      → get (abort_hits db h status report hits m).live_qr_pending key
        ≡ (if hit_at key hits then none else get m.live_qr_pending key)
  unfolding abort_hits clear_pending hit_at
  pending-abort_hits h status report [] m key = refl
  pending-abort_hits h status report (hit ∷ hits) m key =
      let moved = (migrate_terminal db hit.q_first_idx (set_status status) m).0 in
      pending-abort_hits h status report hits
        (clear_pending db h hit (record moved { anomalies = moved.anomalies ++ report hit ∷ [] }))
        key
      ∙ ground (
        arith,
        pending-migrate_terminal hit.q_first_idx (set_status status) m,
        get-delete moved.live_qr_pending hit.key key,
      )
