-- ===== src/Matcher/Commit.antt =====
-- src/qr.rs: `commit`, and the keys whose connections `writeback_conns` unwraps.
use sov_vault.Base.{
  ℕ, ◌≡◌, refl, inl, inr, List, [], ◌∷◌, ◌++◌, Option, some, arith, leb, ==_refl, ◌==◌,
  if◌then◌else◌, Bool-cases,
}
use sov_vault.Connection.Kind.{is_terminal}
use sov_vault.Connection.State
use sov_vault.Connection.State.{ConnState}
use sov_vault.Db.Keys.{k_conn_state}
use sov_vault.Map
use sov_vault.Map.{nat_eq}
use sov_vault.Matcher.Types.{Masks, MetaRegistry, AnomalyEvent, ConnArchiveEvent}
use sov_vault.Matcher.Rows.{Matcher}
use sov_vault.Matcher.Ingest.{
  insert_key, sorted_keys, count_live_pending, writeback_keys, writeback_conns, commit,
}
use sov_vault.Store.{Lmdb}

-- Each key has a connection.
abbrev AllHeld : List (ℕ × ConnState) → List ℕ → Type 0
AllHeld conns [] = Unit {0}
AllHeld conns (h ∷ hs) = ((st : ConnState) × (Map.get h conns ≡ some st)) × AllHeld conns hs

insert_key-AllHeld :
    (conns : List (ℕ × ConnState)) (h : ℕ) (st : ConnState) (hs : List ℕ)
    → Map.get h conns ≡ some st
    → AllHeld conns hs
    → AllHeld conns (insert_key h hs)
unfolding insert_key
insert_key-AllHeld conns h st [] e held = ((st, e), tt)
insert_key-AllHeld conns h st (k ∷ ks) e held = elim (Bool-cases (leb h k)) [
  | inl b ↦ rw (insert_key, b) ((st, e), held)
  | inr b ↦ rw (insert_key, b) (held.0, insert_key-AllHeld conns h st ks e held.1)
]

cons-AllHeld :
    (h : ℕ) (st : ConnState) (conns : List (ℕ × ConnState)) (hs : List ℕ)
    → AllHeld conns hs
    → AllHeld ((h, st) ∷ conns) hs
unfolding Map.get
cons-AllHeld h st conns [] held = tt
cons-AllHeld h st conns (k ∷ ks) ((found, e), held) = (
  elim (Bool-cases (k == h)) [ inl b ↦ (st, ground arith) | inr b ↦ (found, ground arith) ],
  cons-AllHeld h st conns ks held,
)

sorted_keys-AllHeld : (conns : List (ℕ × ConnState)) → AllHeld conns (sorted_keys conns)
unfolding sorted_keys Map.get
sorted_keys-AllHeld [] = tt
sorted_keys-AllHeld ((h, st) ∷ conns) =
    insert_key-AllHeld ((h, st) ∷ conns) h st (sorted_keys conns) (rw (==_refl h) refl)
      (cons-AllHeld h st conns (sorted_keys conns) (sorted_keys-AllHeld conns))

module _ (db : Lmdb) (masks : Masks) (meta : Option MetaRegistry) where
  open db use {put}

  writeback_keys-some :
      (hs : List ℕ) (m : Matcher db)
      → AllHeld m.conns hs
      → (m' : Matcher db) × (writeback_keys db masks meta hs m ≡ some m')
  unfolding writeback_keys
  writeback_keys-some [] m held = (m, refl)
  writeback_keys-some (h ∷ hs) m ((st, e), held) =
      let now = record st { qr_open = count_live_pending db masks meta h m } in
      let archive : List ConnArchiveEvent =
        if is_terminal now.state
        then record {
          conn_hash = h;
          first_ts = now.first_ts;
          last_ts = now.last_ts;
          state = now.state;
        }
          ∷ []
        else [] in
      let next = record m {
        live_conn_state = put m.live_conn_state (k_conn_state h) (State.to_bytes now);
        conn_archives = m.conn_archives ++ archive;
      } in
      let (m', done) = writeback_keys-some hs next held in (m', rw (writeback_keys, e) done)

  pub commit-some :
      (m : Matcher db)
      → (done : Matcher db × List AnomalyEvent × List ConnArchiveEvent) × (commit db masks meta m
          ≡ some done)
  unfolding commit writeback_conns
  commit-some m =
      let (m', e) = writeback_keys-some (sorted_keys m.conns) m (sorted_keys-AllHeld m.conns) in
      ((m', m'.anomalies, m'.conn_archives), rw (commit, e) refl)
