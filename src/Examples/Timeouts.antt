-- ===== src/Examples/Timeouts.antt =====
-- Runs of the scan of src/anomaly.rs over tables that are lists of rows.
use sov_vault.Base.{ℕ, ◌≡◌, ◌∙◌, refl, ap, List, [], ◌∷◌, some, arith, length, Bool-cases, inl, inr}
use sov_vault.Bytes.{to_be_bytes}
use sov_vault.Db.Keys.{k_qr_pair, k_qr_pending, k_pending_ttl, k_conn_state}
use sov_vault.Db.Pair
use sov_vault.Db.Values.{v_qr_pending_encode, v_pending_ttl_encode}
use sov_vault.Connection.State
use sov_vault.Map
use sov_vault.Store.{list_eq, bytes_eq, bytes_eq_iff}
use sov_vault.Store.Assoc.{assoc}
use sov_vault.Ttl.{Scan, scan_pending_ttl}
use sov_vault.Ttl.Pairs.{Changes}
use sov_vault.Ttl.Window.{Keyed, scan_pending_ttl-pairs}
use sov_vault.Examples.Matching.{conn, waiting_pair}

-- Request 64 of connection 77 was opened at 1000.
abbrev waiting : Scan assoc
waiting = record {
  live_conn_state = (k_conn_state 77, State.to_bytes conn) ∷ [];
  live_qr_pair = (k_qr_pair 64, Pair.encode waiting_pair) ∷ [];
  live_qr_pending = (k_qr_pending 77 3 101, v_qr_pending_encode 64 1000 100) ∷ [];
  live_pending_ttl = (k_pending_ttl 1000 77, v_pending_ttl_encode 64 101) ∷ [];
  epoch_qr_pair = [];
  conn_cache = [];
  events = [];
  stats = record { scanned = 0; timed_out = 0; stale = 0; conns_touched = 0 };
}

length-key : length (k_pending_ttl 1000 77) ≡ 16
unfolding k_pending_ttl to_be_bytes
length-key = refl

waiting-Keyed : Keyed assoc waiting
unfolding Map.get
waiting-Keyed k v e = elim (Bool-cases (bytes_eq k (k_pending_ttl 1000 77))) [
  | inl b ↦ ap length ((bytes_eq_iff k (k_pending_ttl 1000 77)).0 b) ∙ length-key
  | inr b ↦ absurd (ground arith)
]

scan_pending_ttl-pairs_example :
    (s' : Scan assoc) × (scan_pending_ttl assoc 60_000_001_000 60 5 waiting ≡ some s')
    × ((key : List ℕ) → Changes assoc waiting s' key)
scan_pending_ttl-pairs_example =
    scan_pending_ttl-pairs assoc 60_000_001_000 60 5 waiting (omega arith) waiting-Keyed
