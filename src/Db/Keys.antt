-- ===== src/Db/Keys.antt =====
-- src/db.rs: the keys of the tables, in big-endian bytes, and the order in which LMDB keeps them.
pub mod Order
use sov_vault.Base.{ℕ, List, [], ◌∷◌}
use sov_vault.Bytes.{to_be_bytes, concat}

unfoldable pub k_conn_state : ℕ → List ℕ
k_conn_state conn_hash = to_be_bytes 8 conn_hash

unfoldable pub k_qr_pair : ℕ → List ℕ
k_qr_pair q_first_idx = to_be_bytes 8 q_first_idx

unfoldable pub k_qr_pending : ℕ → ℕ → ℕ → List ℕ
k_qr_pending conn_hash incarnation abs_q_end =
    concat (to_be_bytes 8 conn_hash ∷ to_be_bytes 2 incarnation ∷ to_be_bytes 6 abs_q_end ∷ []) []

unfoldable pub k_qr_pending_prefix : ℕ → ℕ → List ℕ
k_qr_pending_prefix conn_hash incarnation =
    concat (to_be_bytes 8 conn_hash ∷ to_be_bytes 2 incarnation ∷ []) []

unfoldable pub k_conn_qr : ℕ → ℕ → ℕ → List ℕ
k_conn_qr conn_hash q_ts q_first_idx =
    concat (to_be_bytes 8 conn_hash ∷ to_be_bytes 8 q_ts ∷ to_be_bytes 8 q_first_idx ∷ []) []

unfoldable pub k_qr_key : ℕ → ℕ → ℕ → List ℕ
unfolding k_conn_qr
k_qr_key reqkey_hash q_ts q_first_idx = k_conn_qr reqkey_hash q_ts q_first_idx

unfoldable pub k_qr_time : ℕ → ℕ → List ℕ
k_qr_time q_ts q_first_idx = concat (to_be_bytes 8 q_ts ∷ to_be_bytes 8 q_first_idx ∷ []) []

unfoldable pub k_packet_qr : ℕ → List ℕ
k_packet_qr packet_idx = to_be_bytes 8 packet_idx

unfoldable pub k_pending_ttl : ℕ → ℕ → List ℕ
k_pending_ttl q_ts conn_hash = concat (to_be_bytes 8 q_ts ∷ to_be_bytes 8 conn_hash ∷ []) []

unfoldable pub k_record_ts : ℕ → ℕ → List ℕ
k_record_ts ts_ns packet_idx = concat (to_be_bytes 8 ts_ns ∷ to_be_bytes 8 packet_idx ∷ []) []
