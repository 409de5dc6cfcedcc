-- ===== src/Connection/Kind.antt =====
-- src/connection.rs: the state of a connection, the masks of `anomaly_flags`, and which states end it
-- (`is_terminal` of src/qr.rs).
use sov_vault.Base.{ℕ, ◌^◌, Bool, ◌||◌, ◌==◌}

pub data ConnStateKind : Type 0 where
  syn_sent syn_rcvd established closed reset timeout half_open quarantined : ConnStateKind

-- `kind as u8`.
unfoldable pub to_u8 : ConnStateKind → ℕ
to_u8 syn_sent = 0
to_u8 syn_rcvd = 1
to_u8 established = 2
to_u8 closed = 3
to_u8 reset = 4
to_u8 timeout = 5
to_u8 half_open = 6
to_u8 quarantined = 7

-- The masks that the engine sets.
abbrev pub flag_reset : ℕ
flag_reset = 2 ^ 1

abbrev pub flag_half_open : ℕ
flag_half_open = 2 ^ 2

abbrev pub flag_qr_unmatched : ℕ
flag_qr_unmatched = 2 ^ 3

abbrev pub flag_syn_seen : ℕ
flag_syn_seen = 2 ^ 4

abbrev pub flag_fin_seen : ℕ
flag_fin_seen = 2 ^ 5

abbrev pub flag_retrans : ℕ
flag_retrans = 2 ^ 7

abbrev pub flag_seq_gap : ℕ
flag_seq_gap = 2 ^ 8

unfoldable pub is_terminal : ℕ → Bool
unfolding to_u8
is_terminal state =
    (state == to_u8 closed)
    || (state == to_u8 reset)
    || (state == to_u8 timeout)
    || (state == to_u8 quarantined)
