-- ===== src/Stream.antt =====
-- src/qr.rs, SeqStream: the translator from 32-bit wire sequence numbers to 64-bit absolute ones.
-- Sums and differences wrap as `wrapping_add` and `wrapping_sub` do.
pub mod Track
pub mod First
use sov_vault.Base.{
  ℕ, suc, ◌+◌, ◌-◌, ◌%◌, ◌^◌, ◌≡◌, Bool, true, false, not, ◌||◌, List, [], ◌∷◌, ltb, ◌==◌,
  if◌then◌else◌,
}
use sov_vault.Connection.Signed.{ℤ, pos, negsuc, is_negative}

pub record SeqStream : Type 0 where
  pub last_raw : ℕ
  pub last_abs : ℕ
  pub active : Bool

-- `as i32` of a u32.
abbrev pub to_i32 : ℕ → ℤ
to_i32 w = if ltb w (2 ^ 31) then pos w else negsuc (2 ^ 32 - 1 - w)

abbrev pub wrapping_sub32 : ℕ → ℕ → ℕ
wrapping_sub32 a b = (a + 2 ^ 32 - b) % 2 ^ 32

abbrev pub is_positive : ℤ → Bool
is_positive (pos n) = ltb 0 n
is_positive (negsuc n) = false

-- `as u64` of a positive i32.
abbrev pub magnitude : ℤ → ℕ
magnitude (pos n) = n
magnitude (negsuc n) = suc n

unfoldable pub reset_baseline : ℕ → SeqStream
reset_baseline isin = record { last_raw = isin; last_abs = isin; active = true }

unfoldable pub diff : SeqStream → ℕ → ℤ
diff s raw = to_i32 (wrapping_sub32 raw s.last_raw)

unfoldable pub abs_of : SeqStream → ℕ → ℕ
unfolding diff
abs_of s raw =
    if not s.active
    then raw
    else if is_positive (diff s raw)
    then (s.last_abs + magnitude (diff s raw)) % 2 ^ 64
    else s.last_abs

-- The new stream, and the absolute start and the length of the data that is new.
unfoldable pub feed_packet : SeqStream → ℕ → ℕ → SeqStream × ℕ × ℕ
unfolding reset_baseline diff
feed_packet s seq wire_len =
    if not s.active
    then (reset_baseline seq, seq, wire_len)
    else (let d = diff s seq in
        let end_raw = (seq + wire_len) % 2 ^ 32 in
        if is_positive d
        then (let abs_start = (s.last_abs + magnitude d) % 2 ^ 64 in
            (
              record s { last_raw = end_raw; last_abs = (abs_start + wire_len) % 2 ^ 64 },
              abs_start,
              wire_len,
            ))
        else (let new_len = wrapping_sub32 end_raw s.last_raw in
            if (new_len == 0) || is_negative (to_i32 new_len) then (s, s.last_abs, 0) else (
              record s { last_raw = end_raw; last_abs = (s.last_abs + new_len) % 2 ^ 64 },
              s.last_abs,
              new_len,
            )))
