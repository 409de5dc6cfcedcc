-- ===== src/Connection/Flags.antt =====
-- src/connection.rs: the activation bits of the two streams in `dir_flags`.
use Prim.Native.Nat.{bit_and, bit_or}
use sov_vault.Base.{
  ℕ, zero, suc, ◌-◌, ◌<◌, ltb, ltb→lt, ◌≡◌, refl, Bool, true, false, not, ◌&&◌, arith, ◌==◌,
  if◌then◌else◌,
}
use sov_vault.Connection.State.{ConnState}

unfoldable pub active_c : ConnState → Bool
active_c s = not (bit_and s.dir_flags 1 == 0)

unfoldable pub active_s : ConnState → Bool
active_s s = not (bit_and s.dir_flags 2 == 0)

-- `!1` and `!2` of a u8.
unfoldable pub set_active_c : Bool → ConnState → ConnState
set_active_c a s = record s {
  dir_flags = if a then bit_or s.dir_flags 1 else bit_and s.dir_flags (255 - 1);
}

unfoldable pub set_active_s : Bool → ConnState → ConnState
set_active_s a s = record s {
  dir_flags = if a then bit_or s.dir_flags 2 else bit_and s.dir_flags (255 - 2);
}

bool_eq : Bool → Bool → Bool
bool_eq true b = b
bool_eq false b = not b

bool_eq_sound : (a b : Bool) → bool_eq a b ≡ true → a ≡ b
unfolding bool_eq
bool_eq_sound a b h = ground arith

-- Whether every flag byte under the bound passes.
each_byte : (ℕ → Bool) → ℕ → Bool
each_byte test zero = true
each_byte test (suc top) = let lower = each_byte test top in if test top then lower else false

each_byte_sound :
    (test : ℕ → Bool) (top flags : ℕ) → flags < top → each_byte test top ≡ true → test flags ≡ true
unfolding each_byte
each_byte_sound test zero flags under passed = absurd (omega arith)
each_byte_sound test (suc top) flags under passed = ground (arith, each_byte_sound test top flags)

bit : ℕ → ℕ → Bool
bit d m = not (bit_and d m == 0)

write : Bool → ℕ → ℕ → ℕ
write a m d = if a then bit_or d m else bit_and d (255 - m)

-- Writing the bit `m` sets it to `a`, and leaves the bit `o` and the byte's range alone.
writes : Bool → ℕ → ℕ → ℕ → Bool
unfolding bit write bool_eq
writes a m o d =
    bool_eq (bit (write a m d) m) a
    && bool_eq (bit (write a m d) o) (bit d o)
    && ltb (write a m d) 256

writes-table :
    (a : Bool) → (each_byte (writes a 1 2) 256 ≡ true) × (each_byte (writes a 2 1) 256 ≡ true)
unfolding each_byte writes
writes-table true = (refl, refl)
writes-table false = (refl, refl)

and_parts : (a b c : Bool) → a && b && c ≡ true → (a ≡ true) × (b ≡ true) × (c ≡ true)
and_parts a b c h = ground arith

writes_parts :
    (a : Bool) (m o d : ℕ)
    → writes a m o d ≡ true
    → (bit (write a m d) m ≡ a) × (bit (write a m d) o ≡ bit d o) × (write a m d < 256)
unfolding writes
writes_parts a m o d h =
    let parts = and_parts _ _ _ h in
    (bool_eq_sound _ _ parts.0, bool_eq_sound _ _ parts.1, ltb→lt _ _ parts.2)

-- For a flag byte below 256, each activation bit reads back as it was last written, and writing
-- one leaves the other and the byte's range alone.
pub dir_flags_lem :
    (s : ConnState) (a : Bool)
    → s.dir_flags < 256
    → (active_c (set_active_c a s) ≡ a)
      × (active_s (set_active_c a s) ≡ active_s s)
      × ((set_active_c a s).dir_flags < 256)
      × (active_s (set_active_s a s) ≡ a)
      × (active_c (set_active_s a s) ≡ active_c s)
      × ((set_active_s a s).dir_flags < 256)
unfolding active_c active_s set_active_c set_active_s bit write
dir_flags_lem s a h =
    let d = s.dir_flags in
    let c = writes_parts a 1 2 d (each_byte_sound (writes a 1 2) 256 d h (writes-table a).0) in
    let r = writes_parts a 2 1 d (each_byte_sound (writes a 2 1) 256 d h (writes-table a).1) in
    (c.0, c.1, c.2, r.0, r.1, r.2)
