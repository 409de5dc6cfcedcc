-- ===== src/Id.antt =====
-- src/id.rs: the packet locator IDX = FILE_ID << 32 | OFFSET, and its big-endian key.
use sov_vault.Base.{
  ℕ, ◌+◌, ◌*◌, ◌/◌, ◌%◌, ◌^◌, ◌<◌, ◌≡◌, ◌↔◌, ◌⊎◌, List, Option, none, some, arith, length, ◌==◌,
  if◌then◌else◌,
}
use sov_vault.Bytes.{to_be_bytes, from_be_bytes, length-to_be_bytes, from-to_be_bytes}

-- The `|` of disjoint bits is a sum.
unfoldable pub encode : ℕ → ℕ → ℕ
encode file_id offset = file_id * 2 ^ 32 + offset

unfoldable pub decode : ℕ → ℕ × ℕ
decode idx = (idx / 2 ^ 32 % 2 ^ 32, idx % 2 ^ 32)

unfoldable pub to_bytes : ℕ → List ℕ
to_bytes idx = to_be_bytes 8 idx

unfoldable pub from_bytes : List ℕ → Option ℕ
from_bytes b = if length b == 8 then some (from_be_bytes b) else none

-- A file id and an offset below 2^32, packed into a locator and stored as a key, come back from
-- the key's bytes.
pub from_bytes-to_bytes-decode :
    (file_id offset : ℕ)
    → file_id < 2 ^ 32
    → offset < 2 ^ 32
    → (from_bytes (to_bytes (encode file_id offset)) ≡ some (encode file_id offset))
      × (decode (encode file_id offset) ≡ (file_id, offset))
unfolding encode decode to_bytes from_bytes
from_bytes-to_bytes-decode file_id offset hf ho =
    let idx : ℕ = file_id * 2 ^ 32 + offset in
    (rw (length-to_be_bytes 8 idx) (rw (from-to_be_bytes 8 idx (omega arith))), ground arith)

-- For offsets below 2^32, the order of locators is that of the files, then of the offsets.
pub encode_mono :
    (f o g p : ℕ)
    → o < 2 ^ 32
    → p < 2 ^ 32
    → (encode f o < encode g p) ↔ ((f < g) ⊎ ((f ≡ g) × (o < p)))
unfolding encode
encode_mono f o g p ho hp = grind arith
