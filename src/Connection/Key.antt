-- ===== src/Connection/Key.antt =====
-- src/connection.rs: the key of a connection and its FNV-1a hash.
use Prim.Native.Nat.{bit_xor}
use sov_vault.Base.{
  ℕ, ◌*◌, ◌%◌, ◌^◌, ◌<◌, ◌≡◌, ap, List, [], ◌∷◌, some, arith, length, length-append,
}
use sov_vault.Bytes.{
  to_be_bytes, length-to_be_bytes, Reader, ◌>>=◌, pure, take_uint, take-put_uint, concat, value_of,
}

abbrev pub fnv_offset : ℕ
fnv_offset = 0xcbf2_9ce4_8422_2325

abbrev pub fnv_prime : ℕ
fnv_prime = 0x0000_0100_0000_01b3

fnv_from : ℕ → List ℕ → ℕ
fnv_from h [] = h
fnv_from h (b ∷ bs) = fnv_from (bit_xor h b * fnv_prime % 2 ^ 64) bs

unfoldable pub fnv1a64 : List ℕ → ℕ
unfolding fnv_from
fnv1a64 bytes = fnv_from fnv_offset bytes

unfoldable pub conn_key_bytes : ℕ → ℕ → ℕ → ℕ → ℕ → ℕ → List ℕ
conn_key_bytes dev_id client_ip client_port server_ip server_port proto =
    concat
      (to_be_bytes 4 dev_id
        ∷ to_be_bytes 4 client_ip
        ∷ to_be_bytes 2 client_port
        ∷ to_be_bytes 4 server_ip
        ∷ to_be_bytes 2 server_port
        ∷ to_be_bytes 1 proto
        ∷ [])
      []

unfoldable pub conn_hash : ℕ → ℕ → ℕ → ℕ → ℕ → ℕ → ℕ
conn_hash dev_id client_ip client_port server_ip server_port proto =
    fnv1a64 (conn_key_bytes dev_id client_ip client_port server_ip server_port proto)

fnv_from-lt : (h : ℕ) (bs : List ℕ) → h < 2 ^ 64 → fnv_from h bs < 2 ^ 64
unfolding fnv_from
fnv_from-lt h [] lt = lt
fnv_from-lt h (b ∷ bs) lt = fnv_from-lt (bit_xor h b * fnv_prime % 2 ^ 64) bs (omega arith)

-- The hash is a u64.
pub conn_hash-lt : (d ci cp si sp p : ℕ) → conn_hash d ci cp si sp p < 2 ^ 64
unfolding conn_hash fnv1a64
conn_hash-lt d ci cp si sp p = fnv_from-lt fnv_offset (conn_key_bytes d ci cp si sp p) (omega arith)

-- What a connection is known by.
pub record Tuple : Type 0 where
  pub dev_id : ℕ
  pub client_ip : ℕ
  pub client_port : ℕ
  pub server_ip : ℕ
  pub server_port : ℕ
  pub proto : ℕ

pub record FitsTuple (t : Tuple) : Type 0 where
  pub dev_id : t.dev_id < 2 ^ 32
  pub client_ip : t.client_ip < 2 ^ 32
  pub client_port : t.client_port < 2 ^ 16
  pub server_ip : t.server_ip < 2 ^ 32
  pub server_port : t.server_port < 2 ^ 16
  pub proto : t.proto < 2 ^ 8

abbrev pub key_of : Tuple → List ℕ
key_of t = conn_key_bytes t.dev_id t.client_ip t.client_port t.server_ip t.server_port t.proto

read_key : Reader Tuple
read_key = do
  d ← take_uint 4
  ci ← take_uint 4
  cp ← take_uint 2
  si ← take_uint 4
  sp ← take_uint 2
  p ← take_uint 1
  pure (record {
    dev_id = d;
    client_ip = ci;
    client_port = cp;
    server_ip = si;
    server_port = sp;
    proto = p;
  })

read_key_lem : (t : Tuple) → FitsTuple t → value_of read_key (key_of t) ≡ some t
unfolding read_key conn_key_bytes
read_key_lem t h = simp (
  ◌>>=◌,
  take-put_uint 4 t.dev_id _ h.dev_id,
  take-put_uint 4 t.client_ip _ h.client_ip,
  take-put_uint 2 t.client_port _ h.client_port,
  take-put_uint 4 t.server_ip _ h.server_ip,
  take-put_uint 2 t.server_port _ h.server_port,
  take-put_uint 1 t.proto _ h.proto,
  value_of,
)

-- The key that is hashed has 17 bytes, and two connections with fields in range that have one key
-- are the same field for field.
pub conn_key_bytes-injective :
    (t u : Tuple)
    → FitsTuple t
    → FitsTuple u
    → key_of t ≡ key_of u
    → (length (key_of t) ≡ 17) × (t ≡ u)
conn_key_bytes-injective t u ht hu e = (
  unfold conn_key_bytes in simp (length-append, length-to_be_bytes),
  cc (read_key_lem t ht, read_key_lem u hu, ap (value_of read_key) e),
)
