-- ===== src/Meta/Extract.antt =====
-- src/meta.rs: the key of a request, read from the head of its payload. The outer option is none
-- where the code panics or where a loop is out of fuel.
use Prim.Native.Nat.{bit_and}
use sov_vault.Base.{
  ℕ, zero, suc, ◌+◌, ◌*◌, ◌^◌, Bool, true, false, not, ◌||◌, List, [], ◌∷◌, ◌++◌, Option, none,
  some, length, split_at?, ltb, leb, ◌==◌, if◌then◌else◌,
}
use sov_vault.Bytes.{to_be_bytes, from_be_bytes}
use sov_vault.Connection.Key.{fnv1a64}
use sov_vault.Matcher.Types.{take}
use sov_vault.Meta.{ProtocolKind, is_dns_header, entropy_sample, magic_max}

-- `b.get(o..o + n)`.
unfoldable pub slice : ℕ → ℕ → List ℕ → Option (List ℕ)
slice o n b = elim (split_at? o b) [
  | none ↦ none
  | some (front, rest) ↦ elim (split_at? n rest) [ none ↦ none | some (x, more) ↦ some x ]
]

-- `b.get(o)`.
unfoldable pub byte_at : ℕ → List ℕ → Option ℕ
byte_at o [] = none
byte_at zero (x ∷ xs) = some x
byte_at (suc o) (x ∷ xs) = byte_at o xs

-- `u16::from_be_bytes(b.get(o..o + 2)?.try_into().ok()?)`.
unfoldable pub u16_at : ℕ → List ℕ → Option ℕ
unfolding slice
u16_at o b = elim (slice o 2 b) [ none ↦ none | some x ↦ some (from_be_bytes x) ]

-- The `?` of an option in the code.
infixl 5 ◌>>=◌
abbrev pub ◌>>=◌ {ℓ κ} :
    {A : Type ℓ} {B : Type κ} → Option A → (A → Option (Option B)) → Option (Option B)
none >>= f = some none
some a >>= f = f a

unfoldable pub pseudo_key : List ℕ → List ℕ × Bool
unfolding take fnv1a64
pseudo_key payload =
    (to_be_bytes 8 (fnv1a64 (take magic_max payload ++ take entropy_sample payload)), true)

-- The first piece of a split at line feeds.
unfoldable pub first_line : List ℕ → List ℕ
first_line [] = []
first_line (b ∷ bs) = let rest = first_line bs in if b == b'\n' then [] else b ∷ rest

-- `line.strip_suffix(b"\r").unwrap_or(line)`.
unfoldable pub strip_cr : List ℕ → List ℕ
strip_cr [] = []
strip_cr (b ∷ []) = if b == b'\r' then [] else b ∷ []
strip_cr (b ∷ c ∷ bs) = b ∷ strip_cr (c ∷ bs)

unfoldable pub http_request_line : List ℕ → Option (List ℕ)
unfolding take strip_cr first_line
http_request_line payload =
    let line = take 256 (strip_cr (first_line payload)) in
    if length line == 0 then none else some line

-- What an extension of type `etype` with the data of `elen` bytes at `e` yields: `none` is the `?`
-- of a read out of range, `some none` goes on to the next extension.
unfoldable pub server_name : List ℕ → ℕ → ℕ → Option (Option (List ℕ))
unfolding slice byte_at u16_at
server_name body e elen = elim (slice e elen body) [
  | none ↦ none
  | some ext ↦ elim (byte_at 2 ext) [
    | none ↦ none
    | some name_type ↦ elim (u16_at 3 ext) [
      | none ↦ none
      | some name_len ↦
          if name_type == 0
          then (elim (slice 5 name_len ext) [
            | none ↦ none
            | some host ↦ if length host == 0 then some none else some (some host)
          ])
          else some none
    ]
  ]
]

-- The loop over the extensions from `e`, which end at `last`.
unfoldable pub scan_extensions : ℕ → List ℕ → ℕ → ℕ → Option (Option (List ℕ))
unfolding u16_at server_name
scan_extensions zero body last e = none
scan_extensions (suc fuel) body last e = elim (leb (e + 4) last) [
  | false ↦ some none
  | true ↦ do
    etype ← u16_at e body
    elen ← u16_at (e + 2) body
    let rest = scan_extensions fuel body last (e + 4 + elen)
    if etype == 0
        then (do
          host ← server_name body (e + 4) elen
          elim host [ some k ↦ some (some k) | none ↦ rest ])
        else rest
]

-- The body of the handshake: past version, random, session, cipher suites and compression methods,
-- the extensions.
unfoldable pub client_hello : List ℕ → Option (Option (List ℕ))
unfolding slice byte_at u16_at scan_extensions
client_hello body = do
  version ← slice 0 2 body
  major ← byte_at 0 version
  if not (major == 0x03) then some none else (do
    sid_len ← byte_at 34 body
    cs_len ← u16_at (34 + (1 + sid_len)) body
    cm_len ← byte_at (34 + (1 + sid_len) + (2 + cs_len)) body
    ext_total ← u16_at (34 + (1 + sid_len) + (2 + cs_len) + (1 + cm_len)) body
    let o = 34 + (1 + sid_len) + (2 + cs_len) + (1 + cm_len) + 2
    scan_extensions (ext_total + 1) body (o + ext_total) o)

-- What follows the record's header: `hs[1]` to `hs[3]` panic where there is none, then
-- `hs.get(4..4 + hs_len)?`.
unfoldable pub handshake : List ℕ → Option (Option (List ℕ))
unfolding slice client_hello
handshake (t ∷ l1 ∷ l2 ∷ l3 ∷ rest) = do
  body ← slice 0 (l1 * 2 ^ 16 + l2 * 2 ^ 8 + l3) rest
  client_hello body
handshake _ = none

unfoldable pub tls_sni : List ℕ → Option (Option (List ℕ))
unfolding handshake
tls_sni payload = elim (split_at? 5 payload) [ none ↦ some none | some (front, hs) ↦ handshake hs ]

-- The loop over the labels from `o`, with `out` so far.
unfoldable pub scan_labels : ℕ → List ℕ → ℕ → List ℕ → Option (Option (List ℕ))
unfolding slice byte_at
scan_labels zero payload o out = none
scan_labels (suc fuel) payload o out = do
  l ← byte_at o payload
  if l == 0
      then some (if length out == 0 then none else some out)
      else if (bit_and l 0xC0 == 0xC0)
      then some none
      else if ltb 63 l
      then some none
      else (do
        label ← slice (o + 1) l payload
        let out' = (if length out == 0 then [] else out ++ b'.' ∷ []) ++ label
        let rest = scan_labels fuel payload (o + 1 + l) out'
        if ltb 255 (length out') then some none else rest)

-- Each round goes on by two bytes at least.
unfoldable pub dns_qname : List ℕ → Option (Option (List ℕ))
unfolding is_dns_header scan_labels
dns_qname payload =
    if not (is_dns_header payload) || ltb (length payload) 12
    then some none
    else scan_labels (length payload) payload 12 []

-- `Some(k)` is the key, `None` the pseudo key.
unfoldable pub key_or_pseudo : List ℕ → Option (List ℕ) → List ℕ × Bool
unfolding pseudo_key
key_or_pseudo payload none = pseudo_key payload
key_or_pseudo payload (some k) = (k, false)

abbrev map_key : List ℕ → Option (Option (List ℕ)) → Option (List ℕ × Bool)
map_key payload none = none
map_key payload (some k) = some (key_or_pseudo payload k)

unfoldable pub extract_key : List ℕ → ProtocolKind → Option (List ℕ × Bool)
unfolding key_or_pseudo http_request_line tls_sni dns_qname pseudo_key
extract_key payload ProtocolKind.http = some (key_or_pseudo payload (http_request_line payload))
extract_key payload ProtocolKind.tls = map_key payload (tls_sni payload)
extract_key payload ProtocolKind.dns = map_key payload (dns_qname payload)
extract_key payload ProtocolKind.unknown = some (pseudo_key payload)
extract_key payload ProtocolKind.json = some (pseudo_key payload)
extract_key payload ProtocolKind.binary = some (pseudo_key payload)
