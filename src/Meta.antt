-- ===== src/Meta.antt =====
-- src/meta.rs: kinds of protocol, the tests of their headers, and the detection of a payload's
-- protocol. Floating-point numbers are their bits, with the operations of IEEE 754 as parameters.
pub mod Extract
pub mod Reads
pub mod Cursor
pub mod Registry
pub mod Dns
pub mod Sni
pub mod Total
pub mod Panic
pub mod Line
use Prim.Native.Nat.{bit_and}
use sov_vault.Base.{
  ℕ, zero, suc, ◌+◌, ◌≤◌, Bool, true, false, not, ◌&&◌, ◌||◌, List, [], ◌∷◌, Option, none, some,
  length, ltb, leb, ◌==◌, if◌then◌else◌,
}
use sov_vault.Bytes.{from_be_bytes}
use sov_vault.Store.{bytes_eq}
use sov_vault.Matcher.Types.{take, Fingerprint}

pub data ProtocolKind : Type 0 where
  unknown http tls dns json binary : ProtocolKind

-- `kind as u8`.
unfoldable pub to_u8 : ProtocolKind → ℕ
to_u8 ProtocolKind.unknown = 0
to_u8 ProtocolKind.http = 1
to_u8 ProtocolKind.tls = 2
to_u8 ProtocolKind.dns = 3
to_u8 ProtocolKind.json = 4
to_u8 ProtocolKind.binary = 5

unfoldable pub from_u8 : ℕ → ProtocolKind
from_u8 v =
    if v == 1
    then ProtocolKind.http
    else if v == 2
    then ProtocolKind.tls
    else if v == 3
    then ProtocolKind.dns
    else if v == 4
    then ProtocolKind.json
    else if v == 5
    then ProtocolKind.binary
    else ProtocolKind.unknown

-- A text is the list of its bytes.
unfoldable pub name : ProtocolKind → List ℕ
name ProtocolKind.unknown = b'u' ∷ b'n' ∷ b'k' ∷ b'n' ∷ b'o' ∷ b'w' ∷ b'n' ∷ []
name ProtocolKind.http = b'h' ∷ b't' ∷ b't' ∷ b'p' ∷ []
name ProtocolKind.tls = b't' ∷ b'l' ∷ b's' ∷ []
name ProtocolKind.dns = b'd' ∷ b'n' ∷ b's' ∷ []
name ProtocolKind.json = b'j' ∷ b's' ∷ b'o' ∷ b'n' ∷ []
name ProtocolKind.binary = b'b' ∷ b'i' ∷ b'n' ∷ b'a' ∷ b'r' ∷ b'y' ∷ []

-- `str::to_ascii_lowercase`.
unfoldable pub to_ascii_lowercase : List ℕ → List ℕ
to_ascii_lowercase [] = []
to_ascii_lowercase (c ∷ cs) =
    (if leb b'A' c && leb c b'Z' then c + 32 else c) ∷ to_ascii_lowercase cs

unfoldable pub from_fingerprint : List ℕ → Option ProtocolKind
unfolding to_ascii_lowercase name
from_fingerprint text =
    let s = to_ascii_lowercase text in
    if bytes_eq s (name ProtocolKind.http)
    then some ProtocolKind.http
    else if bytes_eq s (name ProtocolKind.tls)
    then some ProtocolKind.tls
    else if bytes_eq s (name ProtocolKind.dns)
    then some ProtocolKind.dns
    else if bytes_eq s (name ProtocolKind.json)
    then some ProtocolKind.json
    else if bytes_eq s (name ProtocolKind.binary)
    then some ProtocolKind.binary
    else none

abbrev pub entropy_sample : ℕ
entropy_sample = 64

abbrev pub magic_max : ℕ
magic_max = 4

unfoldable pub is_tls_record : List ℕ → Bool
is_tls_record (b0 ∷ b1 ∷ b2 ∷ b3 ∷ b4 ∷ rest) = (b0 == 0x16) && (b1 == 0x03)
is_tls_record _ = false

unfoldable pub is_dns_header : List ℕ → Bool
is_dns_header (b0 ∷ b1 ∷ flags ∷ b3 ∷ b4 ∷ b5 ∷ b6 ∷ b7 ∷ b8 ∷ b9 ∷ b10 ∷ b11 ∷ rest) =
    let qd = from_be_bytes (b4 ∷ b5 ∷ []) in
    let ar = from_be_bytes (b10 ∷ b11 ∷ []) in
    (not (bit_and flags 0x80 == 0) || not (bit_and flags 0x01 == 0))
    && (bit_and flags 0x78 == 0)
    && (leb 1 qd && leb qd 16)
    && leb ar 16
is_dns_header _ = false

unfoldable pub starts_with : List ℕ → List ℕ → Bool
starts_with xs [] = true
starts_with [] (y ∷ ys) = false
starts_with (x ∷ xs) (y ∷ ys) = (x == y) && starts_with xs ys

abbrev methods : List (List ℕ)
methods =
    (b'G' ∷ b'E' ∷ b'T' ∷ b' ' ∷ [])
    ∷ (b'P' ∷ b'O' ∷ b'S' ∷ b'T' ∷ b' ' ∷ [])
    ∷ (b'P' ∷ b'U' ∷ b'T' ∷ b' ' ∷ [])
    ∷ (b'D' ∷ b'E' ∷ b'L' ∷ b'E' ∷ b'T' ∷ b'E' ∷ b' ' ∷ [])
    ∷ (b'H' ∷ b'E' ∷ b'A' ∷ b'D' ∷ b' ' ∷ [])
    ∷ (b'O' ∷ b'P' ∷ b'T' ∷ b'I' ∷ b'O' ∷ b'N' ∷ b'S' ∷ b' ' ∷ [])
    ∷ (b'P' ∷ b'A' ∷ b'T' ∷ b'C' ∷ b'H' ∷ b' ' ∷ [])
    ∷ (b'T' ∷ b'R' ∷ b'A' ∷ b'C' ∷ b'E' ∷ b' ' ∷ [])
    ∷ []

-- `METHODS.iter().any(..)`.
unfoldable pub any_prefix : List ℕ → List (List ℕ) → Bool
unfolding starts_with
any_prefix b [] = false
any_prefix b (m ∷ ms) = starts_with b m || any_prefix b ms

unfoldable pub is_http_magic : List ℕ → Bool
unfolding any_prefix starts_with take
is_http_magic b =
    any_prefix (take 8 b) methods
    || starts_with b (b'H' ∷ b'T' ∷ b'T' ∷ b'P' ∷ b'/' ∷ b'1' ∷ b'.' ∷ [])

-- Numbers of type f64 as their bits, 0.0 being 0, with the operations that the entropy takes.
pub record Floats : Type 0 where
  pub of_int : ℕ → ℕ
  pub sub : ℕ → ℕ → ℕ
  pub mul : ℕ → ℕ → ℕ
  pub div : ℕ → ℕ → ℕ
  pub log2 : ℕ → ℕ
  pub gt : ℕ → ℕ → Bool

-- `counts[b]` after the loop over the bytes.
unfoldable pub count_of : ℕ → List ℕ → ℕ
count_of b [] = 0
count_of b (x ∷ xs) = (if x == b then 1 else 0) + count_of b xs

-- `payload.first() == Some(&b'{')`.
unfoldable pub is_json : List ℕ → Bool
is_json [] = false
is_json (b ∷ bs) = b == b'{'

module _ (floats : Floats) where
  open floats use {of_int, sub, mul, div, log2, gt}

  -- The loop over `counts`, from the count of `b` on.
  unfoldable pub sum_entropy : ℕ → ℕ → List ℕ → ℕ → ℕ
  unfolding count_of
  sum_entropy zero b bytes h = h
  sum_entropy (suc left) b bytes h =
      let c = count_of b bytes in
      let p = div (of_int c) (of_int (length bytes)) in
      sum_entropy left (b + 1) bytes (if c == 0 then h else sub h (mul p (log2 p)))

  unfoldable pub shannon_entropy : List ℕ → ℕ
  unfolding sum_entropy
  shannon_entropy [] = 0
  shannon_entropy (b ∷ bs) = sum_entropy 256 0 (b ∷ bs) 0

  unfoldable pub fingerprint : List ℕ → Fingerprint
  unfolding take shannon_entropy is_tls_record is_dns_header
  fingerprint payload = record {
    magic_prefix = take magic_max payload;
    entropy = shannon_entropy (take entropy_sample payload);
    has_fixed_header = is_tls_record payload || is_dns_header payload;
  }

  -- 0x4010_0000_0000_0000 are the bits of 4.0.
  unfoldable pub detect_protocol : List ℕ → ℕ → ProtocolKind
  unfolding is_tls_record is_http_magic is_dns_header is_json shannon_entropy
  detect_protocol payload dst_port =
      if is_tls_record payload
      then ProtocolKind.tls
      else if is_http_magic payload
      then ProtocolKind.http
      else if is_dns_header payload
      then ProtocolKind.dns
      else if is_json payload
      then ProtocolKind.json
      else if dst_port == 443 || dst_port == 8443
      then ProtocolKind.tls
      else if dst_port == 53
      then ProtocolKind.dns
      else if dst_port == 80 || dst_port == 8080
      then ProtocolKind.http
      else if leb 16 (length payload) && gt (shannon_entropy payload) 0x4010_0000_0000_0000
      then ProtocolKind.binary
      else ProtocolKind.unknown
