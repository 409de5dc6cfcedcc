-- ===== src/Meta/Total.antt =====
-- src/meta.rs: where the keys of requests are read without a panic, and where not.
use Prim.Native.Nat.{bit_and}
use sov_vault.Base.{
  ℕ, zero, suc, ◌+◌, ◌*◌, ◌^◌, ◌≤◌, ◌<◌, ◌≡◌, ◌≢◌, ◌↔◌, refl, Bool, true, false, not, List, [], ◌∷◌,
  ◌++◌, Option, none, some, arith, length, ltb, leb, ◌==◌, if◌then◌else◌, Option-cases, Bool-cases,
  inl, inr, split_at?,
}
use sov_vault.Meta.{ProtocolKind}
use sov_vault.Meta.Reads.{split_at?-bound, split_at?-none, slice-bound}
use sov_vault.Meta.Extract.{
  slice, byte_at, u16_at, server_name, scan_extensions, client_hello, ◌>>=◌, handshake, tls_sni,
  scan_labels, dns_qname, extract_key,
}

-- The code neither panics nor runs out of fuel.
abbrev pub Returns {ℓ} : {A : Type ℓ} → Option A → Type ℓ
Returns {A = A} o = (x : A) × (o ≡ some x)

returns {ℓ} : {A : Type ℓ} (o : Option A) → o ≢ none → Returns o
returns o ne = elim (Option-cases o) [ inr found ↦ found | inl e ↦ absurd (ne e) ]

-- Where a chain of reads has no result, one of its ends has none.
bind-none {ℓ κ} :
    {A : Type ℓ} {B : Type κ} (m : Option A) {f : A → Option (Option B)}
    → m >>= f ≡ none
    → (a : A) × (m ≡ some a) × (f a ≡ none)
bind-none none h = absurd (ground arith)
bind-none (some a) h = (a, refl, h)

if-none {ℓ} :
    {A : Type ℓ} (c : Bool) {x y : Option A} → (if c then x else y) ≡ none → x ≢ none → y ≡ none
if-none true h ne = absurd (ne h)
if-none false h ne = h

scan_extensions-none :
    (fuel : ℕ) (body : List ℕ) (last e : ℕ)
    → 0 < fuel
    → last < fuel + e
    → scan_extensions fuel body last e ≢ none
unfolding scan_extensions
scan_extensions-none zero body last e p h stuck = absurd (omega arith)
scan_extensions-none (suc fuel) body last e p h stuck = elim (Bool-cases (leb (e + 4) last)) [
  | inr b ↦ absurd (ground arith)
  | inl b ↦
      let (etype, e1, s1) = bind-none (u16_at e body) (rw (scan_extensions, b) at stuck) in
      let (elen, e2, s2) = bind-none (u16_at (e + 2) body) s1 in
      let ih = scan_extensions-none fuel body last (e + 4 + elen) (ground arith) (ground arith) in
      ih (
        if-none (etype == 0) s2 λ found.
          let (host, e3, s3) = bind-none (server_name body (e + 4) elen) found in ih (ground arith))
]

client_hello-none : (body : List ℕ) → client_hello body ≢ none
unfolding client_hello
client_hello-none body stuck =
    let (version, e0, s0) = bind-none (slice 0 2 body) stuck in
    let (major, e1, s1) = bind-none (byte_at 0 version) s0 in
    let known = if-none (not (major == 0x03)) s1 (λ e. absurd (ground arith)) in
    let (sid_len, e2, s2) = bind-none (byte_at 34 body) known in
    let (cs_len, e3, s3) = bind-none (u16_at (34 + (1 + sid_len)) body) s2 in
    let (cm_len, e4, s4) = bind-none (byte_at (34 + (1 + sid_len) + (2 + cs_len)) body) s3 in
    let o = 34 + (1 + sid_len) + (2 + cs_len) + (1 + cm_len) in
    let (ext_total, e5, s5) = bind-none (u16_at o body) s4 in
    scan_extensions-none (ext_total + 1) body (o + 2 + ext_total) (o + 2) (omega arith)
      (omega arith) s5

handshake_iff : (hs : List ℕ) → (handshake hs ≡ none) ↔ (length hs < 4)
unfolding handshake
handshake_iff [] = ground arith
handshake_iff (t ∷ []) = ground arith
handshake_iff (t ∷ l1 ∷ []) = ground arith
handshake_iff (t ∷ l1 ∷ l2 ∷ []) = ground arith
handshake_iff (t ∷ l1 ∷ l2 ∷ l3 ∷ rest) = (
  λ stuck.
      let (body, e, more) = bind-none (slice 0 (l1 * 2 ^ 16 + l2 * 2 ^ 8 + l3) rest) stuck in
      absurd (client_hello-none body more),
  λ few. absurd (omega arith),
)

-- The code of tls_sni panics on payloads of five to eight bytes and on no other.
pub tls_sni_iff :
    (payload : List ℕ) → (tls_sni payload ≡ none) ↔ ((5 ≤ length payload) × (length payload < 9))
unfolding tls_sni
tls_sni_iff payload = elim (Option-cases (split_at? 5 payload)) [
  | inl e ↦ ground (arith, split_at?-none 5 payload e)
  | inr ((front, hs), e) ↦ ground (arith, split_at?-bound 5 payload front hs e, handshake_iff hs)
]

scan_labels-none :
    (fuel : ℕ) (payload : List ℕ) (o : ℕ) (out : List ℕ)
    → length payload < fuel + o
    → o ≤ length payload
    → scan_labels fuel payload o out ≢ none
unfolding scan_labels
scan_labels-none zero payload o out h p stuck = absurd (omega arith)
scan_labels-none (suc fuel) payload o out h p stuck =
    let (l, e1, s1) = bind-none (byte_at o payload) stuck in
    let more = if-none (l == 0) s1 (λ e. absurd (ground arith)) in
    let plain = if-none (bit_and l 0xC0 == 0xC0) more (λ e. absurd (ground arith)) in
    let short = if-none (ltb 63 l) plain (λ e. absurd (ground arith)) in
    let (label, e2, s2) = bind-none (slice (o + 1) l payload) short in
    let out' = (if length out == 0 then [] else out ++ b'.' ∷ []) ++ label in
    scan_labels-none fuel payload (o + 1 + l) out' (omega arith)
      (omega (arith, slice-bound (o + 1) l payload label e2))
      (if-none (ltb 255 (length out')) s2 (λ e. absurd (ground arith)))

dns_qname-Returns : (payload : List ℕ) → Returns (dns_qname payload)
unfolding dns_qname
dns_qname-Returns payload =
    returns _ λ stuck. ground (arith, scan_labels-none (length payload) payload 12 [])

-- A payload's key by its kind of protocol: the code panics exactly for TLS on five to eight bytes.
pub extract_key_iff :
    (payload : List ℕ) (kind : ProtocolKind)
    → (extract_key payload kind ≡ none)
      ↔ ((kind ≡ ProtocolKind.tls) × (5 ≤ length payload) × (length payload < 9))
unfolding extract_key
extract_key_iff payload ProtocolKind.http = ground arith
extract_key_iff payload ProtocolKind.tls = ground (arith, tls_sni_iff payload)
extract_key_iff payload ProtocolKind.dns = ground (arith, dns_qname-Returns payload)
extract_key_iff payload ProtocolKind.unknown = ground arith
extract_key_iff payload ProtocolKind.json = ground arith
extract_key_iff payload ProtocolKind.binary = ground arith
