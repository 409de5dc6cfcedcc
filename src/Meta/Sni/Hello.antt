-- ===== src/Meta/Sni/Hello.antt =====
-- src/meta.rs: tls_sni on a ClientHello that is written as RFC 8446 has it.
use sov_vault.Base.{
  ℕ, ◌+◌, ◌*◌, ◌^◌, ◌≤◌, ◌<◌, ◌≡◌, ◌∙◌, refl, sym, List, [], ◌∷◌, ◌++◌, some, arith, length,
  length-append,
}
use sov_vault.Bytes.{to_be_bytes, length-to_be_bytes}
use sov_vault.Meta.Extract.{
  slice, byte_at, u16_at, scan_extensions, client_hello, handshake, tls_sni,
}
use sov_vault.Meta.Sni.{
  Extension, extensions_bytes, AreOther, host_data, extensions-length, scan_extensions-host,
}
use sov_vault.Meta.Cursor.{
  Stands-to, Stands-start, Stands-skip, Stands-next, Stands-u16, byte_at-Stands, u16_at-Stands,
  slice-Stands,
}

-- A ClientHello that names a host, and what follows in it.
pub record ClientHello : Type 0 where
  pub minor : ℕ
  pub random : List ℕ
  pub session : List ℕ
  pub ciphers : List ℕ
  pub compression : List ℕ
  pub before : List Extension
  pub list_hi : ℕ
  pub list_lo : ℕ
  pub host : List ℕ
  pub more : List ℕ
  pub tail : List ℕ

-- The extension server_name and what comes behind it.
abbrev pub host_extension : ClientHello → List ℕ
host_extension c =
    let d = host_data c.list_hi c.list_lo c.host c.more in
    to_be_bytes 2 0 ++ (to_be_bytes 2 (length d) ++ (d ++ c.tail))

abbrev pub extensions_of : ClientHello → List ℕ
extensions_of c = extensions_bytes c.before (host_extension c)

abbrev pub hello_bytes : ClientHello → List ℕ
hello_bytes c =
    (3 ∷ c.minor ∷ [])
    ++ (c.random
        ++ (length c.session
            ∷ (c.session
                ++ (to_be_bytes 2 (length c.ciphers)
                    ++ (c.ciphers
                        ++ (length c.compression
                            ∷ (c.compression
                                ++ (to_be_bytes 2 (length (extensions_of c))
                                    ++ extensions_of c))))))))

pub record FitsHello (c : ClientHello) : Type 0 where
  pub random : length c.random ≡ 32
  pub session : length c.session < 2 ^ 8
  pub ciphers : length c.ciphers < 2 ^ 16
  pub compression : length c.compression < 2 ^ 8
  pub before : AreOther c.before
  pub host : 0 < length c.host
  pub extensions : length (extensions_of c) < 2 ^ 16

length-extensions_bytes :
    (xs : List Extension) (rest : List ℕ)
    → length (extensions_bytes xs rest) ≡ length (extensions_bytes xs []) + length rest
length-extensions_bytes [] rest = omega arith
length-extensions_bytes (x ∷ xs) rest =
    let more = extensions_bytes xs rest in
    omega (
      arith,
      extensions-length x xs,
      length-extensions_bytes xs rest,
      length-append (to_be_bytes 2 x.etype) (to_be_bytes 2 (length x.ext) ++ (x.ext ++ more)),
      length-append (to_be_bytes 2 (length x.ext)) (x.ext ++ more),
      length-append x.ext more,
      length-to_be_bytes 2 x.etype,
      length-to_be_bytes 2 (length x.ext),
    )

count-extensions : (xs : List Extension) → length xs ≤ length (extensions_bytes xs [])
count-extensions [] = omega arith
count-extensions (x ∷ xs) = omega (arith, extensions-length x xs, count-extensions xs)

length-host_extension :
    (c : ClientHello)
    → length (host_extension c)
      ≡ 4 + length (host_data c.list_hi c.list_lo c.host c.more) + length c.tail
length-host_extension c =
    let d = host_data c.list_hi c.list_lo c.host c.more in
    omega (
      arith,
      length-append (to_be_bytes 2 0) (to_be_bytes 2 (length d) ++ (d ++ c.tail)),
      length-append (to_be_bytes 2 (length d)) (d ++ c.tail),
      length-append d c.tail,
      length-to_be_bytes 2 0,
      length-to_be_bytes 2 (length d),
    )

length-host_data :
    (a b : ℕ) (host more : List ℕ)
    → length (host_data a b host more) ≡ 5 + length host + length more
length-host_data a b host more = omega (
  arith,
  length-append (to_be_bytes 2 (length host)) (host ++ more),
  length-append host more,
  length-to_be_bytes 2 (length host),
)

-- The reads of a ClientHello in turn.
client_hello_lem :
    (body version : List ℕ) (sid_len cs_len cm_len ext_total : ℕ)
    → slice 0 2 body ≡ some version
    → byte_at 0 version ≡ some 3
    → byte_at 34 body ≡ some sid_len
    → u16_at (34 + (1 + sid_len)) body ≡ some cs_len
    → byte_at (34 + (1 + sid_len) + (2 + cs_len)) body ≡ some cm_len
    → u16_at (34 + (1 + sid_len) + (2 + cs_len) + (1 + cm_len)) body ≡ some ext_total
    → client_hello body
      ≡ scan_extensions
          (ext_total + 1)
          body
          (34 + (1 + sid_len) + (2 + cs_len) + (1 + cm_len) + 2 + ext_total)
          (34 + (1 + sid_len) + (2 + cs_len) + (1 + cm_len) + 2)
unfolding client_hello
client_hello_lem body version sid_len cs_len cm_len ext_total e0 e1 e2 e3 e4 e5 =
    rw (client_hello, e0, e1, e2, e3, e4, e5) refl

client_hello-host :
    (c : ClientHello) → FitsHello c → client_hello (hello_bytes c) ≡ some (some c.host)
unfolding byte_at
client_hello-host c h =
    let body = hello_bytes c in
    let exts = extensions_of c in
    let s2 = Stands-skip 0 2 (3 ∷ c.minor ∷ []) _ body refl (Stands-start body) in
    let s34 = Stands-skip 2 32 c.random _ body (sym h.random) s2 in
    let sid = byte_at-Stands 34 (length c.session) _ body s34 in
    let s35 = Stands-next 34 (length c.session) _ body s34 in
    let o1 = 34 + (1 + length c.session) in
    let at1 =
      Stands-to (35 + length c.session) o1 _ body (omega arith)
        (Stands-skip 35 (length c.session) c.session _ body refl s35) in
    let cs = u16_at-Stands o1 (length c.ciphers) _ body h.ciphers at1 in
    let o2 = o1 + (2 + length c.ciphers) in
    let at2 = Stands-to (o1 + 2 + length c.ciphers) o2 _ body (omega arith) (
      Stands-skip (o1 + 2) (length c.ciphers) c.ciphers _ body refl
        (Stands-u16 o1 (length c.ciphers) _ body at1)) in
    let cm = byte_at-Stands o2 (length c.compression) _ body at2 in
    let o3 = o2 + (1 + length c.compression) in
    let at3 = Stands-to (o2 + 1 + length c.compression) o3 _ body (omega arith) (
      Stands-skip (o2 + 1) (length c.compression) c.compression _ body refl
        (Stands-next o2 (length c.compression) _ body at2)) in
    let total = u16_at-Stands o3 (length exts) exts body h.extensions at3 in
    let at4 = Stands-u16 o3 (length exts) exts body at3 in
    let lengths = length-extensions_bytes c.before (host_extension c) in
    let found =
      scan_extensions-host (length exts + 1) body (o3 + 2 + length exts) (o3 + 2) c.list_hi
        c.list_lo c.before c.host c.more c.tail (omega (arith, count-extensions c.before, lengths))
        h.before h.host
        (omega (
          arith,
          h.extensions,
          lengths,
          length-host_extension c,
          length-host_data c.list_hi c.list_lo c.host c.more,
        ))
        (omega (arith, h.extensions, lengths, length-host_extension c))
        (omega (arith, lengths, length-host_extension c)) at4 in
    let major : slice 0 2 body ≡ some (3 ∷ c.minor ∷ []) =
      slice-Stands 0 2 (3 ∷ c.minor ∷ []) _ body refl (Stands-start body) in
    client_hello_lem body (3 ∷ c.minor ∷ []) _ _ _ _ major refl sid cs cm total ∙ found

module _ (c : ClientHello) (t0 t1 t2 t3 t4 t l1 l2 l3 : ℕ) (after : List ℕ) where
  -- From a TLS record with a ClientHello, whose handshake length is that of its body and whose
  -- fields have lengths that fit their length bytes, with any extensions of other types before a
  -- server_name that begins with a host of at least one byte, the code returns that host.
  pub tls_sni-host :
      FitsHello c
      → length (hello_bytes c) ≡ l1 * 2 ^ 16 + l2 * 2 ^ 8 + l3
      → tls_sni (t0 ∷ t1 ∷ t2 ∷ t3 ∷ t4 ∷ t ∷ l1 ∷ l2 ∷ l3 ∷ (hello_bytes c ++ after))
        ≡ some (some c.host)
  unfolding tls_sni handshake
  tls_sni-host h n =
      let body =
        slice-Stands 0 (l1 * 2 ^ 16 + l2 * 2 ^ 8 + l3) (hello_bytes c) after
          (hello_bytes c ++ after) (sym n) (Stands-start (hello_bytes c ++ after)) in
      rw body (client_hello-host c h)
