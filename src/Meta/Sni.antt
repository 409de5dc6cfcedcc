-- ===== src/Meta/Sni.antt =====
-- src/meta.rs: the loop of tls_sni over extensions that are written as RFC 8446 and RFC 6066 have them.
pub mod Hello
use sov_vault.Base.{
  ℕ, zero, suc, ◌+◌, ◌*◌, ◌^◌, ◌≤◌, ◌<◌, ◌≡◌, ◌≢◌, ◌∙◌, true, false, ◌||◌, refl, sym, List, [], ◌∷◌,
  ◌++◌, Option, none, some, arith, length, length-append, leb, ◌==◌, if◌then◌else◌, append_assoc,
  split_at?, split_at?-append,
}
use sov_vault.Bytes.{to_be_bytes, length-to_be_bytes}
use sov_vault.Meta.Extract.{
  slice, byte_at, u16_at, server_name, scan_extensions, client_hello, handshake, tls_sni, ◌>>=◌,
}
use sov_vault.Meta.Cursor.{
  Stands, Stands-to, Stands-start, Stands-skip, Stands-next, Stands-u16, byte_at-Stands,
  u16_at-Stands, slice-Stands,
}

-- An extension of another type than server_name.
pub record Extension : Type 0 where
  pub etype : ℕ
  pub ext : List ℕ

abbrev pub extensions_bytes : List Extension → List ℕ → List ℕ
extensions_bytes [] rest = rest
extensions_bytes (x ∷ xs) rest =
    to_be_bytes 2 x.etype ++ (to_be_bytes 2 (length x.ext) ++ (x.ext ++ extensions_bytes xs rest))

abbrev pub AreOther : List Extension → Type 0
AreOther [] = Unit {0}
AreOther (x ∷ xs) = (0 < x.etype) × (x.etype < 2 ^ 16) × (length x.ext < 2 ^ 16) × AreOther xs

-- The data of server_name: the length of the list in two bytes, the type of a host, its name, and what
-- follows in the list.
abbrev pub host_data : ℕ → ℕ → List ℕ → List ℕ → List ℕ
host_data a b host more = a ∷ b ∷ 0 ∷ (to_be_bytes 2 (length host) ++ (host ++ more))

server_name-host :
    (body : List ℕ) (e elen a b : ℕ) (host more rem : List ℕ)
    → 0 < length host
    → length host < 2 ^ 16
    → elen ≡ length (host_data a b host more)
    → Stands e (host_data a b host more ++ rem) body
    → server_name body e elen ≡ some (some host)
unfolding server_name
server_name-host body e elen a b host more rem full fits k s =
    let d = host_data a b host more in
    let at : slice e elen body ≡ some d = slice-Stands e elen d rem body k s in
    let s0 = Stands-start d in
    let s3 = Stands-next 2 0 _ d (Stands-next 1 b _ d (Stands-next 0 a _ d s0)) in
    let s5 = Stands-u16 3 (length host) (host ++ more) d s3 in
    let len = u16_at-Stands 3 (length host) (host ++ more) d fits s3 in
    let name = slice-Stands 5 (length host) host more d refl s5 in ground (arith, at, len, name)

pub extensions-length :
    (x : Extension) (xs : List Extension)
    → length (extensions_bytes (x ∷ xs) []) ≡ 4 + length x.ext + length (extensions_bytes xs [])
extensions-length x xs =
    let rest = extensions_bytes xs [] in
    omega (
      arith,
      length-append (to_be_bytes 2 x.etype) (to_be_bytes 2 (length x.ext) ++ (x.ext ++ rest)),
      length-append (to_be_bytes 2 (length x.ext)) (x.ext ++ rest),
      length-append x.ext rest,
      length-to_be_bytes 2 x.etype,
      length-to_be_bytes 2 (length x.ext),
    )

pub scan_extensions-host :
    (fuel : ℕ) (body : List ℕ) (last e a b : ℕ) (before : List Extension) (host more tail : List ℕ)
    → length before < fuel
    → AreOther before
    → 0 < length host
    → length host < 2 ^ 16
    → length (host_data a b host more) < 2 ^ 16
    → e + length (extensions_bytes before []) + 4 ≤ last
    → Stands e
        (extensions_bytes before (
          to_be_bytes 2 0
          ++ (to_be_bytes 2 (length (host_data a b host more))
              ++ (host_data a b host more ++ tail))))
        body
    → scan_extensions fuel body last e ≡ some (some host)
unfolding scan_extensions
scan_extensions-host zero body last e a b before host more tail f o full fits small room s =
    absurd (omega arith)
scan_extensions-host (suc fuel) body last e a b [] host more tail f o full fits small room s =
    let d = host_data a b host more in
    let etype = u16_at-Stands e 0 _ body (omega arith) s in
    let s2 = Stands-u16 e 0 _ body s in
    let elen = u16_at-Stands (e + 2) (length d) (d ++ tail) body small s2 in
    let s4 =
      Stands-to (e + 2 + 2) (e + 4) _ body (omega arith)
        (Stands-u16 (e + 2) (length d) (d ++ tail) body s2) in
    let found = server_name-host body (e + 4) (length d) a b host more tail full fits refl s4 in
    let open_still : leb (e + 4) last ≡ true = ground arith in
    rw (scan_extensions, open_still, etype, elen, found) refl
scan_extensions-host (suc fuel) body last e a b (x ∷ xs) host more tail f o full fits small room s =
    let (named, typed, sized, others) = o in
    let d = host_data a b host more in
    let after =
      extensions_bytes xs (to_be_bytes 2 0 ++ (to_be_bytes 2 (length d) ++ (d ++ tail))) in
    let etype = u16_at-Stands e x.etype _ body typed s in
    let s2 = Stands-u16 e x.etype _ body s in
    let elen = u16_at-Stands (e + 2) (length x.ext) (x.ext ++ after) body sized s2 in
    let s4 = Stands-u16 (e + 2) (length x.ext) (x.ext ++ after) body s2 in
    let next =
      Stands-to (e + 2 + 2 + length x.ext) (e + 4 + length x.ext) after body (omega arith)
        (Stands-skip (e + 2 + 2) (length x.ext) x.ext after body refl s4) in
    let measured = extensions-length x xs in
    let ih =
      scan_extensions-host fuel body last (e + 4 + length x.ext) a b xs host more tail (omega arith)
        others full fits small (omega arith) next in
    let open_still : leb (e + 4) last ≡ true = ground arith in
    let other : (x.etype == 0) ≡ false = ground arith in
    rw (scan_extensions, open_still, etype, elen, other) ih
