-- ===== src/Meta/Cursor.antt =====
-- A cursor of src/meta.rs and what stands at it: how reads move through bytes written one after the
-- other.
use sov_vault.Base.{
  ℕ, ◌+◌, ◌<◌, ◌^◌, ◌≡◌, ◌∙◌, refl, sym, List, [], ◌∷◌, ◌++◌, some, arith, length, length-append,
  append_assoc,
}
use sov_vault.Bytes.{to_be_bytes, length-to_be_bytes}
use sov_vault.Meta.Extract.{slice, byte_at, u16_at}
use sov_vault.Meta.Reads.{byte_at-append, slice-append, u16_at-append}

-- At the offset `o` of the payload stands `rem`.
abbrev pub Stands : ℕ → List ℕ → List ℕ → Type 0
Stands o rem payload = (pre : List ℕ) × (payload ≡ pre ++ rem) × (o ≡ length pre)

pub Stands-start : (payload : List ℕ) → Stands 0 payload payload
Stands-start payload = ([], refl, refl)

pub Stands-to :
    (o o' : ℕ) (rem payload : List ℕ) → o' ≡ o → Stands o rem payload → Stands o' rem payload
Stands-to o o' rem payload k (pre, e, p) = (pre, e, k ∙ p)

pub Stands-skip :
    (o n : ℕ) (x rem payload : List ℕ)
    → n ≡ length x
    → Stands o (x ++ rem) payload
    → Stands (o + n) rem payload
Stands-skip o n x rem payload k (pre, e, p) =
    (pre ++ x, e ∙ sym (append_assoc pre x rem), omega (arith, length-append pre x))

pub Stands-next :
    (o x : ℕ) (rem payload : List ℕ) → Stands o (x ∷ rem) payload → Stands (o + 1) rem payload
Stands-next o x rem payload = Stands-skip o 1 (x ∷ []) rem payload refl

pub Stands-u16 :
    (o v : ℕ) (rem payload : List ℕ)
    → Stands o (to_be_bytes 2 v ++ rem) payload
    → Stands (o + 2) rem payload
Stands-u16 o v rem payload =
    Stands-skip o 2 (to_be_bytes 2 v) rem payload (sym (length-to_be_bytes 2 v))

pub byte_at-Stands :
    (o x : ℕ) (rem payload : List ℕ) → Stands o (x ∷ rem) payload → byte_at o payload ≡ some x
byte_at-Stands o x rem payload (pre, e, p) = rw e (byte_at-append o pre rem x p)

pub u16_at-Stands :
    (o v : ℕ) (rem payload : List ℕ)
    → v < 2 ^ 16
    → Stands o (to_be_bytes 2 v ++ rem) payload
    → u16_at o payload ≡ some v
u16_at-Stands o v rem payload b (pre, e, p) = rw e (u16_at-append o v pre rem p b)

pub slice-Stands :
    (o n : ℕ) (x rem payload : List ℕ)
    → n ≡ length x
    → Stands o (x ++ rem) payload
    → slice o n payload ≡ some x
slice-Stands o n x rem payload k (pre, e, p) = rw e (slice-append o n pre x rem p k)
