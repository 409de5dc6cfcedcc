-- ===== src/Bytes.antt =====
-- Big-endian bytes: `to_be_bytes` and `from_be_bytes` of the unsigned integers, and reading a slice
-- from a cursor (`take_u8` to `take_u64` of src/db.rs, where the cursor is the rest of the slice).
pub mod Lex
use native.Mathlib.Nat.{pow-suc}
use sov_vault.Base.{
  ℕ, zero, suc, ◌+◌, ◌*◌, ◌/◌, ◌%◌, ◌^◌, ◌≤◌, ◌<◌, ◌≡◌, refl, sym, ap, ◌∙◌, List, [], ◌∷◌, ◌++◌,
  Option, none, some, arith, length, length-append, split_at?, split_at?-append, split_at?-some,
  append_assoc,
}

unfoldable pub to_be_bytes : ℕ → ℕ → List ℕ
to_be_bytes zero x = []
to_be_bytes (suc w) x = to_be_bytes w (x / 256) ++ (x % 256) ∷ []

from_be_acc : ℕ → List ℕ → ℕ
from_be_acc acc [] = acc
from_be_acc acc (b ∷ bs) = from_be_acc (acc * 256 + b) bs

unfoldable pub from_be_bytes : List ℕ → ℕ
unfolding from_be_acc
from_be_bytes bs = from_be_acc 0 bs

pub length-to_be_bytes : (w x : ℕ) → length (to_be_bytes w x) ≡ w
unfolding to_be_bytes
length-to_be_bytes zero x = refl
length-to_be_bytes (suc w) x = omega (
  arith,
  length-append (to_be_bytes w (x / 256)) ((x % 256) ∷ []),
  length-to_be_bytes w (x / 256),
)

from_be_acc-append :
    (acc : ℕ) (xs : List ℕ) (b : ℕ) → from_be_acc acc (xs ++ b ∷ []) ≡ from_be_acc acc xs * 256 + b
unfolding from_be_acc
from_be_acc-append acc [] b = refl
from_be_acc-append acc (x ∷ xs) b = from_be_acc-append (acc * 256 + x) xs b

div-lt : (w x : ℕ) → x < 256 ^ suc w → x / 256 < 256 ^ w
div-lt w x h = let e = rw pow-suc at h in omega arith

pub from-to_be_bytes : (w x : ℕ) → x < 256 ^ w → from_be_bytes (to_be_bytes w x) ≡ x
unfolding from_be_bytes to_be_bytes
from-to_be_bytes zero x h = omega arith
from-to_be_bytes (suc w) x h =
    from_be_acc-append 0 (to_be_bytes w (x / 256)) (x % 256)
    ∙ omega (arith, from-to_be_bytes w (x / 256) (div-lt w x h))

-- A read takes a value off the front of what is left, or fails.
abbrev pub Reader {ℓ} : Type ℓ → Type ℓ
Reader A = List ℕ → Option (A × List ℕ)

infixl 5 ◌>>=◌
abbrev pub ◌>>=◌ {ℓ κ} : {A : Type ℓ} {B : Type κ} → Reader A → (A → Reader B) → Reader B
◌>>=◌ m f bs = elim (m bs) [ none ↦ none | some (a, rest) ↦ f a rest ]

abbrev pub pure {ℓ} : {A : Type ℓ} → A → Reader A
pure a bs = some (a, bs)

-- `b.get(*o..*o + w)`.
pub take_bytes : ℕ → Reader (List ℕ)
take_bytes n bs = split_at? n bs

pub take_uint : ℕ → Reader ℕ
take_uint w bs = elim (split_at? w bs) [
  | none ↦ none
  | some (front, rest) ↦ some (from_be_bytes front, rest)
]

-- Reading back what was written, whatever follows it.
pub take-put_uint :
    (w x : ℕ) (rest : List ℕ) → x < 256 ^ w → take_uint w (to_be_bytes w x ++ rest) ≡ some (x, rest)
unfolding take_uint
take-put_uint w x rest h =
    let e = split_at?-append (to_be_bytes w x) rest in
    let e2 = rw (length-to_be_bytes w x) at e in rw (e2, take_uint) (rw (from-to_be_bytes w x h))

pub take-put_bytes :
    (xs rest : List ℕ) (n : ℕ) → n ≡ length xs → take_bytes n (xs ++ rest) ≡ some (xs, rest)
unfolding take_bytes
take-put_bytes xs rest n e = rw e (split_at?-append xs rest)

-- One step of a reader's proof: a read that succeeds hands its value to what follows.
pub read_step {ℓ κ} :
    {A : Type ℓ} {B : Type κ} (m : Reader A) (f : A → Reader B) (bs rest : List ℕ) (a : A)
    {out : Option (B × List ℕ)}
    → m bs ≡ some (a, rest)
    → f a rest ≡ out
    → (m >>= f) bs ≡ out
read_step m f bs rest a e k = rw (e, ◌>>=◌) k

-- `extend_from_slice` of each part in turn.
abbrev pub concat : List (List ℕ) → List ℕ → List ℕ
concat [] rest = rest
concat (x ∷ xs) rest = x ++ concat xs rest

-- `for &x in xs { put_u64(&mut v, x) }`.
abbrev pub put_u64s : List ℕ → List ℕ
put_u64s [] = []
put_u64s (x ∷ xs) = to_be_bytes 8 x ++ put_u64s xs

-- `for _ in 0..n { xs.push(take_u64(b, &mut o)?) }`.
pub take_u64s : ℕ → Reader (List ℕ)
take_u64s zero bs = some ([], bs)
take_u64s (suc n) bs = (do x ← take_uint 8; xs ← take_u64s n; pure (x ∷ xs)) bs

abbrev pub AllBelow : ℕ → List ℕ → Type 0
AllBelow n [] = Unit {0}
AllBelow n (x ∷ xs) = (x < n) × AllBelow n xs

pub take-put_u64s :
    (xs rest : List ℕ)
    → AllBelow (2 ^ 64) xs
    → take_u64s (length xs) (put_u64s xs ++ rest) ≡ some (xs, rest)
unfolding take_u64s
take-put_u64s [] rest h = refl
take-put_u64s (x ∷ xs) rest h = rw (append_assoc (to_be_bytes 8 x) (put_u64s xs) rest) (
    read_step (take_uint 8) (λ y. do ys ← take_u64s (length xs); pure (y ∷ ys)) _ _ x
      (take-put_uint 8 x _ h.0)
      (read_step (take_u64s (length xs)) _ _ _ xs (take-put_u64s xs rest h.1) refl))

-- The value that is read, where the reader need not use up the slice.
abbrev pub value_of {ℓ} : {A : Type ℓ} → Reader A → List ℕ → Option A
value_of m bs = elim (m bs) [ none ↦ none | some (a, rest) ↦ some a ]

-- The value that is read, if the reader uses up the slice (`o == b.len()`).
abbrev pub all_of {ℓ} : {A : Type ℓ} → Reader A → List ℕ → Option A
all_of m bs = elim (m bs) [
  | none ↦ none
  | some (a, rest) ↦ elim rest [ [] ↦ some a | b ∷ more ↦ none ]
]

-- A read succeeds where there are bytes enough.
pub take_uint-some :
    (w more : ℕ) (bs : List ℕ)
    → length bs ≡ w + more
    → (x : ℕ) × (rest : List ℕ) × (take_uint w bs ≡ some (x, rest)) × (length rest ≡ more)
unfolding take_uint
take_uint-some w more bs h =
    let (front, rest, e, l) = split_at?-some w more bs h in
    (from_be_bytes front, rest, rw (take_uint, e) refl, l)
