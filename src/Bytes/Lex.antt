-- ===== src/Bytes/Lex.antt =====
-- The order of byte strings, as `memcmp` has it: LMDB's order of keys. How it orders big-endian
-- numbers of one width.
use Prim.Native.Nat.{compare, Ordering}
use native.Mathlib.Nat.{pow-suc}
use sov_vault.Base.{
  ℕ, zero, suc, ◌/◌, ◌%◌, ◌^◌, ◌<◌, ◌≡◌, refl, sym, ◌∙◌, List, [], ◌∷◌, ◌++◌, arith, length,
}
use sov_vault.Bytes.{to_be_bytes, length-to_be_bytes}

-- The later order decides where the earlier one is a tie.
abbrev pub lex : Ordering → Ordering → Ordering
lex Ordering.lt o = Ordering.lt
lex Ordering.eq o = o
lex Ordering.gt o = Ordering.gt

unfoldable pub compare_bytes : List ℕ → List ℕ → Ordering
compare_bytes [] [] = Ordering.eq
compare_bytes [] (y ∷ ys) = Ordering.lt
compare_bytes (x ∷ xs) [] = Ordering.gt
compare_bytes (x ∷ xs) (y ∷ ys) = lex (compare x y) (compare_bytes xs ys)

lex_assoc : (a b c : Ordering) → lex a (lex b c) ≡ lex (lex a b) c
lex_assoc Ordering.lt b c = refl
lex_assoc Ordering.eq b c = refl
lex_assoc Ordering.gt b c = refl

pub compare_bytes-append :
    (xs ys us vs : List ℕ)
    → length xs ≡ length ys
    → compare_bytes (xs ++ us) (ys ++ vs) ≡ lex (compare_bytes xs ys) (compare_bytes us vs)
unfolding compare_bytes
compare_bytes-append [] [] us vs h = refl
compare_bytes-append [] (y ∷ ys) us vs h = absurd (omega arith)
compare_bytes-append (x ∷ xs) [] us vs h = absurd (omega arith)
compare_bytes-append (x ∷ xs) (y ∷ ys) us vs h =
    rw (compare_bytes-append xs ys us vs (omega arith)) (lex_assoc (compare x y) _ _)

compare_digits :
    (x y : ℕ)
    → lex (compare (x / 256) (y / 256)) (lex (compare (x % 256) (y % 256)) Ordering.eq)
      ≡ compare x y
compare_digits x y = ground arith

div-lt : (w x : ℕ) → x < 256 ^ suc w → x / 256 < 256 ^ w
div-lt w x h = let e = rw pow-suc at h in omega arith

pub compare-to_be_bytes :
    (w x y : ℕ)
    → x < 256 ^ w
    → y < 256 ^ w
    → compare_bytes (to_be_bytes w x) (to_be_bytes w y) ≡ compare x y
unfolding compare_bytes to_be_bytes
compare-to_be_bytes zero x y hx hy = ground arith
compare-to_be_bytes (suc w) x y hx hy =
    compare_bytes-append (to_be_bytes w (x / 256)) (to_be_bytes w (y / 256)) _ _
      (length-to_be_bytes w _ ∙ sym (length-to_be_bytes w _))
    ∙ rw (compare-to_be_bytes w (x / 256) (y / 256) (div-lt w x hx) (div-lt w y hy))
        (compare_digits x y)

-- Two fields: the first decides, then what follows it.
pub compare-field :
    (w x y : ℕ) (us vs : List ℕ)
    → x < 256 ^ w
    → y < 256 ^ w
    → compare_bytes (to_be_bytes w x ++ us) (to_be_bytes w y ++ vs)
      ≡ lex (compare x y) (compare_bytes us vs)
compare-field w x y us vs hx hy =
    compare_bytes-append (to_be_bytes w x) (to_be_bytes w y) us vs
      (length-to_be_bytes w x ∙ sym (length-to_be_bytes w y))
    ∙ rw (compare-to_be_bytes w x y hx hy)
