-- ===== src/Base/Lists.antt =====
-- Lists measured by native numbers, and bind for options.
use Prim.Native.Nat.{ℕ, zero, suc, ◌+◌}
use mathlib.Core.Path.{◌≡◌, refl}
use mathlib.Core.List.{List, [], ◌∷◌, ◌++◌}
use mathlib.Core.Option.{Option, none, some}
use native.Mathlib.Omega.{arith}

module _ {ℓ} {A : Type ℓ} where
  abbrev pub length : List A → ℕ
  length [] = 0
  length (x ∷ xs) = suc (length xs)

  pub length-append : (xs ys : List A) → length (xs ++ ys) ≡ length xs + length ys
  length-append [] ys = omega arith
  length-append (x ∷ xs) ys = omega (arith, length-append xs ys)

  -- The first `n` elements and the rest; none when there are fewer.
  abbrev pub split_at? : ℕ → List A → Option (List A × List A)
  split_at? zero xs = some ([], xs)
  split_at? (suc n) [] = none
  split_at? (suc n) (x ∷ xs) = elim (split_at? n xs) [
    | none ↦ none
    | some (front, rest) ↦ some (x ∷ front, rest)
  ]

  pub split_at?-append : (xs ys : List A) → split_at? (length xs) (xs ++ ys) ≡ some (xs, ys)
  split_at?-append [] ys = refl
  split_at?-append (x ∷ xs) ys = rw (split_at?-append xs ys)

  pub split_at?-some :
      (n more : ℕ) (xs : List A)
      → length xs ≡ n + more
      → (front : List A) × (rest : List A) × (split_at? n xs ≡ some (front, rest))
        × (length rest ≡ more)
  split_at?-some zero more xs h = ([], xs, refl, omega arith)
  split_at?-some (suc n) more [] h = absurd (omega arith)
  split_at?-some (suc n) more (x ∷ xs) h =
      let (front, rest, e, l) = split_at?-some n more xs (omega arith) in
      (x ∷ front, rest, rw e refl, l)
