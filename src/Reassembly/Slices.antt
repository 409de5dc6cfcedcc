-- ===== src/Reassembly/Slices.antt =====
-- Chunks as slices of the content that a segment should have.
use sov_vault.Base.{
  ℕ, zero, suc, ◌+◌, ◌-◌, ◌≤◌, ◌≡◌, refl, sym, ap, ◌∙◌, List, [], ◌∷◌, ◌++◌, arith, length,
  length-append,
}
use sov_vault.Reassembly.Engine.{drop}

-- `bytes` stands in `content` at `offset`.
abbrev pub IsSlice : List ℕ → ℕ → List ℕ → Type 0
IsSlice content offset bytes = (after : List ℕ) × (drop offset content ≡ bytes ++ after)

drop-nil : (n : ℕ) → drop n [] ≡ []
unfolding drop
drop-nil zero = refl
drop-nil (suc n) = refl

drop-drop : (m n : ℕ) (xs : List ℕ) → drop m (drop n xs) ≡ drop (n + m) xs
unfolding drop
drop-drop m zero xs = ap (λ k. drop k xs) (omega arith)
drop-drop m (suc n) [] = drop-nil m ∙ sym (drop-nil (suc n + m))
drop-drop m (suc n) (x ∷ xs) =
    drop-drop m n xs ∙ ap (λ k. drop k (x ∷ xs)) {x = suc (n + m)} {y = suc n + m} (omega arith)

drop-append : (m : ℕ) (xs ys : List ℕ) → m ≤ length xs → drop m (xs ++ ys) ≡ drop m xs ++ ys
unfolding drop
drop-append zero xs ys h = refl
drop-append (suc m) [] ys h = absurd (omega arith)
drop-append (suc m) (x ∷ xs) ys h = drop-append m xs ys (omega arith)

drop-length : (xs ys : List ℕ) → drop (length xs) (xs ++ ys) ≡ ys
unfolding drop
drop-length [] ys = refl
drop-length (x ∷ xs) ys = drop-length xs ys

pub length-drop : (n : ℕ) (xs : List ℕ) → length (drop n xs) ≡ length xs - n
unfolding drop
length-drop zero xs = omega arith
length-drop (suc n) [] = omega arith
length-drop (suc n) (x ∷ xs) = omega (arith, length-drop n xs)

-- What is cut off the front moves the slice on.
pub IsSlice-drop :
    (content : List ℕ) (offset cut : ℕ) (bytes : List ℕ)
    → cut ≤ length bytes
    → IsSlice content offset bytes
    → IsSlice content (offset + cut) (drop cut bytes)
IsSlice-drop content offset cut bytes h (after, e) =
    (after, sym (drop-drop cut offset content) ∙ rw e (drop-append cut bytes after h))

-- Past a slice comes what follows it.
pub drop-IsSlice :
    (content : List ℕ) (offset : ℕ) (bytes : List ℕ)
    → IsSlice content offset bytes
    → drop offset content ≡ bytes ++ drop (offset + length bytes) content
drop-IsSlice content offset bytes (after, e) =
    e
    ∙ ap (λ r. bytes ++ r)
        (sym (drop-length bytes after)
          ∙ sym (ap (drop (length bytes)) e)
          ∙ drop-drop (length bytes) offset content)

-- A slice inside the content ends inside it.
pub IsSlice-le :
    (content : List ℕ) (offset : ℕ) (bytes : List ℕ)
    → offset ≤ length content
    → IsSlice content offset bytes
    → offset + length bytes ≤ length content
IsSlice-le content offset bytes h (after, e) =
    omega (arith, ap length e, length-drop offset content, length-append bytes after)
