-- ===== src/Meta/Reads.antt =====
-- Reads of src/meta.rs at an offset of a payload, where the offset is the length of what stands before.
use sov_vault.Base.{
  ℕ, zero, suc, ◌+◌, ◌≤◌, ◌<◌, ◌^◌, ◌≡◌, refl, sym, List, [], ◌∷◌, ◌++◌, none, some, arith, length,
  split_at?, split_at?-append, Option-cases, inl, inr,
}
use sov_vault.Bytes.{to_be_bytes, from-to_be_bytes, length-to_be_bytes}
use sov_vault.Meta.Extract.{slice, byte_at, u16_at}

pub byte_at-append :
    (o : ℕ) (pre xs : List ℕ) (x : ℕ) → o ≡ length pre → byte_at o (pre ++ x ∷ xs) ≡ some x
unfolding byte_at
byte_at-append zero [] xs x e = refl
byte_at-append zero (p ∷ pre) xs x e = absurd (omega arith)
byte_at-append (suc o) [] xs x e = absurd (omega arith)
byte_at-append (suc o) (p ∷ pre) xs x e = byte_at-append o pre xs x (omega arith)

pub slice-append :
    (o n : ℕ) (pre x post : List ℕ)
    → o ≡ length pre
    → n ≡ length x
    → slice o n (pre ++ (x ++ post)) ≡ some x
unfolding slice
slice-append o n pre x post e f =
    let outer : split_at? o (pre ++ (x ++ post)) ≡ some (pre, x ++ post) =
      rw e (split_at?-append pre (x ++ post)) in
    let inner : split_at? n (x ++ post) ≡ some (x, post) = rw f (split_at?-append x post) in
    ground (arith, outer, inner)

pub u16_at-append :
    (o v : ℕ) (pre post : List ℕ)
    → o ≡ length pre
    → v < 2 ^ 16
    → u16_at o (pre ++ (to_be_bytes 2 v ++ post)) ≡ some v
unfolding u16_at
u16_at-append o v pre post e b =
    rw (u16_at, slice-append o 2 pre (to_be_bytes 2 v) post e (sym (length-to_be_bytes 2 v)))
      (rw (from-to_be_bytes 2 v b) refl)

pub split_at?-bound :
    (n : ℕ) (b front rest : List ℕ)
    → split_at? n b ≡ some (front, rest)
    → length b ≡ n + length rest
split_at?-bound zero b front rest e = ground arith
split_at?-bound (suc n) [] front rest e = absurd (ground arith)
split_at?-bound (suc n) (x ∷ xs) front rest e = elim (Option-cases (split_at? n xs)) [
  | inl e1 ↦ absurd (ground arith)
  | inr ((f, r), e1) ↦ let ih = split_at?-bound n xs f r e1 in ground arith
]

pub split_at?-none : (n : ℕ) (b : List ℕ) → split_at? n b ≡ none → length b < n
split_at?-none zero b e = absurd (ground arith)
split_at?-none (suc n) [] e = omega arith
split_at?-none (suc n) (x ∷ xs) e = elim (Option-cases (split_at? n xs)) [
  | inl e1 ↦ omega (arith, split_at?-none n xs e1)
  | inr (found, e1) ↦ absurd (ground arith)
]

pub slice-bound : (o n : ℕ) (b x : List ℕ) → slice o n b ≡ some x → o + n ≤ length b
unfolding slice
slice-bound o n b x e = elim (Option-cases (split_at? o b)) [
  | inl e1 ↦ absurd (ground arith)
  | inr ((f, r), e1) ↦ elim (Option-cases (split_at? n r)) [
    | inl e2 ↦ absurd (ground arith)
    | inr ((g, s), e2) ↦ omega (arith, split_at?-bound o b f r e1, split_at?-bound n r g s e2)
  ]
]

-- What a read that succeeds says of the payload.
byte_at-rest :
    (o : ℕ) (pre rem : List ℕ) (x : ℕ)
    → o ≡ length pre
    → byte_at o (pre ++ rem) ≡ some x
    → (rest : List ℕ) × (rem ≡ x ∷ rest)
unfolding byte_at
byte_at-rest zero [] [] x e h = absurd (ground arith)
byte_at-rest zero [] (y ∷ rest) x e h = (rest, ground arith)
byte_at-rest zero (p ∷ pre) rem x e h = absurd (omega arith)
byte_at-rest (suc o) [] rem x e h = absurd (omega arith)
byte_at-rest (suc o) (p ∷ pre) rem x e h = byte_at-rest o pre rem x (omega arith) h

pub split_at?-parts :
    (n : ℕ) (b front rest : List ℕ)
    → split_at? n b ≡ some (front, rest)
    → (b ≡ front ++ rest) × (length front ≡ n)
split_at?-parts zero b front rest e = ground arith
split_at?-parts (suc n) [] front rest e = absurd (ground arith)
split_at?-parts (suc n) (x ∷ xs) front rest e = elim (Option-cases (split_at? n xs)) [
  | inl e1 ↦ absurd (ground arith)
  | inr ((f, r), e1) ↦ let ih = split_at?-parts n xs f r e1 in ground arith
]

slice-rest :
    (o n : ℕ) (pre rem x : List ℕ)
    → o ≡ length pre
    → slice o n (pre ++ rem) ≡ some x
    → (rest : List ℕ) × (rem ≡ x ++ rest) × (length x ≡ n)
unfolding slice
slice-rest o n pre rem x e h =
    let outer : split_at? o (pre ++ rem) ≡ some (pre, rem) = rw e (split_at?-append pre rem) in
    elim (Option-cases (split_at? n rem)) [
      | inl e2 ↦ absurd (ground arith)
      | inr ((f, rest), e2) ↦
          let same : f ≡ x = ground arith in
          let parts = split_at?-parts n rem f rest e2 in
          (rest, rw (← same) parts.0, rw (← same) parts.1)
    ]

module _ (o : ℕ) (payload pre rem : List ℕ) (e : payload ≡ pre ++ rem) (p : o ≡ length pre) where
  pub byte_at-some : (x : ℕ) → byte_at o payload ≡ some x → (rest : List ℕ) × (rem ≡ x ∷ rest)
  byte_at-some x h = byte_at-rest o pre rem x p (rw e at h)

  pub slice-some :
      (n : ℕ) (x : List ℕ)
      → slice o n payload ≡ some x
      → (rest : List ℕ) × (rem ≡ x ++ rest) × (length x ≡ n)
  slice-some n x h = slice-rest o n pre rem x p (rw e at h)
