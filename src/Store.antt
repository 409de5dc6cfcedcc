-- ===== src/Store.antt =====
-- One table of LMDB, through the calls of heed that the source makes: an interface, since heed is not
-- part of the repository. `put_no_overwrite` is that of src/db.rs.
pub mod Assoc
use sov_vault.Base.{
  ℕ, ◌≡◌, ◌↔◌, refl, Bool, true, false, ◌&&◌, ◌⊎◌, inl, inr, List, [], ◌∷◌, Option, none, some,
  arith, ◌==◌, ==_iff, if◌then◌else◌, Option-cases,
}
use sov_vault.Map.{Eq}
use sov_vault.Db.Keys.Order.{in_range}

abbrev pub bytes_eq : List ℕ → List ℕ → Bool
bytes_eq [] [] = true
bytes_eq [] (y ∷ ys) = false
bytes_eq (x ∷ xs) [] = false
bytes_eq (x ∷ xs) (y ∷ ys) = (x == y) && bytes_eq xs ys

pub bytes_eq_iff : (xs ys : List ℕ) → (bytes_eq xs ys ≡ true) ↔ (xs ≡ ys)
bytes_eq_iff [] [] = ground arith
bytes_eq_iff [] (y ∷ ys) = ground arith
bytes_eq_iff (x ∷ xs) [] = ground arith
bytes_eq_iff (x ∷ xs) (y ∷ ys) = ground (arith, bytes_eq_iff xs ys)

instance abbrev pub list_eq : Eq (List ℕ)
list_eq = record { beq = bytes_eq; beq_iff = bytes_eq_iff }

abbrev pub Row : Type 0
Row = List ℕ × List ℕ

-- A row stands in a list of rows.
abbrev pub Has : Row → List Row → Type 0
Has row [] = ⊥
Has row (r ∷ rs) = (row ≡ r) ⊎ Has row rs

-- What the documentation of heed and LMDB promises of these calls, within one write transaction.
pub record Lmdb : Type 1 where
  pub Table : Type 0
  pub get : Table → List ℕ → Option (List ℕ)
  pub put : Table → List ℕ → List ℕ → Table
  -- `put_with_flags(NO_OVERWRITE, …)`, where `none` is `KeyExist`.
  pub put_new : Table → List ℕ → List ℕ → Option Table
  pub delete : Table → List ℕ → Table
  -- `range` between included bounds.
  pub range : Table → List ℕ → List ℕ → List Row
  pub get-put :
      (t : Table) (k v j : List ℕ) → get (put t k v) j ≡ (if bytes_eq j k then some v else get t j)
  pub put_new_lem :
      (t : Table) (k v : List ℕ)
      → put_new t k v ≡ elim (get t k) [ none ↦ some (put t k v) | some w ↦ none ]
  pub get-delete :
      (t : Table) (k j : List ℕ) → get (delete t k) j ≡ (if bytes_eq j k then none else get t j)
  pub range_iff :
      (t : Table) (lo hi k v : List ℕ)
      → Has (k, v) (range t lo hi) ↔ ((get t k ≡ some v) × (in_range lo hi k ≡ true))

module _ (db : Lmdb) where
  open db use {Table, get, put, put_new, delete, range, get-put, put_new_lem, get-delete}

  unfoldable pub put_no_overwrite : Table → List ℕ → List ℕ → Table × Bool
  put_no_overwrite t k v = elim (put_new t k v) [ none ↦ (t, false) | some t' ↦ (t', true) ]

  -- A row that is there stays; a new one is written.
  pub get-put_no_overwrite :
      (t : Table) (k v j : List ℕ)
      → get (put_no_overwrite t k v).0 j
        ≡ elim (get t j) [ some w ↦ some w | none ↦ if bytes_eq j k then some v else none ]
  unfolding put_no_overwrite
  get-put_no_overwrite t k v j = elim (Option-cases (get t k)) [
    | inl e ↦ ground (arith, put_new_lem t k v, get-put t k v j, bytes_eq_iff j k)
    | inr (w, e) ↦ ground (arith, put_new_lem t k v, bytes_eq_iff j k)
  ]
