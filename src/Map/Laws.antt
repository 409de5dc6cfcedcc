-- ===== src/Map/Laws.antt =====
-- Reading a map after each operation, and the distinctness of its keys.
use mathlib.Core.Option
use sov_vault.Base.{
  ◌≡◌, refl, false, List, [], ◌∷◌, none, some, arith, if◌then◌else◌, ◌⊎◌, inl, inr, Bool-cases,
}
use sov_vault.Map.{Eq, get, insert, remove, modify, Distinct}

module _ {K V : Type 0} ⦃e : Eq K⦄ where
  pub get-insert :
      (j k : K) (v : V) (m : List (K × V))
      → get j (insert k v m) ≡ (if e.beq j k then some v else get j m)
  unfolding get insert
  get-insert j k v [] = refl
  get-insert j k v ((i, w) ∷ m) =
      ground (arith, e.beq_iff j k, e.beq_iff k i, e.beq_iff j i, get-insert j k v m)

  pub get-remove :
      (j k : K) (m : List (K × V)) → get j (remove k m) ≡ (if e.beq j k then none else get j m)
  unfolding get remove
  get-remove j k [] = ground arith
  get-remove j k ((i, w) ∷ m) =
      ground (arith, e.beq_iff j k, e.beq_iff k i, e.beq_iff j i, get-remove j k m)

  pub get-modify :
      (j k : K) (f : V → V) (m : List (K × V))
      → get j (modify k f m) ≡ (if e.beq j k then Option.map f (get j m) else get j m)
  unfolding get modify
  get-modify j k f [] = ground arith
  get-modify j k f ((i, w) ∷ m) =
      ground (arith, e.beq_iff j k, e.beq_iff k i, e.beq_iff j i, get-modify j k f m)

  pub Distinct-insert : (k : K) (v : V) (m : List (K × V)) → Distinct m → Distinct (insert k v m)
  unfolding insert get
  Distinct-insert k v [] d = (refl, tt)
  Distinct-insert k v ((i, w) ∷ m) d =
      ground (arith, Distinct-insert k v m d.1, get-insert i k v m, e.beq_iff i k, e.beq_iff k i)

  pub Distinct-remove : (k : K) (m : List (K × V)) → Distinct m → Distinct (remove k m)
  unfolding remove
  Distinct-remove k [] d = tt
  Distinct-remove k ((i, w) ∷ m) d = ground (arith, Distinct-remove k m d.1, get-remove i k m)

  pub Distinct-modify :
      (k : K) (f : V → V) (m : List (K × V)) → Distinct m → Distinct (modify k f m)
  unfolding modify
  Distinct-modify k f [] d = tt
  Distinct-modify k f ((i, w) ∷ m) d =
      ground (arith, Distinct-modify k f m d.1, get-modify i k f m, e.beq_iff i k, e.beq_iff k i)

  -- An entry after an insertion is the new one or an old one.
  pub get-insert_cases :
      (j k : K) (v w : V) (m : List (K × V))
      → get j (insert k v m) ≡ some w
      → ((j ≡ k) × (v ≡ w)) ⊎ (get j m ≡ some w)
  get-insert_cases j k v w m h = elim (Bool-cases (e.beq j k)) [
    | inl b ↦ inl ((e.beq_iff j k).0 b, ground (arith, get-insert j k v m))
    | inr b ↦ inr (ground (arith, get-insert j k v m))
  ]

  pub get-insert_self : (k : K) (v : V) (m : List (K × V)) → get k (insert k v m) ≡ some v
  get-insert_self k v m = ground (arith, get-insert k k v m, e.beq_iff k k)

  pub get-insert_ne :
      (j k : K) (v : V) (m : List (K × V)) → e.beq j k ≡ false → get j (insert k v m) ≡ get j m
  get-insert_ne j k v m h = ground (arith, get-insert j k v m)

  pub modify-get_some :
      (k : K) (f : V → V) (v : V) (m : List (K × V))
      → get k m ≡ some v
      → modify k f m ≡ insert k (f v) m
  unfolding get modify insert
  modify-get_some k f v [] h = absurd (ground arith)
  modify-get_some k f v ((j, w) ∷ m) h = ground (arith, modify-get_some k f v m, e.beq_iff k j)

  pub modify-get_none : (k : K) (f : V → V) (m : List (K × V)) → get k m ≡ none → modify k f m ≡ m
  unfolding get modify
  modify-get_none k f [] h = refl
  modify-get_none k f ((j, w) ∷ m) h = ground (arith, modify-get_none k f m, e.beq_iff k j)
