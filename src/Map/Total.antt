-- ===== src/Map/Total.antt =====
-- Sums over the entries of a map.
use sov_vault.Base.{ℕ, ◌+◌, ◌≡◌, ◌≤◌, List, [], ◌∷◌, none, some, arith}
use sov_vault.Map.{Eq, get, insert, remove, Distinct}

module _ {K V : Type 0} ⦃e : Eq K⦄ (size : K → V → ℕ) where
  unfoldable pub total : List (K × V) → ℕ
  total [] = 0
  total ((k, v) ∷ m) = size k v + total m

  -- What the entry at `k` counts for.
  unfoldable pub size_at : K → List (K × V) → ℕ
  unfolding get
  size_at k m = elim (get k m) [ none ↦ 0 | some v ↦ size k v ]

  pub total-insert :
      (k : K) (v : V) (m : List (K × V)) → total (insert k v m) + size_at k m ≡ total m + size k v
  unfolding total insert size_at get
  total-insert k v [] = omega arith
  total-insert k v ((j, w) ∷ m) = ground (arith, total-insert k v m, e.beq_iff k j)

  pub total-remove :
      (k : K) (m : List (K × V)) → Distinct m → total (remove k m) + size_at k m ≡ total m
  unfolding total remove size_at get
  total-remove k [] d = omega arith
  total-remove k ((j, w) ∷ m) d = ground (arith, total-remove k m d.1, e.beq_iff k j)

  pub size_at-le : (k : K) (m : List (K × V)) → size_at k m ≤ total m
  unfolding total size_at get
  size_at-le k [] = omega arith
  size_at-le k ((j, w) ∷ m) = ground (arith, size_at-le k m, e.beq_iff k j)
