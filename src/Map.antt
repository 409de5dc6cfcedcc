-- ===== src/Map.antt =====
-- `std::collections::HashMap` as a list of entries: the list's order is the map's order of iteration.
pub mod Laws
pub mod Total
use sov_vault.Base.{
  ℕ, ◌≡◌, ◌↔◌, Bool, true, false, ◌&&◌, List, [], ◌∷◌, Option, none, some, arith, ==_iff,
  if◌then◌else◌,
}
use sov_vault.Base.{◌==◌ as nat_beq}

pub record Eq {ℓ} (K : Type ℓ) : Type ℓ where
  pub beq : K → K → Bool
  pub beq_iff : (a b : K) → (beq a b ≡ true) ↔ (a ≡ b)

instance abbrev pub nat_eq : Eq ℕ
nat_eq = record { beq = nat_beq; beq_iff = ==_iff }

pub pair_beq_iff : (a b : ℕ × ℕ) → (nat_beq a.0 b.0 && nat_beq a.1 b.1 ≡ true) ↔ (a ≡ b)
pair_beq_iff a b = ground arith

instance abbrev pub pair_eq : Eq (ℕ × ℕ)
pair_eq = record { beq = λ a b. nat_beq a.0 b.0 && nat_beq a.1 b.1; beq_iff = pair_beq_iff }

module _ {K V : Type 0} ⦃e : Eq K⦄ where
  unfoldable pub get : K → List (K × V) → Option V
  get k [] = none
  get k ((j, v) ∷ m) = if e.beq k j then some v else get k m

  unfoldable pub insert : K → V → List (K × V) → List (K × V)
  insert k v [] = (k, v) ∷ []
  insert k v ((j, w) ∷ m) = if e.beq k j then (j, v) ∷ m else (j, w) ∷ insert k v m

  unfoldable pub remove : K → List (K × V) → List (K × V)
  remove k [] = []
  remove k ((j, w) ∷ m) = let rest = remove k m in if e.beq k j then rest else (j, w) ∷ rest

  -- `if let Some(v) = m.get_mut(&k) { *v = f(*v) }`.
  unfoldable pub modify : K → (V → V) → List (K × V) → List (K × V)
  modify k f [] = []
  modify k f ((j, w) ∷ m) = if e.beq k j then (j, f w) ∷ m else (j, w) ∷ modify k f m

  -- No key stands twice.
  abbrev pub Distinct : List (K × V) → Type 0
  Distinct [] = Unit {0}
  Distinct ((k, v) ∷ m) = (get k m ≡ none) × Distinct m
