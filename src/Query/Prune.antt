-- ===== src/Query/Prune.antt =====
-- src/query.rs: the choice of epochs by the times that the ledger has for them.
pub mod Replay
use sov_vault.Base.{
  ℕ, ◌-◌, ◌^◌, Bool, true, not, ◌||◌, List, [], ◌∷◌, Option, none, some, ltb, if◌then◌else◌,
}
use sov_vault.Map
use sov_vault.Map.{nat_eq}
use sov_vault.Query.{EpochTarget}

-- The columns of the table epochs that are read; a number of 64 bits with a sign is its bits.
pub record EpochBoundary : Type 0 where
  pub epoch_id : ℕ
  pub min_ts : Option ℕ
  pub max_ts : Option ℕ

-- `.map(|b| (b.epoch_id, b)).collect()`.
unfoldable pub boundaries_of :
    List EpochBoundary → List (ℕ × EpochBoundary) → List (ℕ × EpochBoundary)
unfolding Map.insert
boundaries_of [] m = m
boundaries_of (b ∷ bs) m = boundaries_of bs (Map.insert b.epoch_id b m)

unfoldable pub min_of : EpochBoundary → ℕ
min_of b = elim b.min_ts [ none ↦ 0 | some v ↦ v ]

unfoldable pub max_of : EpochBoundary → ℕ
max_of b = elim b.max_ts [ none ↦ 2 ^ 64 - 1 | some v ↦ v ]

-- The test of the filter.
unfoldable pub overlaps : List (ℕ × EpochBoundary) → ℕ → ℕ → EpochTarget → Bool
unfolding Map.get min_of max_of
overlaps boundaries s e t = if t.is_current then true else (elim (Map.get t.num boundaries) [
  | none ↦ true
  | some b ↦ not (ltb (max_of b) s || ltb e (min_of b))
])

unfoldable pub keep_overlapping :
    List (ℕ × EpochBoundary) → ℕ → ℕ → List EpochTarget → List EpochTarget
unfolding overlaps
keep_overlapping boundaries s e [] = []
keep_overlapping boundaries s e (t ∷ ts) =
    let rest = keep_overlapping boundaries s e ts in
    if overlaps boundaries s e t then t ∷ rest else rest

unfoldable pub prune_targets_by_window :
    List EpochTarget → List EpochBoundary → Option ℕ → Option ℕ → List EpochTarget
unfolding keep_overlapping boundaries_of
prune_targets_by_window targets rows none none = targets
prune_targets_by_window targets rows (some s) none =
    keep_overlapping (boundaries_of rows []) s (2 ^ 64 - 1) targets
prune_targets_by_window targets rows none (some e) =
    keep_overlapping (boundaries_of rows []) 0 e targets
prune_targets_by_window targets rows (some s) (some e) =
    keep_overlapping (boundaries_of rows []) s e targets
