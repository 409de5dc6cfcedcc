-- ===== src/Reassembly/Pending.antt =====
-- src/reassembly.rs: `BTreeMap<u64, Vec<u8>>`, the chunks of a segment that wait, by their offset.
use sov_vault.Base.{
  ℕ, suc, ◌+◌, ◌≤◌, ◌≡◌, true, false, List, [], ◌∷◌, Option, none, some, arith, length, ltb, ◌==◌,
  Option-cases, Bool-cases, inl, inr, if◌then◌else◌,
}

abbrev pub Pending : Type 0
Pending = List (ℕ × List ℕ)

-- The keys rise along the list; an insertion at a key that is there replaces its chunk.
unfoldable pub insert : ℕ → List ℕ → Pending → Pending
insert k d [] = (k, d) ∷ []
insert k d ((j, c) ∷ m) =
    if k == j then (k, d) ∷ m else if ltb k j then (k, d) ∷ (j, c) ∷ m else (j, c) ∷ insert k d m

-- `remove(&k)`: the chunk and what is left.
unfoldable pub remove : ℕ → Pending → Option (List ℕ × Pending)
remove k [] = none
remove k ((j, c) ∷ m) = elim (k == j) [
  | true ↦ some (c, m)
  | false ↦ elim (remove k m) [ none ↦ none | some (d, rest) ↦ some (d, (j, c) ∷ rest) ]
]

-- `first_key_value()`.
unfoldable pub first_key : Pending → Option ℕ
first_key [] = none
first_key ((j, c) ∷ m) = some j

-- The bytes that wait.
unfoldable pub bytes : Pending → ℕ
bytes [] = 0
bytes ((j, c) ∷ m) = length c + bytes m

-- A property of every chunk and its offset.
abbrev pub All : (ℕ → List ℕ → Type 0) → Pending → Type 0
All P [] = Unit {0}
All P ((j, c) ∷ m) = P j c × All P m

pub All-insert :
    (P : ℕ → List ℕ → Type 0) (k : ℕ) (d : List ℕ) (m : Pending)
    → P k d
    → All P m
    → All P (insert k d m)
unfolding insert
All-insert P k d [] p h = (p, tt)
All-insert P k d ((j, c) ∷ m) p h = ground (arith, All-insert P k d m p h.1)

pub remove-All :
    (P : ℕ → List ℕ → Type 0) (k : ℕ) (m : Pending) (d : List ℕ) (rest : Pending)
    → remove k m ≡ some (d, rest)
    → All P m
    → P k d × All P rest
unfolding remove
remove-All P k [] d rest e h = cc
remove-All P k ((j, c) ∷ m) d rest e h = elim (Option-cases (remove k m)) [
  | inl n ↦ ground arith
  | inr ((d', rest'), s) ↦ ground (arith, remove-All P k m d' rest' s h.1)
]

pub remove-bytes :
    (k : ℕ) (m : Pending) (d : List ℕ) (rest : Pending)
    → remove k m ≡ some (d, rest)
    → (bytes m ≡ length d + bytes rest) × (length m ≡ suc (length rest))
unfolding remove bytes
remove-bytes k [] d rest e = cc
remove-bytes k ((j, c) ∷ m) d rest e = elim (Option-cases (remove k m)) [
  | inl n ↦ ground arith
  | inr ((d', rest'), s) ↦ ground (arith, remove-bytes k m d' rest' s)
]

pub bytes-insert-le : (k : ℕ) (d : List ℕ) (m : Pending) → bytes (insert k d m) ≤ length d + bytes m
unfolding insert bytes
bytes-insert-le k d [] = omega arith
bytes-insert-le k d ((j, c) ∷ m) = ground (arith, bytes-insert-le k d m)

pub remove-nil : (k : ℕ) (m : Pending) → m ≡ [] → remove k m ≡ none
unfolding remove
remove-nil k m e = rw e

-- The first key can be taken out.
pub remove-first_key :
    (k : ℕ) (m : Pending)
    → first_key m ≡ some k
    → (d : List ℕ) × (rest : Pending) × (remove k m ≡ some (d, rest))
unfolding remove first_key
remove-first_key k [] h = absurd (ground arith)
remove-first_key k ((j, c) ∷ m) h = (c, m, ground arith)

pub insert_twice : (k : ℕ) (d : List ℕ) (m : Pending) → insert k d (insert k d m) ≡ insert k d m
unfolding insert
insert_twice k d [] = ground arith
insert_twice k d ((j, c) ∷ m) = ground (arith, insert_twice k d m)

-- What was stored can be taken out.
pub remove-insert_self :
    (k : ℕ) (d : List ℕ) (m : Pending)
    → (rest : Pending) × (remove k (insert k d m) ≡ some (d, rest))
unfolding remove insert
remove-insert_self k d [] = ([], ground arith)
remove-insert_self k d ((j, c) ∷ m) = elim (Bool-cases (k == j)) [
  | inl b ↦ (m, ground arith)
  | inr b ↦ elim (Bool-cases (ltb k j)) [
    | inl l ↦ ((j, c) ∷ m, ground arith)
    | inr l ↦ let (rest, e) = remove-insert_self k d m in ((j, c) ∷ rest, ground arith)
  ]
]
