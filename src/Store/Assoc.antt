-- ===== src/Store/Assoc.antt =====
-- A table as a list of rows, as an instance of the interface.
use sov_vault.Base.{
  ℕ, ◌≡◌, refl, true, false, ◌⊎◌, inl, inr, List, [], ◌∷◌, Option, none, some, arith, if◌then◌else◌,
  Bool-cases,
}
use sov_vault.Map
use sov_vault.Map.{Distinct}
use sov_vault.Map.Laws.{get-insert, get-remove}
use sov_vault.Db.Keys.Order.{in_range}
use sov_vault.Store.{bytes_eq, bytes_eq_iff, list_eq, Row, Has, Lmdb}

abbrev pub put_new : List Row → List ℕ → List ℕ → Option (List Row)
put_new t k v = elim (Map.get k t) [ none ↦ some (Map.insert k v t) | some w ↦ none ]

-- The rows in the range, the first of each key.
unfoldable pub select : List ℕ → List ℕ → List Row → List Row
select lo hi [] = []
select lo hi ((k, v) ∷ t) =
    let rest = Map.remove k (select lo hi t) in if in_range lo hi k then (k, v) ∷ rest else rest

Has-remove-of :
    (k j v : List ℕ) (t : List Row)
    → Has (j, v) (Map.remove k t)
    → Has (j, v) t × (bytes_eq k j ≡ false)
unfolding Map.remove
Has-remove-of k j v [] h = absurd h
Has-remove-of k j v ((i, w) ∷ t) h = elim (Bool-cases (bytes_eq k i)) [
  | inl b ↦ let ih = Has-remove-of k j v t (rw (Map.remove, b) at h) in (inr ih.0, ih.1)
  | inr b ↦ elim (split b) [
    | inl e ↦ (inl e, ground arith)
    | inr rest ↦ let ih = Has-remove-of k j v t rest in (inr ih.0, ih.1)
  ]
]
  where
    split : bytes_eq k i ≡ false → (◌≡◌ {A = Row} (j, v) (i, w)) ⊎ Has (j, v) (Map.remove k t)
    split b = rw (Map.remove, b) at h

Has-remove-to :
    (k j v : List ℕ) (t : List Row)
    → Has (j, v) t
    → bytes_eq k j ≡ false
    → Has (j, v) (Map.remove k t)
unfolding Map.remove
Has-remove-to k j v [] h n = h
Has-remove-to k j v ((i, w) ∷ t) h n = elim (Bool-cases (bytes_eq k i)) [
  | inl b ↦ elim h [
    | inl e ↦ absurd (ground arith)
    | inr rest ↦ rw (Map.remove, b) (Has-remove-to k j v t rest n)
  ]
  | inr b ↦ elim h [
    | inl e ↦ rw (Map.remove, b) (inl e)
    | inr rest ↦ rw (Map.remove, b) (inr (Has-remove-to k j v t rest n))
  ]
]

beq_self : (k : List ℕ) → bytes_eq k k ≡ true
beq_self k = (bytes_eq_iff k k).1 refl

pub select-of :
    (lo hi k v : List ℕ) (t : List Row)
    → Has (k, v) (select lo hi t)
    → (Map.get k t ≡ some v) × (in_range lo hi k ≡ true)
unfolding select Map.get
select-of lo hi k v [] h = absurd h
select-of lo hi k v ((i, w) ∷ t) h = elim (Bool-cases (in_range lo hi i)) [
  | inl b ↦ elim (head b) [
    | inl e ↦ ground (arith, beq_self i)
    | inr rest ↦ older (select-of lo hi k v t) rest
  ]
  | inr b ↦ older (select-of lo hi k v t) (tail b)
]
  where
    head :
        in_range lo hi i ≡ true
        → (◌≡◌ {A = Row} (k, v) (i, w)) ⊎ Has (k, v) (Map.remove i (select lo hi t))
    head b = rw (select, b) at h

    tail : in_range lo hi i ≡ false → Has (k, v) (Map.remove i (select lo hi t))
    tail b = rw (select, b) at h

    older :
        (Has (k, v) (select lo hi t) → (Map.get k t ≡ some v) × (in_range lo hi k ≡ true))
        → Has (k, v) (Map.remove i (select lo hi t))
        → (Map.get k ((i, w) ∷ t) ≡ some v) × (in_range lo hi k ≡ true)
    older ih rest =
        let (there, other) = Has-remove-of i k v (select lo hi t) rest in
        let found = ih there in
        (ground (arith, found.0, other, bytes_eq_iff i k, bytes_eq_iff k i), found.1)

pub select-to :
    (lo hi k v : List ℕ) (t : List Row)
    → Map.get k t ≡ some v
    → in_range lo hi k ≡ true
    → Has (k, v) (select lo hi t)
unfolding select Map.get
select-to lo hi k v [] g b = absurd (ground arith)
select-to lo hi k v ((i, w) ∷ t) g b = elim (Bool-cases (bytes_eq k i)) [
  | inl same ↦
      let e : k ≡ i = (bytes_eq_iff k i).0 same in
      let at_i : in_range lo hi i ≡ true = rw (← e) b in
      let row : ◌≡◌ {A = Row} (k, v) (i, w) = ground arith in rw (select, at_i) (inl row)
  | inr other ↦
      let ih = select-to lo hi k v t (ground arith) b in
      let kept =
        Has-remove-to i k v (select lo hi t) ih
          (ground (arith, bytes_eq_iff i k, bytes_eq_iff k i)) in
      elim (Bool-cases (in_range lo hi i)) [
        | inl c ↦ rw (select, c) (inr kept)
        | inr c ↦ rw (select, c) kept
      ]
]

-- Lists of rows meet what the interface asks.
abbrev pub assoc : Lmdb
assoc = record {
  Table = List Row;
  get = λ t k. Map.get k t;
  put = λ t k v. Map.insert k v t;
  put_new = put_new;
  delete = λ t k. Map.remove k t;
  range = λ t lo hi. select lo hi t;
  get-put = λ t k v j. get-insert j k v t;
  put_new_lem = λ t k v. refl;
  get-delete = λ t k j. get-remove j k t;
  range_iff = λ t lo hi k v. (select-of lo hi k v t, λ h. select-to lo hi k v t h.0 h.1);
}
