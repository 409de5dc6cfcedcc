-- ===== src/Query/Scan/Order.antt =====
-- src/query.rs: the order of rows over the epochs, by the epoch's number and then by key, and what lies
-- past a cursor.
use sov_vault.Base.{
  ℕ, ◌≡◌, refl, ap, Bool, true, false, ◌&&◌, ◌||◌, List, [], ◌∷◌, ◌++◌, arith, ltb, ◌==◌,
  if◌then◌else◌,
}
use sov_vault.Bytes.Lex.{compare_bytes}
use sov_vault.Query.Scan.{RawEpochRow, is_lt, is_le}

compare_bytes_self : (a : List ℕ) → is_lt (compare_bytes a a) ≡ false
unfolding compare_bytes
compare_bytes_self [] = refl
compare_bytes_self (x ∷ xs) = ground (arith, compare_bytes_self xs)

compare_bytes_turn :
    (a b : List ℕ) → is_lt (compare_bytes a b) ≡ true → is_lt (compare_bytes b a) ≡ false
unfolding compare_bytes
compare_bytes_turn [] [] h = absurd (ground arith)
compare_bytes_turn [] (y ∷ ys) h = refl
compare_bytes_turn (x ∷ xs) [] h = absurd (ground arith)
compare_bytes_turn (x ∷ xs) (y ∷ ys) h = ground (arith, compare_bytes_turn xs ys)

pub compare_bytes_trans :
    (a b c : List ℕ)
    → is_le (compare_bytes a b) ≡ true
    → is_lt (compare_bytes b c) ≡ true
    → is_lt (compare_bytes a c) ≡ true
unfolding compare_bytes
compare_bytes_trans [] [] c p q = q
compare_bytes_trans [] (y ∷ ys) [] p q = absurd (ground arith)
compare_bytes_trans [] (y ∷ ys) (z ∷ zs) p q = refl
compare_bytes_trans (x ∷ xs) [] c p q = absurd (ground arith)
compare_bytes_trans (x ∷ xs) (y ∷ ys) [] p q = absurd (ground arith)
compare_bytes_trans (x ∷ xs) (y ∷ ys) (z ∷ zs) p q = ground (arith, compare_bytes_trans xs ys zs)

-- A row lies past a place.
abbrev pub past : ℕ → List ℕ → RawEpochRow → Bool
past n k (m, j, v) = ltb n m || ((n == m) && is_lt (compare_bytes k j))

abbrev pub rows_past : ℕ → List ℕ → List RawEpochRow → List RawEpochRow
rows_past n k [] = []
rows_past n k (r ∷ rows) = if past n k r then r ∷ rows_past n k rows else rows_past n k rows

abbrev pub ArePast : ℕ → List ℕ → List RawEpochRow → Type 0
ArePast n k [] = Unit {0}
ArePast n k (r ∷ rows) = (past n k r ≡ true) × ArePast n k rows

-- Each row lies past those before it.
abbrev pub IsOrdered : List RawEpochRow → Type 0
IsOrdered [] = Unit {0}
IsOrdered ((n, k, v) ∷ rows) = ArePast n k rows × IsOrdered rows

past_self : (n : ℕ) (k v : List ℕ) → past n k (n, k, v) ≡ false
past_self n k v = ground (arith, compare_bytes_self k)

past_turn : (n m : ℕ) (k j v w : List ℕ) → past n k (m, j, v) ≡ true → past m j (n, k, w) ≡ false
past_turn n m k j v w h = ground (arith, compare_bytes_turn k j)

rows_past-all :
    (n : ℕ) (k : List ℕ) (rows : List RawEpochRow) → ArePast n k rows → rows_past n k rows ≡ rows
rows_past-all n k [] h = refl
rows_past-all n k (r ∷ rows) h = rw h.0 (ap (λ t. r ∷ t) (rows_past-all n k rows h.1))

past-member :
    (m n : ℕ) (j k v : List ℕ) (before after : List RawEpochRow)
    → ArePast m j (before ++ (n, k, v) ∷ after)
    → past m j (n, k, v) ≡ true
past-member m n j k v [] after h = h.0
past-member m n j k v (r ∷ before) after h = past-member m n j k v before after h.1

-- In an ordered list the rows past one of them are those behind it.
pub rows_past-behind :
    (n : ℕ) (k v : List ℕ) (before after rows : List RawEpochRow)
    → rows ≡ before ++ (n, k, v) ∷ after
    → IsOrdered rows
    → rows_past n k rows ≡ after
rows_past-behind n k v before after rows e h = rw e (behind before (rw e at h))
  where
    behind :
        (pre : List RawEpochRow)
        → IsOrdered (pre ++ (n, k, v) ∷ after)
        → rows_past n k (pre ++ (n, k, v) ∷ after) ≡ after
    behind [] o = rw (past_self n k v) (rows_past-all n k after o.0)
    behind ((m, j, w) ∷ pre) o =
        rw (past_turn m n j k v w (past-member m n j k v pre after o.0)) (behind pre o.1)
