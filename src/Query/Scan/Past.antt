-- ===== src/Query/Scan/Past.antt =====
-- src/query.rs: which of an epoch's rows lie past a cursor.
use sov_vault.Base.{
  ℕ, ◌<◌, ◌≡◌, refl, ap, Bool, true, false, ◌&&◌, List, [], ◌∷◌, ◌++◌, arith, Bool-cases, inl, inr,
}
use sov_vault.Bytes.Lex.{compare_bytes}
use sov_vault.Store.{Row}
use sov_vault.Query.{EpochTarget}
use sov_vault.Query.Scan.{RawEpochRow, is_lt, is_le, keep, Above, IsAscending}
use sov_vault.Query.Scan.Rows.{tag}
use sov_vault.Query.Scan.Order.{compare_bytes_trans, past, rows_past, ArePast, IsOrdered}

-- The keys from `lo` to `hi`.
abbrev pub inside : List ℕ → List ℕ → List ℕ → Bool
inside lo hi k = is_le (compare_bytes lo k) && is_le (compare_bytes k hi)

Above-keep :
    (test : List ℕ → Bool) (k : List ℕ) (rows : List Row) → Above k rows → Above k (keep test rows)
Above-keep test k [] h = h
Above-keep test k ((j, v) ∷ rows) h = elim (Bool-cases (test j)) [
  | inl e ↦ rw e (h.0, Above-keep test k rows h.1)
  | inr e ↦ rw e (Above-keep test k rows h.1)
]

pub keep-IsAscending :
    (test : List ℕ → Bool) (rows : List Row) → IsAscending rows → IsAscending (keep test rows)
keep-IsAscending test [] h = h
keep-IsAscending test ((j, v) ∷ rows) h = elim (Bool-cases (test j)) [
  | inl e ↦ rw e (Above-keep test j rows h.0, keep-IsAscending test rows h.1)
  | inr e ↦ rw e (keep-IsAscending test rows h.1)
]

pub ArePast-append :
    (n : ℕ) (k : List ℕ) (xs ys : List RawEpochRow)
    → ArePast n k xs
    → ArePast n k ys
    → ArePast n k (xs ++ ys)
ArePast-append n k [] ys h g = g
ArePast-append n k (x ∷ xs) ys h g = (h.0, ArePast-append n k xs ys h.1 g)

ArePast-tag : (n : ℕ) (k : List ℕ) (rows : List Row) → Above k rows → ArePast n k (tag n rows)
ArePast-tag n k [] h = h
ArePast-tag n k ((j, v) ∷ rows) h = (ground (arith, h.0), ArePast-tag n k rows h.1)

pub ArePast-later : (n m : ℕ) (k : List ℕ) (rows : List Row) → n < m → ArePast n k (tag m rows)
ArePast-later n m k [] h = record {}
ArePast-later n m k ((j, v) ∷ rows) h = (ground arith, ArePast-later n m k rows h)

pub tag-IsOrdered :
    (n : ℕ) (rows : List Row) (later : List RawEpochRow)
    → IsAscending rows
    → ((k : List ℕ) → ArePast n k later)
    → IsOrdered later
    → IsOrdered (tag n rows ++ later)
tag-IsOrdered n [] later h p o = o
tag-IsOrdered n ((k, v) ∷ rows) later h p o = (
  ArePast-append n k (tag n rows) later (ArePast-tag n k rows h.0) (p k),
  tag-IsOrdered n rows later h.1 p o,
)

-- Targets have numbers above a number; targets in rising order.
abbrev pub AllAfter : ℕ → List EpochTarget → Type 0
AllAfter n [] = Unit {0}
AllAfter n (t ∷ ts) = (n < t.num) × AllAfter n ts

abbrev pub IsRising : List EpochTarget → Type 0
IsRising [] = Unit {0}
IsRising (t ∷ ts) = AllAfter t.num ts × IsRising ts

pub rows_past-append :
    (n : ℕ) (k : List ℕ) (xs ys : List RawEpochRow)
    → rows_past n k (xs ++ ys) ≡ rows_past n k xs ++ rows_past n k ys
rows_past-append n k [] ys = refl
rows_past-append n k (x ∷ xs) ys = elim (Bool-cases (past n k x)) [
  | inl e ↦ rw e (ap (λ t. x ∷ t) (rows_past-append n k xs ys))
  | inr e ↦ rw e (rows_past-append n k xs ys)
]

pub rows_past-earlier :
    (n m : ℕ) (k : List ℕ) (rows : List Row) → m < n → rows_past n k (tag m rows) ≡ []
rows_past-earlier n m k [] h = refl
rows_past-earlier n m k ((j, v) ∷ rows) h =
    let e : past n k (m, j, v) ≡ false = ground arith in rw e (rows_past-earlier n m k rows h)

pub rows_past-later :
    (n m : ℕ) (k : List ℕ) (rows : List Row) → n < m → rows_past n k (tag m rows) ≡ tag m rows
rows_past-later n m k [] h = refl
rows_past-later n m k ((j, v) ∷ rows) h =
    let e : past n k (m, j, v) ≡ true = ground arith in
    rw e (ap (λ t. (m, j, v) ∷ t) (rows_past-later n m k rows h))

-- In the epoch of the cursor, the rows behind it up to `hi` are those inside the bounds past it.
pub rows_past-same :
    (n : ℕ) (k lo hi : List ℕ) (rows : List Row)
    → is_le (compare_bytes lo k) ≡ true
    → rows_past n k (tag n (keep (inside lo hi) rows))
      ≡ tag n (keep (λ j. is_lt (compare_bytes k j) && is_le (compare_bytes j hi)) rows)
rows_past-same n k lo hi [] h = refl
rows_past-same n k lo hi ((j, v) ∷ rows) h =
    let ih = rows_past-same n k lo hi rows h in
    elim (Bool-cases (is_lt (compare_bytes k j))) [
      | inl e ↦
          let in_lo : is_le (compare_bytes lo j) ≡ true =
            ground (arith, compare_bytes_trans lo k j h e) in
          let p : past n k (n, j, v) ≡ true = ground (arith, e) in
          elim (Bool-cases (is_le (compare_bytes j hi))) [
            | inl to ↦ rw (e, in_lo, to) (rw p (ap (λ t. (n, j, v) ∷ t) ih))
            | inr to ↦ rw (e, in_lo, to) ih
          ]
      | inr e ↦
          let p : past n k (n, j, v) ≡ false = ground (arith, e) in
          elim (Bool-cases (inside lo hi j)) [
            | inl here ↦ rw (e, here) (rw p ih)
            | inr out ↦ rw (e, out) ih
          ]
    ]
