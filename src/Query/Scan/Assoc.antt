-- ===== src/Query/Scan/Assoc.antt =====
-- Tables as lists of rows, iterated in the order of their keys, as an instance of the interface.
use Prim.Native.Nat.{Ordering}
use mathlib.Core.List.{reverse}
use sov_vault.Base.{ℕ, ◌≡◌, refl, ap, true, ◌&&◌, List, [], ◌∷◌, arith}
use sov_vault.Bytes.Lex.{compare_bytes}
use sov_vault.Store.{Row}
use sov_vault.Store.Assoc.{assoc}
use sov_vault.Query.Scan.{is_lt, is_from, is_to, keep, Above, IsAscending, Scans}
use sov_vault.Query.Scan.Order.{compare_bytes_trans}

abbrev order_row : Row → List Row → List Row
order_row (k, v) [] = (k, v) ∷ []
order_row (k, v) ((j, w) ∷ rows) = elim (compare_bytes k j) [
  | Ordering.lt ↦ (k, v) ∷ (j, w) ∷ rows
  | Ordering.eq ↦ (j, w) ∷ rows
  | Ordering.gt ↦ (j, w) ∷ order_row (k, v) rows
]

unfoldable pub ordered : List Row → List Row
ordered [] = []
ordered (r ∷ rows) = order_row r (ordered rows)

compare_bytes-gt :
    (a b : List ℕ) → compare_bytes a b ≡ Ordering.gt → is_lt (compare_bytes b a) ≡ true
unfolding compare_bytes
compare_bytes-gt [] [] h = absurd (ground arith)
compare_bytes-gt [] (y ∷ ys) h = absurd (ground arith)
compare_bytes-gt (x ∷ xs) [] h = refl
compare_bytes-gt (x ∷ xs) (y ∷ ys) h = ground (arith, compare_bytes-gt xs ys)

Above-trans :
    (k j : List ℕ) (rows : List Row)
    → is_lt (compare_bytes k j) ≡ true
    → Above j rows
    → Above k rows
Above-trans k j [] e h = h
Above-trans k j ((i, w) ∷ rows) e h =
    (compare_bytes_trans k j i (ground (arith, e)) h.0, Above-trans k j rows e h.1)

order_row-Above :
    (j k v : List ℕ) (rows : List Row)
    → is_lt (compare_bytes j k) ≡ true
    → Above j rows
    → Above j (order_row (k, v) rows)
order_row-Above j k v [] e h = (e, h)
order_row-Above j k v ((i, w) ∷ rows) e h =
    cases (order_row-Above j k v rows e h.1) (compare_bytes k i)
  where
    cases :
        Above j (order_row (k, v) rows)
        → (o : Ordering)
        → Above j (elim o [
          | Ordering.lt ↦ (k, v) ∷ (i, w) ∷ rows
          | Ordering.eq ↦ (i, w) ∷ rows
          | Ordering.gt ↦ (i, w) ∷ order_row (k, v) rows
        ])
    cases placed Ordering.lt = (e, h)
    cases placed Ordering.eq = h
    cases placed Ordering.gt = (h.0, placed)

order_row-IsAscending :
    (k v : List ℕ) (rows : List Row) → IsAscending rows → IsAscending (order_row (k, v) rows)
order_row-IsAscending k v [] h = (h, h)
order_row-IsAscending k v ((i, w) ∷ rows) h =
    cases (order_row-IsAscending k v rows h.1) (compare_bytes k i) refl
  where
    cases :
        IsAscending (order_row (k, v) rows)
        → (o : Ordering) → compare_bytes k i ≡ o
        → IsAscending (elim o [
          | Ordering.lt ↦ (k, v) ∷ (i, w) ∷ rows
          | Ordering.eq ↦ (i, w) ∷ rows
          | Ordering.gt ↦ (i, w) ∷ order_row (k, v) rows
        ])
    cases up Ordering.lt e =
        let under : is_lt (compare_bytes k i) ≡ true = ap is_lt e in
        ((under, Above-trans k i rows under h.0), h)
    cases up Ordering.eq e = h
    cases up Ordering.gt e = (order_row-Above i k v rows (compare_bytes-gt k i e) h.0, up)

pub ordered-IsAscending : (rows : List Row) → IsAscending (ordered rows)
unfolding ordered
ordered-IsAscending [] = record {}
ordered-IsAscending ((k, v) ∷ rows) =
    order_row-IsAscending k v (ordered rows) (ordered-IsAscending rows)

abbrev pub assoc_scans : Scans assoc
assoc_scans = record {
  rows = ordered;
  range = λ t start end. keep (λ k. is_from start k && is_to end k) (ordered t);
  rev_range = λ t start end. reverse (keep (λ k. is_from start k && is_to end k) (ordered t));
  rows-IsAscending = ordered-IsAscending;
  range_lem = λ t start end. refl;
  rev_range_lem = λ t start end. refl;
}
