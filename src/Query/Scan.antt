-- ===== src/Query/Scan.antt =====
-- src/query.rs: pages of index rows over the epochs, with cursors. What heed iterates is an interface.
pub mod Rows
pub mod Order
pub mod Past
pub mod Pages
pub mod Backward
pub mod Assoc
use Prim.Native.Nat.{Ordering}
use mathlib.Core.List.{reverse}
use sov_vault.Base.{
  ℕ, ◌+◌, ◌^◌, ◌≡◌, Bool, true, false, not, ◌&&◌, List, [], ◌∷◌, ◌++◌, Option, none, some, max,
  length, split_at?, ltb, leb, ◌==◌, if◌then◌else◌,
}
use sov_vault.Bytes.{to_be_bytes, from_be_bytes}
use sov_vault.Bytes.Lex.{compare_bytes}
use sov_vault.Store.{Lmdb, Row}
use sov_vault.Query.{EpochTarget, EpochDb, Page, PageRows, QuerySession, dbs_of}

-- `Bound::Included` and `Bound::Excluded`.
pub data Bound : Type 0 where
  included excluded : List ℕ → Bound

abbrev pub is_lt : Ordering → Bool
is_lt Ordering.lt = true
is_lt Ordering.eq = false
is_lt Ordering.gt = false

abbrev pub is_le : Ordering → Bool
is_le Ordering.lt = true
is_le Ordering.eq = true
is_le Ordering.gt = false

abbrev pub is_from : Bound → List ℕ → Bool
is_from (included b) k = is_le (compare_bytes b k)
is_from (excluded b) k = is_lt (compare_bytes b k)

abbrev pub is_to : Bound → List ℕ → Bool
is_to (included b) k = is_le (compare_bytes k b)
is_to (excluded b) k = is_lt (compare_bytes k b)

-- The rows whose keys pass a test.
abbrev pub keep : (List ℕ → Bool) → List Row → List Row
keep test [] = []
keep test ((k, v) ∷ rows) = if test k then (k, v) ∷ keep test rows else keep test rows

abbrev pub Above : List ℕ → List Row → Type 0
Above k [] = Unit {0}
Above k ((j, v) ∷ rows) = (is_lt (compare_bytes k j) ≡ true) × Above k rows

-- Keys go up strictly.
abbrev pub IsAscending : List Row → Type 0
IsAscending [] = Unit {0}
IsAscending ((k, v) ∷ rows) = Above k rows × IsAscending rows

-- What heed and LMDB document of iteration: rows come in the order of their keys.
pub record Scans (db : Lmdb) : Type 0 where
  pub rows : db.Table → List Row
  pub range : db.Table → Bound → Bound → List Row
  pub rev_range : db.Table → Bound → Bound → List Row
  pub rows-IsAscending : (t : db.Table) → IsAscending (rows t)
  pub range_lem :
      (t : db.Table) (start end : Bound)
      → range t start end ≡ keep (λ k. is_from start k && is_to end k) (rows t)
  pub rev_range_lem :
      (t : db.Table) (start end : Bound)
      → rev_range t start end ≡ reverse (keep (λ k. is_from start k && is_to end k) (rows t))

-- (epoch_num, key, value).
abbrev pub RawEpochRow : Type 0
RawEpochRow = ℕ × List ℕ × List ℕ

unfoldable pub encode_cursor : ℕ → List ℕ → List ℕ
encode_cursor epoch key = to_be_bytes 4 epoch ++ key

unfoldable pub parse_cursor : Option (List ℕ) → ℕ × Option (List ℕ)
parse_cursor none = (0, none)
parse_cursor (some c) = elim (split_at? 4 c) [
  | none ↦ (0, none)
  | some (epoch, key) ↦ (from_be_bytes epoch, some key)
]

unfoldable pub last_row : List RawEpochRow → Option RawEpochRow
last_row [] = none
last_row (r ∷ []) = some r
last_row (r ∷ q ∷ rows) = last_row (q ∷ rows)

unfoldable pub paged {ℓ} : {A : Type ℓ} → List RawEpochRow → List A → ℕ → PageRows A
unfolding last_row encode_cursor
paged raw rows limit = elim (last_row raw) [
  | none ↦ record { rows = rows; has_more = false; next_cursor = none }
  | some (num, k, v) ↦ record {
    rows = rows;
    has_more = leb limit (length raw);
    next_cursor = some (encode_cursor num k);
  }
]

-- The loop over a scan's rows, which ends when the page is full.
unfoldable pub push_rows : ℕ → ℕ → List Row → List RawEpochRow → List RawEpochRow × Bool
push_rows limit num [] out = (out, false)
push_rows limit num ((k, v) ∷ items) out =
    let out' = out ++ (num, k, v) ∷ [] in
    let rest = push_rows limit num items out' in
    if leb limit (length out') then (out', true) else rest

-- `targets.iter().filter(..)` on the epoch's number.
unfoldable pub keep_targets : (ℕ → Bool) → List EpochTarget → List EpochTarget
keep_targets test [] = []
keep_targets test (t ∷ ts) =
    let rest = keep_targets test ts in if test t.num then t ∷ rest else rest

module _ (db : Lmdb) (scans : Scans db) where
  open scans use {range, rev_range}

  unfoldable pub epoch_items : db.Table → List ℕ → List ℕ → Option (List ℕ) → Bool → List Row
  epoch_items t lo hi none true = range t (included lo) (included hi)
  epoch_items t lo hi (some k) true = range t (excluded k) (included hi)
  epoch_items t lo hi none false = rev_range t (included lo) (included hi)
  epoch_items t lo hi (some k) false = rev_range t (included lo) (excluded k)

  unfoldable pub scan_epoch_range :
      db.Table
      → List ℕ
      → List ℕ
      → ℕ
      → Option (List ℕ)
      → Bool
      → ℕ
      → List RawEpochRow
      → List RawEpochRow × Bool
  unfolding epoch_items push_rows
  scan_epoch_range t lo hi num cursor_key forward limit out =
      push_rows limit num (epoch_items t lo hi cursor_key forward) out

  -- `if t.num == cur_epoch && page.cursor.is_some() { cur_key } else { None }`; without a cursor
  -- there is no key.
  unfoldable pub cursor_key_of : ℕ × Option (List ℕ) → ℕ → Option (List ℕ)
  cursor_key_of (cur_epoch, cur_key) num = if num == cur_epoch then cur_key else none

  unfoldable pub scan_targets :
      QuerySession db
      → EpochDb
      → List ℕ
      → List ℕ
      → ℕ × Option (List ℕ)
      → Bool
      → ℕ
      → List EpochTarget
      → List RawEpochRow
      → List RawEpochRow
  unfolding scan_epoch_range cursor_key_of dbs_of
  scan_targets s d lo hi cur forward limit [] out = out
  scan_targets s d lo hi cur forward limit (t ∷ ts) out =
      let scanned =
        scan_epoch_range (dbs_of db s t d) lo hi t.num (cursor_key_of cur t.num) forward limit
          out in
      let rest = scan_targets s d lo hi cur forward limit ts scanned.0 in
      if scanned.1 then scanned.0 else rest

  unfoldable pub page_rows_epochs :
      QuerySession db → EpochDb → List ℕ → List ℕ → Page → List RawEpochRow
  unfolding parse_cursor keep_targets scan_targets
  page_rows_epochs s d lo hi page =
      let limit = max page.limit 1 in
      let cur = parse_cursor page.cursor in
      let epochs =
        if page.forward
        then keep_targets (λ num. leb cur.0 num) s.targets
        else keep_targets (λ num. leb num cur.0) (reverse s.targets) in
      scan_targets s d lo hi cur page.forward limit epochs []
