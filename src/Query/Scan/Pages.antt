-- ===== src/Query/Scan/Pages.antt =====
-- src/query.rs: the page at the cursor of a row, and the rows of all epochs behind that row.
use sov_vault.Base.{
  ℕ, ◌^◌, ◌<◌, ◌≡◌, ◌∙◌, refl, sym, ap, subst, true, ◌&&◌, max, List, [], ◌∷◌, ◌++◌, Option, none,
  some, arith, leb, ◌==◌, Bool-cases, inl, inr, split_at?, split_at?-append, append_assoc,
}
use sov_vault.Bytes.{from-to_be_bytes, to_be_bytes, length-to_be_bytes}
use sov_vault.Bytes.Lex.{compare_bytes}
use sov_vault.Store.{Lmdb, Row}
use sov_vault.Query.{EpochTarget, EpochDb, QuerySession, dbs_of}
use sov_vault.Query.Scan.{
  included, excluded, Scans, RawEpochRow, is_lt, is_le, keep, keep_targets, epoch_items,
  cursor_key_of, page_rows_epochs, encode_cursor, parse_cursor, last_row,
}
use sov_vault.Query.Scan.Rows.{first, tag, stream, scan_targets_lem}
use sov_vault.Query.Scan.Order.{rows_past, ArePast, IsOrdered, rows_past-behind}
use sov_vault.Query.Scan.Past.{
  inside, keep-IsAscending, tag-IsOrdered, ArePast-append, ArePast-later, AllAfter, IsRising,
  rows_past-append, rows_past-earlier, rows_past-later, rows_past-same,
}

parse-encode_cursor :
    (n : ℕ) (k : List ℕ) → n < 2 ^ 32 → parse_cursor (some (encode_cursor n k)) ≡ (n, some k)
unfolding parse_cursor encode_cursor
parse-encode_cursor n k h =
    let cut : split_at? 4 (to_be_bytes 4 n ++ k) ≡ some (to_be_bytes 4 n, k) =
      subst (λ (w : ℕ). split_at? w (to_be_bytes 4 n ++ k) ≡ some (to_be_bytes 4 n, k))
        (length-to_be_bytes 4 n) (split_at?-append (to_be_bytes 4 n) k) in
    rw (parse_cursor, encode_cursor, cut) (rw (from-to_be_bytes 4 n h) refl)

keep_targets-all : (ts : List EpochTarget) → keep_targets (λ num. leb 0 num) ts ≡ ts
unfolding keep_targets
keep_targets-all [] = refl
keep_targets-all (t ∷ ts) =
    let e : leb 0 t.num ≡ true = ground arith in
    rw (keep_targets, e) (ap (λ x. t ∷ x) (keep_targets-all ts))

-- The cursor that a page gives on.
abbrev pub cursor_after : List RawEpochRow → Option (List ℕ)
cursor_after raw = elim (last_row raw) [ none ↦ none | some (n, k, v) ↦ some (encode_cursor n k) ]

pub last_row-split :
    (rows : List RawEpochRow) (r : RawEpochRow)
    → (before : List RawEpochRow) × (last : RawEpochRow) × (r ∷ rows ≡ before ++ last ∷ [])
      × (last_row (r ∷ rows) ≡ some last)
unfolding last_row
last_row-split [] r = ([], r, refl, refl)
last_row-split (q ∷ rows) r =
    let (before, last, e, l) = last_row-split rows q in (r ∷ before, last, ap (λ x. r ∷ x) e, l)

-- The numbers of epochs have 32 bits.
abbrev pub AreNumbers : List EpochTarget → Type 0
AreNumbers [] = Unit {0}
AreNumbers (t ∷ ts) = (t.num < 2 ^ 32) × AreNumbers ts

module _ (db : Lmdb) (scans : Scans db) (s : QuerySession db) (d : EpochDb) (lo hi : List ℕ) where
  -- The rows inside the bounds in all targets, epoch after epoch.
  abbrev pub contents : List EpochTarget → List RawEpochRow
  contents [] = []
  contents (t ∷ ts) = tag t.num (keep (inside lo hi) (scans.rows (dbs_of db s t d))) ++ contents ts

  contents-ArePast :
      (n : ℕ) (k : List ℕ) (ts : List EpochTarget) → AllAfter n ts → ArePast n k (contents ts)
  contents-ArePast n k [] h = h
  contents-ArePast n k (t ∷ ts) h =
      ArePast-append n k _ (contents ts) (ArePast-later n t.num k _ h.0)
        (contents-ArePast n k ts h.1)

  contents-IsOrdered : (ts : List EpochTarget) → IsRising ts → IsOrdered (contents ts)
  contents-IsOrdered [] h = h
  contents-IsOrdered (t ∷ ts) h =
      tag-IsOrdered t.num (keep (inside lo hi) (scans.rows (dbs_of db s t d))) (contents ts)
        (keep-IsAscending (inside lo hi) _ (scans.rows-IsAscending (dbs_of db s t d)))
        (λ k. contents-ArePast t.num k ts h.0) (contents-IsOrdered ts h.1)

  items_none :
      (t : EpochTarget)
      → epoch_items db scans (dbs_of db s t d) lo hi none true
        ≡ keep (inside lo hi) (scans.rows (dbs_of db s t d))
  unfolding epoch_items
  items_none t = scans.range_lem (dbs_of db s t d) (included lo) (included hi)

  items_some :
      (k : List ℕ) (t : EpochTarget)
      → epoch_items db scans (dbs_of db s t d) lo hi (some k) true
        ≡ keep
            (λ j. is_lt (compare_bytes k j) && is_le (compare_bytes j hi))
            (scans.rows (dbs_of db s t d))
  unfolding epoch_items
  items_some k t = scans.range_lem (dbs_of db s t d) (excluded k) (included hi)

  no_key : (num : ℕ) → cursor_key_of db scans (0, none) num ≡ none
  unfolding cursor_key_of
  no_key num = ground arith

  stream_first : (ts : List EpochTarget) → stream db scans s d lo hi (0, none) true ts ≡ contents ts
  stream_first [] = refl
  stream_first (t ∷ ts) = rw (no_key t.num, items_none t, stream_first ts) refl

  rows_past-epoch :
      (n m : ℕ) (k : List ℕ) (t : EpochTarget)
      → m ≡ n
      → is_le (compare_bytes lo k) ≡ true
      → rows_past n k (tag m (keep (inside lo hi) (scans.rows (dbs_of db s t d))))
        ≡ tag m (epoch_items db scans (dbs_of db s t d) lo hi (some k) true)
  rows_past-epoch n m k t e h =
      rw (e, items_some k t) (rows_past-same n k lo hi (scans.rows (dbs_of db s t d)) h)

  stream_past :
      (n : ℕ) (k : List ℕ) (ts : List EpochTarget)
      → is_le (compare_bytes lo k) ≡ true
      → stream db scans s d lo hi (n, some k) true (keep_targets (λ num. leb n num) ts)
        ≡ rows_past n k (contents ts)
  unfolding cursor_key_of keep_targets
  stream_past n k [] h = refl
  stream_past n k (t ∷ ts) h =
      let rows = keep (inside lo hi) (scans.rows (dbs_of db s t d)) in
      let ih = stream_past n k ts h in
      let cut = rows_past-append n k (tag t.num rows) (contents ts) in
      elim (Bool-cases (leb n t.num)) [
        | inr before ↦
            rw (keep_targets, before, ih)
              (sym (
                cut
                ∙ ap (λ x. x ++ rows_past n k (contents ts))
                    (rows_past-earlier n t.num k rows (ground arith))))
        | inl on ↦ elim (Bool-cases (t.num == n)) [
          | inl same ↦
              rw (keep_targets, on, cursor_key_of, same, ih)
                (sym (
                  cut
                  ∙ ap (λ x. x ++ rows_past n k (contents ts))
                      (rows_past-epoch n t.num k t (ground arith) h)))
          | inr other ↦
              rw (keep_targets, on, cursor_key_of, other, ih, items_none t)
                (sym (
                  cut
                  ∙ ap (λ x. x ++ rows_past n k (contents ts))
                      (rows_past-later n t.num k rows (ground arith))))
        ]
      ]

  -- Rows inside the bounds have keys that are not below `lo`.
  abbrev NotBelow : List RawEpochRow → Type 0
  NotBelow [] = Unit {0}
  NotBelow ((n, k, v) ∷ rows) = (n < 2 ^ 32) × (is_le (compare_bytes lo k) ≡ true) × NotBelow rows

  NotBelow-tag :
      (n : ℕ) (rows : List Row) (later : List RawEpochRow)
      → n < 2 ^ 32
      → NotBelow later
      → NotBelow (tag n (keep (inside lo hi) rows) ++ later)
  NotBelow-tag n [] later b h = h
  NotBelow-tag n ((k, v) ∷ rows) later b h = elim (Bool-cases (inside lo hi k)) [
    | inl e ↦ rw e (b, ground (arith, e), NotBelow-tag n rows later b h)
    | inr e ↦ rw e (NotBelow-tag n rows later b h)
  ]

  contents-NotBelow : (ts : List EpochTarget) → AreNumbers ts → NotBelow (contents ts)
  contents-NotBelow [] h = h
  contents-NotBelow (t ∷ ts) h = NotBelow-tag t.num _ (contents ts) h.0 (contents-NotBelow ts h.1)

  NotBelow-member :
      (n : ℕ) (k v : List ℕ) (before after : List RawEpochRow)
      → NotBelow (before ++ (n, k, v) ∷ after)
      → (n < 2 ^ 32) × (is_le (compare_bytes lo k) ≡ true)
  NotBelow-member n k v [] after h = (h.0, h.1)
  NotBelow-member n k v (r ∷ before) after h = NotBelow-member n k v before after h.2

  page-first :
      (limit : ℕ)
      → page_rows_epochs db scans s d lo hi
          (record { cursor = none; limit = limit; forward = true })
        ≡ first (max limit 1) (contents s.targets)
  unfolding page_rows_epochs parse_cursor
  page-first limit = rw (keep_targets-all s.targets) (
      scan_targets_lem db scans s d lo hi (0, none) true (max limit 1) s.targets [] (ground arith)
      ∙ ap (first (max limit 1)) (stream_first s.targets))

  page-next :
      (limit n : ℕ) (k v : List ℕ) (before after : List RawEpochRow)
      → IsRising s.targets
      → AreNumbers s.targets
      → contents s.targets ≡ before ++ (n, k, v) ∷ after
      → page_rows_epochs db scans s d lo hi
          (record { cursor = some (encode_cursor n k); limit = limit; forward = true })
        ≡ first (max limit 1) after
  unfolding page_rows_epochs
  page-next limit n k v before after up fit e =
      let inside_all = contents-NotBelow s.targets fit in
      let (small, above) = NotBelow-member n k v before after (rw e at inside_all) in
      rw (parse-encode_cursor n k small) (
        scan_targets_lem db scans s d lo hi (n, some k) true (max limit 1) _ [] (ground arith)
        ∙ ap (first (max limit 1)) (
            stream_past n k s.targets above
            ∙ rows_past-behind n k v before after (contents s.targets) e
                (contents-IsOrdered s.targets up)))

  -- Let the targets have rising numbers of 32 bits, and split the rows of an index inside the
  -- bounds, epoch after epoch, in two at any place. The page in rising order at the cursor of the
  -- last row before that place, or without a cursor at the start, is the beginning of the rows
  -- behind it, as many as the limit or one where the limit is zero.
  pub page_rows_epochs-after :
      (limit : ℕ) (before after : List RawEpochRow)
      → IsRising s.targets
      → AreNumbers s.targets
      → contents s.targets ≡ before ++ after
      → page_rows_epochs db scans s d lo hi
          (record { cursor = cursor_after before; limit = limit; forward = true })
        ≡ first (max limit 1) after
  unfolding last_row
  page_rows_epochs-after limit [] after up fit e = page-first limit ∙ ap (first (max limit 1)) e
  page_rows_epochs-after limit (r ∷ rows) after up fit e =
      let (pre, (n, k, v), parts, l) = last_row-split rows r in
      let split : contents s.targets ≡ pre ++ (n, k, v) ∷ after =
        e ∙ ap (λ x. x ++ after) parts ∙ append_assoc pre ((n, k, v) ∷ []) after in
      rw (cursor_after, l) (page-next limit n k v pre after up fit split)
