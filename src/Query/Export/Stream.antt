-- ===== src/Query/Export/Stream.antt =====
-- src/query.rs: an export over pages, and the rows of its index.
use sov_vault.Base.{
  ℕ, zero, suc, ◌+◌, ◌≤◌, ◌<◌, ◌≡◌, ◌∙◌, refl, sym, ap, true, false, List, [], ◌∷◌, ◌++◌, Option,
  none, some, arith, length, leb, Bool-cases, inl, inr, Option-cases, append-nil, append_assoc,
}
use sov_vault.Db.Pair.{QrStatus}
use sov_vault.Map
use sov_vault.Map.{nat_eq}
use sov_vault.Store.{Lmdb}
use sov_vault.Query.{
  EpochDb, Page, page_default, QrFilter, QrIndexRow, QuerySession, batch_statuses,
}
use sov_vault.Query.Statuses.{status_of, get-batch_statuses}
use sov_vault.Query.Scan.{Scans, RawEpochRow, page_rows_epochs, paged, last_row}
use sov_vault.Query.Scan.Rows.{first}
use sov_vault.Query.Scan.Past.{IsRising}
use sov_vault.Query.Scan.Pages.{
  contents, AreNumbers, cursor_after, last_row-split, page_rows_epochs-after,
}
use sov_vault.Query.Export.Rows.{index_rows-candidates, index_rows-append, index_rows-nil}
use sov_vault.Query.Export.{
  index_rows, ts_bounds, conn_qr_bounds, scan_index, scan_time_qr, scan_conn_qr, scan_for, exported,
  stream_pages, stream_qrs,
}

later_part {ℓ} :
    {A : Type ℓ} (n : ℕ) (xs : List A)
    → (later : List A) × (xs ≡ first n xs ++ later)
      × (length later ≤ length xs)
      × (length xs < n → later ≡ [])
      × (n ≤ length xs → length (first n xs) ≡ n)
      × (length (first n xs) + length later ≡ length xs)
later_part zero xs = (xs, refl, omega arith, λ p. absurd (omega arith), λ p. refl, omega arith)
later_part (suc n) [] = ([], refl, omega arith, λ p. refl, λ p. absurd (omega arith), omega arith)
later_part (suc n) (x ∷ xs) =
    let (later, e, shorter, none_left, full, all) = later_part n xs in
    (
      later,
      ap (λ t. x ∷ t) e,
      omega arith,
      λ p. none_left (omega arith),
      λ p. ap suc (full (omega arith)),
      omega arith,
    )

last_row-append :
    (before xs : List RawEpochRow) (x : RawEpochRow)
    → last_row (before ++ x ∷ xs) ≡ last_row (x ∷ xs)
unfolding last_row
last_row-append [] xs x = refl
last_row-append (y ∷ []) xs x = refl
last_row-append (y ∷ z ∷ before) xs x = last_row-append (z ∷ before) xs x

module _ (db : Lmdb) (scans : Scans db) (s : QuerySession db) where
  module _ (d : EpochDb) (o : ℕ) (conn : Option ℕ) (sf : Option QrStatus) (lo hi : List ℕ) where
    -- The statuses of a page come from one pass over the epochs.
    scan_index_lem :
        (page : Page) (rows : List QrIndexRow)
        → index_rows o conn sf (status_of db s) (page_rows_epochs db scans s d lo hi page)
          ≡ some rows
        → scan_index db scans s d o conn sf (lo, hi) page
          ≡ some (paged (page_rows_epochs db scans s d lo hi page) rows page.limit)
    unfolding scan_index
    scan_index_lem page rows h =
        let raw = page_rows_epochs db scans s d lo hi page in
        let (cs, found, same) = index_rows-candidates o conn sf (status_of db s) raw rows h in
        let read =
          same (λ c. Map.get c (batch_statuses db s cs))
            (λ c m. get-batch_statuses db s c cs ∙ rw m refl) in
        rw (scan_index, found, read) refl

    -- A page that is not empty gives on the place of its last row.
    paged_lem :
        (before raw : List RawEpochRow) (rows : List QrIndexRow) (limit : ℕ)
        → limit ≤ length raw
        → 0 < length raw
        → paged raw rows limit
          ≡ record { rows = rows; has_more = true; next_cursor = cursor_after (before ++ raw) }
    unfolding paged last_row
    paged_lem before [] rows limit h p = absurd (omega arith)
    paged_lem before (x ∷ xs) rows limit h p =
        let (front, last, e, l) = last_row-split xs x in
        let full : leb limit (length (x ∷ xs)) ≡ true = ground arith in
        rw (paged, cursor_after, last_row-append before xs x, l, full) refl

    paged_last :
        (raw : List RawEpochRow) (rows : List QrIndexRow) (limit : ℕ)
        → length raw < limit
        → ((paged raw rows limit).rows ≡ rows) × ((paged raw rows limit).has_more ≡ false)
    unfolding paged last_row
    paged_last [] rows limit h = (refl, refl)
    paged_last (x ∷ xs) rows limit h =
        let (front, last, e, l) = last_row-split xs x in
        (rw (paged, l) refl, rw (paged, l) (ground arith))

    stream_pages-all :
        (f : QrFilter)
        → ((page : Page)
            → scan_for db scans s f page ≡ scan_index db scans s d o conn sf (lo, hi) page)
        → IsRising s.targets
        → AreNumbers s.targets
        → (limit fuel : ℕ) (before after : List RawEpochRow) (out rows : List QrIndexRow)
        → 0 < limit
        → length after < fuel
        → contents db scans s d lo hi s.targets ≡ before ++ after
        → index_rows o conn sf (status_of db s) after ≡ some rows
        → stream_pages db scans fuel s f
            (record { cursor = cursor_after before; limit = limit; forward = true })
            out
          ≡ exported (out ++ rows)
    unfolding stream_pages
    stream_pages-all f scan up fit limit zero before after out rows p short e h =
        absurd (omega arith)
    stream_pages-all f scan up fit limit (suc fuel) before after out rows p short e h =
        let page : Page = record { cursor = cursor_after before; limit = limit; forward = true } in
        let raw = first limit after in
        let (later, parts, shorter, none_left, full, all) = later_part limit after in
        let paged_raw : page_rows_epochs db scans s d lo hi page ≡ raw =
          page_rows_epochs-after db scans s d lo hi limit before after up fit e
          ∙ ap (λ n. first n after) (omega arith) in
        let (front, back, ef, eb, whole) =
          index_rows-append o conn sf (status_of db s) raw later rows
            (ap (index_rows o conn sf (status_of db s)) (sym parts) ∙ h) in
        let scanned : scan_for db scans s f page ≡ some (paged raw front limit) =
          scan page
          ∙ scan_index_lem page front (rw paged_raw ef)
          ∙ ap (λ x. some (paged x front limit)) paged_raw in
        elim (Bool-cases (leb limit (length after))) [
          | inl more ↦
              let size = full (ground arith) in
              let next =
                paged_lem before raw front limit (omega (arith, size)) (omega (arith, size)) in
              rw (stream_pages, scanned, next)
                (stream_pages-all f scan up fit limit fuel (before ++ raw) later (out ++ front) back
                    p (omega (arith, size, all))
                    (e ∙ ap (λ x. before ++ x) parts ∙ sym (append_assoc before raw later)) eb
                  ∙ ap exported (append_assoc out front back ∙ ap (λ x. out ++ x) (sym whole)))
          | inr enough ↦
              let gone = none_left (ground arith) in
              let (same, stop) = paged_last raw front limit (ground (arith, all)) in
              rw (stream_pages, scanned, same, stop)
                (let none_behind = index_rows-nil o conn sf (status_of db s) later back gone eb in
                  ap exported (
                    ap (λ x. out ++ x)
                      (sym (append-nil front)
                        ∙ ap (λ x. front ++ x) (sym none_behind)
                        ∙ sym whole)))
        ]

  -- The index that a filter searches: its table, where the time stands in the key, and the bounds.
  abbrev pub table_of : QrFilter → EpochDb
  table_of f = elim f.conn_hash [ none ↦ EpochDb.qr_time | some ch ↦ EpochDb.conn_qr ]

  abbrev pub offset_of : QrFilter → ℕ
  offset_of f = elim f.conn_hash [ none ↦ 0 | some ch ↦ 8 ]

  abbrev pub bounds_of : QrFilter → List ℕ × List ℕ
  bounds_of f = elim f.conn_hash [
    | none ↦ ts_bounds f.start_ts f.end_ts
    | some ch ↦ conn_qr_bounds ch f.start_ts f.end_ts
  ]

  scan_for-index :
      (f : QrFilter) (page : Page)
      → scan_for db scans s f page
        ≡ scan_index db scans s
            (table_of f)
            (offset_of f)
            f.conn_hash
            f.status
            ((bounds_of f).0, (bounds_of f).1)
            page
  unfolding scan_for scan_time_qr scan_conn_qr
  scan_for-index f page = elim (Option-cases f.conn_hash) [
    | inl e ↦ rw (scan_for, table_of, offset_of, bounds_of, e) refl
    | inr (ch, e) ↦ rw (scan_for, table_of, offset_of, bounds_of, e) refl
  ]

  -- What the index holds for a filter, in all targets of the session.
  abbrev pub rows_for : QrFilter → List RawEpochRow
  rows_for f = contents db scans s (table_of f) (bounds_of f).0 (bounds_of f).1 s.targets

  -- Let the targets have rising numbers of 32 bits, the rows of the searched index inside the
  -- bounds be readable, and the fuel exceed their number. The export, which turns pages with
  -- cursors and resolves statuses page by page, ends, and the sink was fed, for each index row of
  -- all epochs in order, once, the row with the status that a lookup of its request alone finds,
  -- unless there is none or the filter wants another.
  pub stream_qrs-all :
      (fuel : ℕ) (f : QrFilter) (rows : List QrIndexRow)
      → IsRising s.targets
      → AreNumbers s.targets
      → length (rows_for f) < fuel
      → index_rows (offset_of f) f.conn_hash f.status (status_of db s) (rows_for f) ≡ some rows
      → stream_qrs db scans fuel s f ≡ exported rows
  unfolding stream_qrs page_default last_row
  stream_qrs-all fuel f rows up fit short h =
      stream_pages-all (table_of f) (offset_of f) f.conn_hash f.status (bounds_of f).0
        (bounds_of f).1 f (scan_for-index f) up fit 100 fuel [] (rows_for f) [] rows (omega arith)
        short refl h
