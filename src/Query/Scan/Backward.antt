-- ===== src/Query/Scan/Backward.antt =====
-- src/query.rs: a page in falling order that starts without a cursor.
use mathlib.Core.List.{reverse}
use sov_vault.Base.{
  ℕ, ◌≡◌, false, List, [], ◌∷◌, ◌++◌, none, max, arith, length, leb, Bool-cases, inl, inr,
}
use sov_vault.Store.{Lmdb, Row}
use sov_vault.Query.{EpochTarget, EpochDb, QuerySession, dbs_of}
use sov_vault.Query.Scan.{
  Scans, RawEpochRow, push_rows, keep_targets, epoch_items, scan_epoch_range, cursor_key_of,
  scan_targets, parse_cursor, page_rows_epochs,
}

-- All rows are of the first epoch.
abbrev pub AreOfFirst : List RawEpochRow → Type 0
AreOfFirst [] = Unit {0}
AreOfFirst ((n, k, v) ∷ rows) = (n ≡ 0) × AreOfFirst rows

AreOfFirst-append :
    (xs ys : List RawEpochRow) → AreOfFirst xs → AreOfFirst ys → AreOfFirst (xs ++ ys)
AreOfFirst-append [] ys h g = g
AreOfFirst-append (x ∷ xs) ys h g = (h.0, AreOfFirst-append xs ys h.1 g)

push_rows-AreOfFirst :
    (limit n : ℕ) (items : List Row) (out : List RawEpochRow)
    → n ≡ 0
    → AreOfFirst out
    → AreOfFirst (push_rows limit n items out).0
unfolding push_rows
push_rows-AreOfFirst limit n [] out e h = h
push_rows-AreOfFirst limit n ((k, v) ∷ items) out e h =
    let out' = out ++ (n, k, v) ∷ [] in
    let grown = AreOfFirst-append out ((n, k, v) ∷ []) h (e, record {}) in
    elim (Bool-cases (leb limit (length out'))) [
      | inl full ↦ rw (push_rows, full) grown
      | inr room ↦ rw (push_rows, room) (push_rows-AreOfFirst limit n items out' e grown)
    ]

module _ (db : Lmdb) (scans : Scans db) (s : QuerySession db) (d : EpochDb) (lo hi : List ℕ) where
  scan_targets-AreOfFirst :
      (limit : ℕ) (ts : List EpochTarget) (out : List RawEpochRow)
      → AreOfFirst out
      → AreOfFirst (
          scan_targets db scans s d lo hi
            (0, none)
            false
            limit
            (keep_targets (λ num. leb num 0) ts)
            out)
  unfolding scan_targets keep_targets scan_epoch_range
  scan_targets-AreOfFirst limit [] out h = h
  scan_targets-AreOfFirst limit (t ∷ ts) out h = elim (Bool-cases (leb t.num 0)) [
    | inr later ↦ rw (keep_targets, later) (scan_targets-AreOfFirst limit ts out h)
    | inl zeroth ↦
        let items =
          epoch_items db scans (dbs_of db s t d) lo hi (cursor_key_of db scans (0, none) t.num)
            false in
        let pushed = push_rows limit t.num items out in
        let here = push_rows-AreOfFirst limit t.num items out (ground arith) h in
        elim (Bool-cases pushed.1) [
          | inl full ↦ rw (keep_targets, zeroth, scan_targets, full) here
          | inr room ↦
              rw (keep_targets, zeroth, scan_targets, room)
                (scan_targets-AreOfFirst limit ts pushed.0 here)
        ]
  ]

  -- A page in falling order that starts without a cursor holds rows of the epoch with number zero
  -- only, whatever the targets, the bounds and the limit.
  pub page_rows_epochs-AreOfFirst :
      (limit : ℕ)
      → AreOfFirst (
          page_rows_epochs db scans s d lo hi
            (record { cursor = none; limit = limit; forward = false }))
  unfolding page_rows_epochs parse_cursor
  page_rows_epochs-AreOfFirst limit =
      scan_targets-AreOfFirst (max limit 1) (reverse s.targets) [] (record {})
