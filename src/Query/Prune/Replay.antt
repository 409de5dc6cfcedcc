-- ===== src/Query/Prune/Replay.antt =====
-- src/query.rs: a replay over the epochs that are left, and one over all.
use sov_vault.Base.{
  ℕ, ◌-◌, ◌^◌, ◌≤◌, ◌<◌, ◌≡◌, ◌∙◌, ◌⊎◌, refl, false, List, [], ◌∷◌, ◌++◌, Option, none, some, arith,
  Bool-cases, Option-cases, inl, inr,
}
use sov_vault.Bytes.{to_be_bytes}
use sov_vault.Bytes.Lex.{compare-field}
use sov_vault.Map
use sov_vault.Map.{nat_eq}
use sov_vault.Store.{Lmdb, Row}
use sov_vault.Query.{EpochTarget, EpochDb, RecordRow, QuerySession, dbs_of}
use sov_vault.Query.Scan.{Scans, included, keep}
use sov_vault.Query.Scan.Past.{inside}
use sov_vault.Query.Export.{
  ts_bounds, zeros, ones, feed_rows, replay_epoch_range, replay_targets, replay_into_sink,
}
use sov_vault.Query.Prune.{
  EpochBoundary, boundaries_of, min_of, max_of, overlaps, keep_overlapping, prune_targets_by_window,
}

-- A time has 64 bits.
abbrev pub FitsTime : Option ℕ → Type 0
FitsTime none = Unit {0}
FitsTime (some x) = x < 2 ^ 64

-- The keys begin with a time from `first` to `last`.
abbrev pub AreWithin : ℕ → ℕ → List Row → Type 0
AreWithin first last [] = Unit {0}
AreWithin first last ((k, v) ∷ rows) =
    ((ts : ℕ) × (rest : List ℕ) × (k ≡ to_be_bytes 8 ts ++ rest)
      × (ts < 2 ^ 64)
      × (first ≤ ts)
      × (ts ≤ last))
    × AreWithin first last rows

abbrev lo_of : ℕ → List ℕ
lo_of s = to_be_bytes 8 s ++ zeros

abbrev hi_of : ℕ → List ℕ
hi_of e = to_be_bytes 8 e ++ ones

outside :
    (s e ts : ℕ) (rest : List ℕ)
    → s < 2 ^ 64
    → e < 2 ^ 64
    → ts < 2 ^ 64
    → (ts < s) ⊎ (e < ts)
    → inside (lo_of s) (hi_of e) (to_be_bytes 8 ts ++ rest) ≡ false
outside s e ts rest hs he ht out =
    rw (compare-field 8 s ts zeros rest hs ht, compare-field 8 ts e rest ones ht he) (ground arith)

keep-outside :
    (s e first last : ℕ) (rows : List Row)
    → s < 2 ^ 64
    → e < 2 ^ 64
    → (last < s) ⊎ (e < first)
    → AreWithin first last rows
    → keep (inside (lo_of s) (hi_of e)) rows ≡ []
keep-outside s e first last [] hs he out h = refl
keep-outside s e first last ((k, v) ∷ rows) hs he out h =
    let (ts, rest, key, ht, from, to) = h.0 in
    let away : inside (lo_of s) (hi_of e) k ≡ false =
      rw key (outside s e ts rest hs he ht (ground arith)) in
    rw away (keep-outside s e first last rows hs he out h.1)

module _ (db : Lmdb) (scans : Scans db) (q : QuerySession db)
    (boundaries : List (ℕ × EpochBoundary)) where
  -- The ledger's times of a frozen epoch hold for its records.
  abbrev pub AreBounded : List EpochTarget → Type 0
  AreBounded [] = Unit {0}
  AreBounded (t ∷ ts) =
      ((b : EpochBoundary)
        → t.is_current ≡ false
        → Map.get t.num boundaries ≡ some b
        → AreWithin (min_of b) (max_of b) (scans.rows (dbs_of db q t EpochDb.record_ts)))
      × AreBounded ts

  nothing_from :
      (s e : ℕ) (t : EpochTarget) (fed : List RecordRow)
      → s < 2 ^ 64
      → e < 2 ^ 64
      → AreBounded (t ∷ [])
      → overlaps boundaries s e t ≡ false
      → replay_epoch_range db scans (dbs_of db q t EpochDb.record_ts) (lo_of s) (hi_of e) fed
        ≡ some fed
  unfolding overlaps replay_epoch_range feed_rows
  nothing_from s e t fed hs he h out = elim (Option-cases (Map.get t.num boundaries)) [
    | inl e1 ↦ absurd (ground arith)
    | inr (b, e1) ↦
        let rows = scans.rows (dbs_of db q t EpochDb.record_ts) in
        let empty : scans.range (dbs_of db q t EpochDb.record_ts) (included (lo_of s))
              (included (hi_of e))
            ≡ [] =
          scans.range_lem (dbs_of db q t EpochDb.record_ts) (included (lo_of s))
            (included (hi_of e))
          ∙ keep-outside s e (min_of b) (max_of b) rows hs he (ground arith)
              (h.0 b (ground arith) e1) in
        rw (replay_epoch_range, empty) refl
  ]

  replay_targets-overlapping :
      (s e : ℕ) (ts : List EpochTarget) (fed : List RecordRow)
      → s < 2 ^ 64
      → e < 2 ^ 64
      → AreBounded ts
      → replay_targets db scans q (lo_of s) (hi_of e) (keep_overlapping boundaries s e ts) fed
        ≡ replay_targets db scans q (lo_of s) (hi_of e) ts fed
  unfolding replay_targets keep_overlapping
  replay_targets-overlapping s e [] fed hs he h = refl
  replay_targets-overlapping s e (t ∷ ts) fed hs he h =
      elim (Bool-cases (overlaps boundaries s e t)) [
        | inl on ↦
            elim (Option-cases (
              replay_epoch_range db scans (dbs_of db q t EpochDb.record_ts) (lo_of s) (hi_of e)
                fed)) [
                  | inl e1 ↦ rw (keep_overlapping, on, replay_targets, e1) refl
                  | inr (fed', e1) ↦
                      rw (keep_overlapping, on, replay_targets, e1)
                        (replay_targets-overlapping s e ts fed' hs he h.1)
                ]
        | inr off ↦
            let skip = nothing_from s e t fed hs he (h.0, record {}) off in
            rw (keep_overlapping, off, replay_targets, skip)
              (replay_targets-overlapping s e ts fed hs he h.1)
      ]

module _ (db : Lmdb) (scans : Scans db) (q : QuerySession db) where
  -- The session, with other targets to search.
  abbrev pub with_targets : List EpochTarget → QuerySession db
  with_targets ts = record q { targets = ts }

  replay_targets-with :
      (us ts : List EpochTarget) (lo hi : List ℕ) (fed : List RecordRow)
      → replay_targets db scans (with_targets us) lo hi ts fed
        ≡ replay_targets db scans q lo hi ts fed
  unfolding replay_targets dbs_of
  replay_targets-with us [] lo hi fed = refl
  replay_targets-with us (t ∷ ts) lo hi fed =
      elim (Option-cases
        (replay_epoch_range db scans (dbs_of db q t EpochDb.record_ts) lo hi fed)) [
          | inl e ↦ rw (replay_targets, e) refl
          | inr (fed', e) ↦ rw (replay_targets, e) (replay_targets-with us ts lo hi fed')
        ]

  pub replay_into_sink-prune :
      (rows : List EpochBoundary) (start_ts end_ts : Option ℕ)
      → FitsTime start_ts
      → FitsTime end_ts
      → AreBounded db scans q (boundaries_of rows []) q.targets
      → replay_into_sink db scans
          (with_targets (prune_targets_by_window q.targets rows start_ts end_ts))
          start_ts
          end_ts
        ≡ replay_into_sink db scans q start_ts end_ts
  unfolding replay_into_sink prune_targets_by_window ts_bounds
  replay_into_sink-prune rows none none hs he h = replay_targets-with q.targets q.targets _ _ []
  replay_into_sink-prune rows (some s) none hs he h =
      replay_targets-with (keep_overlapping (boundaries_of rows []) s (2 ^ 64 - 1) q.targets) _ _ _
        []
      ∙ replay_targets-overlapping db scans q (boundaries_of rows []) s (2 ^ 64 - 1) q.targets [] hs
          (omega arith) h
  replay_into_sink-prune rows none (some e) hs he h =
      replay_targets-with (keep_overlapping (boundaries_of rows []) 0 e q.targets) _ _ _ []
      ∙ replay_targets-overlapping db scans q (boundaries_of rows []) 0 e q.targets [] (omega arith)
          he h
  replay_into_sink-prune rows (some s) (some e) hs he h =
      replay_targets-with (keep_overlapping (boundaries_of rows []) s e q.targets) _ _ _ []
      ∙ replay_targets-overlapping db scans q (boundaries_of rows []) s e q.targets [] hs he h
