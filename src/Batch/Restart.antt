-- ===== src/Batch/Restart.antt =====
-- src/batch.rs: which file a restart takes up again, and the pipeline then.
use sov_vault.Base.{
  ℕ, ◌%◌, ◌^◌, ◌≤◌, ◌<◌, ◌≡◌, refl, ap, ◌∙◌, true, ◌&&◌, List, [], ◌∷◌, Option, none, some, arith,
  length, ltb, ◌==◌, ==_iff, ◌⊎◌, inl, inr, Option-cases, Bool-cases,
}
use sov_vault.Map
use sov_vault.Map.{nat_eq, Distinct}
use sov_vault.Matcher.Types.{WalRecord, IndexedRecord}
use sov_vault.Batch.{HotFileWriter, blank, ensure_open, open_hot, open_or_recover, BatchPipeline}
use sov_vault.Ledger.{FileState, FileRow, Ledger, newer, is_opened, insert_file, open_file_for_dev}
use sov_vault.Batch.Barrier.{IsContiguous}
use sov_vault.Batch.Crash.{take-split}
use sov_vault.Batch.Push.{opened-IsContiguous}

newer-cases :
    (a : ℕ × FileRow) (o : Option (ℕ × FileRow)) (b : ℕ × FileRow)
    → newer a o ≡ some b
    → (a ≡ b) ⊎ (o ≡ some b)
newer-cases a none b h = inl (ground arith)
newer-cases a (some c) b h = elim (Bool-cases (ltb a.0 c.0)) [
  | inl l ↦ inr (ground arith)
  | inr l ↦ inl (ground arith)
]

get-later :
    (k : ℕ) (v : FileRow) (i : ℕ) (r : FileRow) (files : List (ℕ × FileRow))
    → Map.get k files ≡ some v
    → Map.get i files ≡ none
    → Map.get k ((i, r) ∷ files) ≡ some v
unfolding Map.get
get-later k v i r files g n = ground (arith, ==_iff k i)

-- The row that is found stands in the table.
open_file_for_dev-get :
    (dev_id : ℕ) (files : List (ℕ × FileRow)) (file_id : ℕ) (row : FileRow)
    → Distinct files
    → open_file_for_dev dev_id files ≡ some (file_id, row)
    → Map.get file_id files ≡ some row
unfolding open_file_for_dev Map.get
open_file_for_dev-get dev_id [] file_id row d h = absurd (ground arith)
open_file_for_dev-get dev_id ((i, r) ∷ files) file_id row d h =
    let deeper : open_file_for_dev dev_id files ≡ some (file_id, row)
        → Map.get file_id ((i, r) ∷ files) ≡ some row =
      λ e.
        get-later file_id row i r files (open_file_for_dev-get dev_id files file_id row d.1 e)
          d.0 in
    elim (Bool-cases (r.dev_id == dev_id && is_opened r.state)) [
      | inl b ↦
          elim (newer-cases (i, r) (open_file_for_dev dev_id files) (file_id, row) (ground arith)) [
            | inl e ↦ ground (arith, ==_iff file_id i)
            | inr e ↦ deeper e
          ]
      | inr b ↦ deeper (ground arith)
    ]

-- An open file of the connection.
abbrev pub IsOpenOf : ℕ → List (ℕ × FileRow) → ℕ → FileRow → Type 0
IsOpenOf dev_id files file_id row =
    (Map.get file_id files ≡ some row) × (row.dev_id ≡ dev_id) × (row.state ≡ FileState.opened)

is_opened-opened : (s : FileState) → is_opened s ≡ true → s ≡ FileState.opened
is_opened-opened s h = ground arith

-- The file found is open, and no open file of the connection has a higher number.
open_file_for_dev-IsOpenOf :
    (dev_id : ℕ) (files : List (ℕ × FileRow)) (file_id : ℕ) (row : FileRow)
    → open_file_for_dev dev_id files ≡ some (file_id, row)
    → (row.dev_id ≡ dev_id) × (row.state ≡ FileState.opened)
unfolding open_file_for_dev
open_file_for_dev-IsOpenOf dev_id [] file_id row h = absurd (ground arith)
open_file_for_dev-IsOpenOf dev_id ((i, r) ∷ files) file_id row h =
    elim (Bool-cases (r.dev_id == dev_id && is_opened r.state)) [
      | inl b ↦
          elim (newer-cases (i, r) (open_file_for_dev dev_id files) (file_id, row) (ground arith)) [
            | inl e ↦ ground (arith, is_opened-opened r.state)
            | inr e ↦ open_file_for_dev-IsOpenOf dev_id files file_id row e
          ]
      | inr b ↦ open_file_for_dev-IsOpenOf dev_id files file_id row (ground arith)
    ]

newer-max :
    (a : ℕ × FileRow) (o : Option (ℕ × FileRow))
    → (b : ℕ × FileRow) × (newer a o ≡ some b)
      × (a.0 ≤ b.0)
      × ((c : ℕ × FileRow) → o ≡ some c → c.0 ≤ b.0)
newer-max a none = (a, refl, omega arith, λ c e. absurd (ground arith))
newer-max a (some d) = elim (Bool-cases (ltb a.0 d.0)) [
  | inl l ↦ (d, ground arith, ground arith, λ c e. ground arith)
  | inr l ↦ (a, ground arith, omega arith, λ c e. ground arith)
]

opened-is_opened :
    (dev_id : ℕ) (s : FileRow)
    → s.dev_id ≡ dev_id
    → s.state ≡ FileState.opened
    → (s.dev_id == dev_id && is_opened s.state) ≡ true
opened-is_opened dev_id s d o = rw o (ground arith)

-- An open file of the connection is found, or one with a higher number.
open_file_for_dev-le :
    (dev_id : ℕ) (files : List (ℕ × FileRow)) (j : ℕ) (r : FileRow)
    → IsOpenOf dev_id files j r
    → (found : ℕ × FileRow) × (open_file_for_dev dev_id files ≡ some found) × (j ≤ found.0)
unfolding open_file_for_dev Map.get
open_file_for_dev-le dev_id [] j r h = absurd (ground arith)
open_file_for_dev-le dev_id ((i, s) ∷ files) j r (there, dev, state) =
    let (best, e, first, rest) = newer-max (i, s) (open_file_for_dev dev_id files) in
    elim (Bool-cases (j == i)) [
      | inl here ↦
          let same : s ≡ r = ground arith in
          let hit =
            opened-is_opened dev_id s (ap (λ (t : FileRow). t.dev_id) same ∙ dev)
              (ap (λ (t : FileRow). t.state) same ∙ state) in
          (best, rw (open_file_for_dev, hit) e, ground arith)
      | inr deeper ↦
          let (found, f, l) = open_file_for_dev-le dev_id files j r (ground arith, dev, state) in
          elim (Bool-cases (s.dev_id == dev_id && is_opened s.state)) [
            | inl b ↦ (best, rw (open_file_for_dev, b) e, omega (arith, rest found f))
            | inr b ↦ (found, rw (open_file_for_dev, b) f, l)
          ]
    ]

-- What a restart takes up: the open file of the connection with the highest number, at its watermark,
-- or, where there is none, a file with the next number.
abbrev pub TakesUp : ℕ → Ledger → HotFileWriter × Ledger → Type 0
TakesUp dev_id before (hot, after) =
    ((row : FileRow) × IsOpenOf dev_id before.files hot.file_id row
      × (hot.offset ≡ row.analysis_offset)
      × (after ≡ before)
      × ((j : ℕ) (r : FileRow) → IsOpenOf dev_id before.files j r → j ≤ hot.file_id))
    ⊎ ((hot.file_id ≡ before.next_id)
        × (hot.offset ≡ 0)
        × ((j : ℕ) (r : FileRow) → ¬ IsOpenOf dev_id before.files j r))

module _ {D : Type 0} (encode : WalRecord → List ℕ) (lmdb : List IndexedRecord → D → Option D) where
  -- Let file numbers be distinct and below 2^32 and each file hold at least the bytes up to its
  -- watermark. Opening after a restart gives a contiguous pipeline with nothing pending. Either it
  -- is at the watermark of an open file of the connection, no open file of the connection has a
  -- higher number, and the ledger is as before; or the connection has no open file, and it is at
  -- the start of a file with the next number.
  pub open_or_recover-IsContiguous :
      (contents : ℕ → List ℕ) (dev_id segment_seq segment_size : ℕ) (p : BatchPipeline encode lmdb)
      → Distinct p.ledger.files
      → ((file_id : ℕ) (row : FileRow)
          → Map.get file_id p.ledger.files ≡ some row
          → (file_id < 2 ^ 32) × (row.analysis_offset ≤ length (contents file_id)))
      → p.ledger.next_id < 2 ^ 32
      → IsContiguous encode lmdb (record p {
        hot = (open_or_recover contents dev_id segment_seq segment_size p.ledger).0;
        ledger = (open_or_recover contents dev_id segment_seq segment_size p.ledger).1;
        pending = [];
      })
        × TakesUp dev_id p.ledger
            (open_or_recover contents dev_id segment_seq segment_size p.ledger)
  unfolding open_or_recover open_hot ensure_open insert_file
  open_or_recover-IsContiguous contents dev_id segment_seq segment_size p d kept ids =
      elim (Option-cases (open_file_for_dev dev_id p.ledger.files)) [
        | inl e ↦
            rw (open_or_recover, e)
              (
                opened-IsContiguous encode lmdb (record p { pending = [] })
                    (blank dev_id segment_seq segment_size) p.ledger ids refl,
                inr (
                  omega arith,
                  refl,
                  λ j r is_open.
                      let (found, f, _) = open_file_for_dev-le dev_id p.ledger.files j r is_open in
                      absurd (ground arith),
                ),
              )
        | inr ((file_id, row), e) ↦
            let there = open_file_for_dev-get dev_id p.ledger.files file_id row d e in
            let (dev, state) = open_file_for_dev-IsOpenOf dev_id p.ledger.files file_id row e in
            let known = kept file_id row there in
            let exact : file_id % 2 ^ 32 ≡ file_id = omega (arith, known.0) in
            let (lost, _, l) = take-split row.analysis_offset (contents file_id) known.1 in
            let row_at = ap (λ k. Map.get k p.ledger.files) exact ∙ there in
            rw (open_or_recover, e)
              (
                record { row = row; row_at = row_at; chain = refl; size = l; placed = tt },
                inl (
                  row,
                  (row_at, dev, state),
                  refl,
                  refl,
                  λ j r is_open.
                      let (found, f, le) = open_file_for_dev-le dev_id p.ledger.files j r is_open in
                      let same : found ≡ (file_id, row) = ground arith in
                      omega (arith, exact, le, ap (λ (x : ℕ × FileRow). x.0) same),
                ),
              )
      ]
