-- ===== src/Ledger.antt =====
-- src/ledger.rs: the rows of the table `files`, with what the statements of SQL do to them.
use sov_vault.Base.{
  ℕ, ◌+◌, Bool, true, false, ◌&&◌, List, [], ◌∷◌, Option, none, some, ltb, leb, ◌==◌, if◌then◌else◌,
}
use sov_vault.Map
use sov_vault.Map.{nat_eq}

pub data FileState : Type 0 where
  opened sealed archived : FileState

-- The columns of `files` that the pipeline uses.
pub record FileRow : Type 0 where
  pub dev_id : ℕ
  pub segment_seq : Option ℕ
  pub state : FileState
  pub analysis_offset : ℕ

-- The rows by `file_id`, and the next number that AUTOINCREMENT gives.
pub record Ledger : Type 0 where
  pub files : List (ℕ × FileRow)
  pub next_id : ℕ

-- The column `path` is UNIQUE; the names of the writer's files are taken to be new.
unfoldable pub insert_file : ℕ → ℕ → Ledger → Ledger × ℕ
unfolding Map.insert
insert_file dev_id segment_seq l = (
  record {
    files =
        Map.insert l.next_id
          (record {
            dev_id = dev_id;
            segment_seq = some segment_seq;
            state = FileState.opened;
            analysis_offset = 0;
          })
          l.files;
    next_id = l.next_id + 1;
  },
  l.next_id,
)

unfoldable pub watermark : ℕ → Ledger → Option ℕ
unfolding Map.get
watermark file_id l = elim (Map.get file_id l.files) [
  | none ↦ none
  | some row ↦ some row.analysis_offset
]

-- The update touches a row only where the watermark does not fall; `none` is the refusal.
unfoldable pub advance_watermark : ℕ → ℕ → Ledger → Option Ledger
unfolding Map.get Map.insert
advance_watermark file_id new_offset l = elim (Map.get file_id l.files) [
  | none ↦ none
  | some row ↦
      if leb row.analysis_offset new_offset
      then some (record l {
        files = Map.insert file_id (record row { analysis_offset = new_offset }) l.files;
      })
      else none
]

unfoldable pub set_file_state : ℕ → FileState → Ledger → Ledger
unfolding Map.modify
set_file_state file_id state l = record l {
  files = Map.modify file_id (λ (row : FileRow). record row { state = state }) l.files;
}

abbrev pub is_opened : FileState → Bool
is_opened FileState.opened = true
is_opened _ = false

abbrev pub newer : ℕ × FileRow → Option (ℕ × FileRow) → Option (ℕ × FileRow)
newer a none = some a
newer a (some b) = if ltb a.0 b.0 then some b else some a

-- The row of the connection that is open and has the highest number.
unfoldable pub open_file_for_dev : ℕ → List (ℕ × FileRow) → Option (ℕ × FileRow)
open_file_for_dev dev_id [] = none
open_file_for_dev dev_id ((file_id, row) ∷ rest) =
    let found = open_file_for_dev dev_id rest in
    if row.dev_id == dev_id && is_opened row.state then newer (file_id, row) found else found
