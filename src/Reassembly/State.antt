-- ===== src/Reassembly/State.antt =====
-- src/reassembly.rs: the data of the reassembler. Numbers are those of the source's u32 and u64;
-- `add64` and `sub64` wrap as `+=` and `-=` do in a release build, and `-` is `saturating_sub`.
use Prim.Native.String.{String}
use sov_vault.Base.{
  ℕ, ◌+◌, ◌-◌, ◌*◌, ◌%◌, ◌^◌, Bool, true, false, List, [], ◌∷◌, Option, none, ◌==◌, if◌then◌else◌,
}
use sov_vault.Reassembly.Pending.{Pending}

abbrev pub add64 : ℕ → ℕ → ℕ
add64 a b = (a + b) % 2 ^ 64

abbrev pub sub64 : ℕ → ℕ → ℕ
sub64 a b = (a + 2 ^ 64 - b) % 2 ^ 64

-- (dev_id, segment_seq).
abbrev pub SegmentKey : Type 0
SegmentKey = ℕ × ℕ

pub data SegmentState : Type 0 where
  new unfinished sealed skipped error : SegmentState

pub data Event : Type 0 where
  append : (dev_id segment_seq offset : ℕ) (bytes : List ℕ) → Event
  dup : (dev_id segment_seq : ℕ) → Event
  gap : (dev_id segment_seq start_offset : ℕ) → Event
  sealed : (dev_id segment_seq size : ℕ) → Event
  seal_gap : (dev_id segment_seq next_expected sealed_size : ℕ) → Event
  seq_skipped : (dev_id segment_seq : ℕ) → Event
  segment_error : (dev_id segment_seq : ℕ) (reason : String) → Event
  evicted : (dev_id segment_seq offset bytes : ℕ) → Event
  quarantined : (dev_id : ℕ) → Event
  quarantined_drop : (dev_id bytes : ℕ) → Event

pub record Budgets : Type 0 where
  pub l2_segment_cap : ℕ
  pub l25_conn_cap : ℕ
  pub l3_global_cap : ℕ
  pub evict_window_secs : ℕ
  pub evict_threshold : ℕ

unfoldable pub from_config : ℕ → ℕ → ℕ → ℕ → ℕ → Budgets
from_config segment_pending_cap conn_pending_cap pending_budget window threshold = record {
  l2_segment_cap = if segment_pending_cap == 0 then 8 * 1024 * 1024 else segment_pending_cap;
  l25_conn_cap = conn_pending_cap;
  l3_global_cap = pending_budget;
  evict_window_secs = window;
  evict_threshold = threshold;
}

pub record SegmentBuf : Type 0 where
  pub key : SegmentKey
  pub state : SegmentState
  pub next_expected : ℕ
  pub sealed_size : Option ℕ
  pub pending : Pending
  pub pending_bytes : ℕ
  pub dup_count : ℕ
  pub gap_count : ℕ

unfoldable pub new_segment : SegmentKey → SegmentBuf
new_segment key = record {
  key = key;
  state = new;
  next_expected = 0;
  sealed_size = none;
  pending = [];
  pending_bytes = 0;
  dup_count = 0;
  gap_count = 0;
}

pub record EvictState : Type 0 where
  pub streak : ℕ
  pub window_start : ℕ

pub record Reassembler : Type 0 where
  pub segs : List (SegmentKey × SegmentBuf)
  pub conn_pending : List (ℕ × ℕ)
  pub held : List ℕ
  pub evict : List (ℕ × EvictState)
  pub global_pending : ℕ
  pub last_seq : List (ℕ × ℕ)
  pub budgets : Budgets
  pub now : ℕ

unfoldable pub empty : Budgets → Reassembler
empty budgets = record {
  segs = [];
  conn_pending = [];
  held = [];
  evict = [];
  global_pending = 0;
  last_seq = [];
  budgets = budgets;
  now = 0;
}

unfoldable pub set_now : ℕ → Reassembler → Reassembler
set_now now r = record r { now = now }

-- `quarantined.contains(&dev_id)`.
unfoldable pub contains : ℕ → List ℕ → Bool
contains d [] = false
contains d (x ∷ xs) = if d == x then true else contains d xs
