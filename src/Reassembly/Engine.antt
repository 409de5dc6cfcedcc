-- ===== src/Reassembly/Engine.antt =====
-- src/reassembly.rs: `place_chunk` and `seal`. A panic of an internal step is `none`.
use sov_vault.Base.{
  ℕ, zero, suc, ◌+◌, ◌-◌, ◌%◌, ◌^◌, max, Bool, ◌&&◌, List, [], ◌∷◌, ◌++◌, Option, none, some,
  length, ltb, leb, ◌==◌, if◌then◌else◌,
}
use sov_vault.Map
use sov_vault.Map.{nat_eq, pair_eq}
use sov_vault.Reassembly.Pending
use sov_vault.Reassembly.State.{
  SegmentKey, Event, dup, seal_gap, seq_skipped, quarantined_drop, SegmentBuf, Reassembler,
  new_segment, add64, contains,
}
use sov_vault.Reassembly.Steps.{
  Step, ◌>>=◌, mark_segment_error, drain_contiguous, release_segment, evict_oldest_in_dev,
  evict_oldest_global, pending_bytes_of, next_expected_of,
}

-- `&data[n..]`.
unfoldable pub drop : ℕ → List ℕ → List ℕ
drop zero xs = xs
drop (suc n) [] = []
drop (suc n) (x ∷ xs) = drop n xs

unfoldable pub count_dup : SegmentKey → Reassembler → Reassembler
unfolding Map.modify
count_dup key r = record r {
  segs = Map.modify key (λ (s : SegmentBuf). record s { dup_count = add64 s.dup_count 1 }) r.segs;
}

unfoldable pub conn_used : ℕ → Reassembler → ℕ
unfolding Map.get
conn_used dev r = elim (Map.get dev r.conn_pending) [ none ↦ 0 | some c ↦ c ]

abbrev pub or_new : SegmentKey → Option SegmentBuf → SegmentBuf
or_new key none = new_segment key
or_new key (some s) = s

abbrev pub grow : ℕ → List ℕ → SegmentBuf → SegmentBuf
grow offset bytes s = record s {
  pending_bytes = add64 s.pending_bytes (length bytes);
  pending = Pending.insert offset bytes s.pending;
}

-- `segs.entry(key).or_insert_with(…)` takes the chunk, and the totals grow.
unfoldable pub store : SegmentKey → ℕ → List ℕ → Reassembler → Reassembler
unfolding Map.get Map.insert conn_used
store key offset bytes r = record r {
  segs = Map.insert key (grow offset bytes (or_new key (Map.get key r.segs))) r.segs;
  global_pending = add64 r.global_pending (length bytes);
  conn_pending = Map.insert key.0 (add64 (conn_used key.0 r) (length bytes)) r.conn_pending;
}

-- The budget of the connection, for a chunk that would wait.
unfoldable pub check_l25 : ℕ → Bool → ℕ → Step → Option Step
unfolding conn_used evict_oldest_in_dev
check_l25 dev ahead len (r, events) =
    if ahead && ltb r.budgets.l25_conn_cap (add64 (conn_used dev r) len)
    then evict_oldest_in_dev dev (r, events)
    else some (r, events)

unfoldable pub check_l3 : ℕ → Step → Option Step
unfolding evict_oldest_global
check_l3 len (r, events) =
    if ltb r.budgets.l3_global_cap (add64 r.global_pending len)
    then evict_oldest_global (r, events)
    else some (r, events)

-- From the budgets on: `bytes` is what is new of the chunk, `offset` where that starts.
unfoldable pub place_new : SegmentKey → ℕ → ℕ → List ℕ → Reassembler → Option Step
unfolding mark_segment_error check_l25 check_l3 store drain_contiguous pending_bytes_of
place_new key next_expected offset bytes r =
    let ahead = ltb next_expected offset in
    if ahead && ltb r.budgets.l2_segment_cap (add64 (pending_bytes_of key r) (length bytes))
    then some (mark_segment_error key (r, []))
    else (do
      st₁ ← check_l25 key.0 ahead (length bytes) (r, [])
      (r₂, events) ← check_l3 (length bytes) st₁
      drain_contiguous key (store key offset bytes r₂, events))

unfoldable pub place_chunk : ℕ → ℕ → ℕ → List ℕ → Reassembler → Option Step
unfolding contains count_dup drop place_new next_expected_of
place_chunk dev_id segment_seq offset bytes r =
    let key : SegmentKey = (dev_id, segment_seq) in
    let next_expected = next_expected_of key r in
    let duplicate : Option Step = some (count_dup key r, dup dev_id segment_seq ∷ []) in
    if contains dev_id r.held
    then some (r, quarantined_drop dev_id (length bytes) ∷ [])
    else if leb (add64 offset (length bytes)) next_expected
    then duplicate
    else if ltb offset next_expected
    then (let cut = next_expected - offset in
        if leb (length bytes) cut
        then duplicate
        else place_new key next_expected (max offset next_expected) (drop cut bytes) r)
    else place_new key next_expected (max offset next_expected) bytes r

-- The events for the segments `first`, `first + 1`, … that were never sealed.
unfoldable pub skipped_from : ℕ → ℕ → ℕ → List Event
skipped_from dev first zero = []
skipped_from dev first (suc count) = seq_skipped dev first ∷ skipped_from dev (suc first) count

unfoldable pub last_seq_of : ℕ → Reassembler → ℕ
unfolding Map.get
last_seq_of dev r = elim (Map.get dev r.last_seq) [ none ↦ 0 | some n ↦ n ]

unfoldable pub note_seq : ℕ → ℕ → Reassembler → Reassembler
unfolding Map.insert last_seq_of
note_seq dev segment_seq r =
    if ltb (last_seq_of dev r) segment_seq
    then record r { last_seq = Map.insert dev segment_seq r.last_seq }
    else r

unfoldable pub missing_before : ℕ → ℕ → Reassembler → List Event
unfolding skipped_from last_seq_of
missing_before dev segment_seq r =
    let last = last_seq_of dev r in
    let after_last = (last + 1) % 2 ^ 32 in
    if ltb 0 segment_seq && (ltb 0 last && ltb after_last segment_seq)
    then skipped_from dev after_last (segment_seq - after_last)
    else []

-- The check of a segment's size against what was placed.
unfoldable pub settle : SegmentKey → ℕ → Step → Step
unfolding Map.get Map.modify release_segment
settle key sealed_size (r, events) = elim (Map.get key r.segs) [
  | none ↦ (r, events)
  | some s ↦
      if s.next_expected == sealed_size
      then (release_segment key r, events ++ Event.sealed key.0 key.1 sealed_size ∷ [])
      else (
        record r {
          segs =
              Map.modify key (λ (s : SegmentBuf). record s { sealed_size = some sealed_size })
                r.segs;
        },
        events ++ seal_gap key.0 key.1 s.next_expected sealed_size ∷ [],
      )
]

unfoldable pub seal : ℕ → ℕ → ℕ → Reassembler → Step
unfolding missing_before note_seq settle
seal dev_id segment_seq sealed_size r =
    settle (dev_id, segment_seq) sealed_size
      (note_seq dev_id segment_seq r, missing_before dev_id segment_seq r)
