-- ===== src/Reassembly/Budget.antt =====
-- How the budgets count what waits.
use sov_vault.Base.{
  ℕ, ◌+◌, ◌*◌, ◌^◌, ◌≤◌, ◌<◌, ◌≡◌, refl, ap, ◌∙◌, max, Bool, false, List, [], some, arith, length,
  ltb, leb,
}
use sov_vault.Map
use sov_vault.Map.{nat_eq, pair_eq}
use sov_vault.Map.Laws.{get-insert_self}
use sov_vault.Reassembly.Pending
use sov_vault.Reassembly.Pending.{insert_twice}
use sov_vault.Reassembly.State.{
  SegmentKey, SegmentBuf, Reassembler, Budgets, empty, new_segment, add64, contains,
}
use sov_vault.Reassembly.Steps.{
  Step, evict_oldest_in_dev, oldest_in_dev, evict_oldest_global, oldest_global, drain,
  drain_contiguous, pending_bytes_of, next_expected_of,
}
use sov_vault.Reassembly.Engine.{
  or_new, grow, store, conn_used, check_l25, check_l3, place_new, place_chunk,
}

store-get :
    (key : SegmentKey) (offset : ℕ) (bytes : List ℕ) (s : SegmentBuf) (r : Reassembler)
    → Map.get key r.segs ≡ some s
    → Map.get key (store key offset bytes r).segs ≡ some (grow offset bytes s)
unfolding store
store-get key offset bytes s r e =
    get-insert_self key (grow offset bytes (or_new key (Map.get key r.segs))) r.segs
    ∙ ap (λ o. some (grow offset bytes (or_new key o))) e

conn_used-store :
    (key : SegmentKey) (offset : ℕ) (bytes : List ℕ) (r : Reassembler)
    → conn_used key.0 (store key offset bytes r) ≡ add64 (conn_used key.0 r) (length bytes)
unfolding store conn_used
conn_used-store key offset bytes r =
    ground (arith, get-insert_self key.0 (add64 (conn_used key.0 r) (length bytes)) r.conn_pending)

global-store :
    (key : SegmentKey) (offset : ℕ) (bytes : List ℕ) (r : Reassembler)
    → (store key offset bytes r).global_pending ≡ add64 r.global_pending (length bytes)
unfolding store
global-store key offset bytes r = refl

-- A waiting chunk of a held segment that is stored again at its offset, with totals that do not
-- overflow: what waits is as after the first copy, and the counts of the segment, of the
-- connection and of the reassembler have grown by twice its length.
pub store-twice :
    (key : SegmentKey) (offset : ℕ) (bytes : List ℕ) (s : SegmentBuf) (r : Reassembler)
    → Map.get key r.segs ≡ some s
    → s.pending_bytes + 2 * length bytes < 2 ^ 64
    → r.global_pending + 2 * length bytes < 2 ^ 64
    → conn_used key.0 r + 2 * length bytes < 2 ^ 64
    → (t : SegmentBuf) × (Map.get key (store key offset bytes (store key offset bytes r)).segs
        ≡ some t)
      × (t.pending ≡ Pending.insert offset bytes s.pending)
      × (t.pending_bytes ≡ s.pending_bytes + 2 * length bytes)
      × ((store key offset bytes (store key offset bytes r)).global_pending
          ≡ r.global_pending + 2 * length bytes)
      × (conn_used key.0 (store key offset bytes (store key offset bytes r))
          ≡ conn_used key.0 r + 2 * length bytes)
store-twice key offset bytes s r e hs hg hc =
    let once = store key offset bytes r in
    (
      grow offset bytes (grow offset bytes s),
      store-get key offset bytes (grow offset bytes s) once (store-get key offset bytes s r e),
      insert_twice offset bytes s.pending,
      omega arith,
      omega (arith, global-store key offset bytes once, global-store key offset bytes r),
      omega (arith, conn_used-store key offset bytes once, conn_used-store key offset bytes r),
    )

check_l25-nothing :
    (b : Budgets) (dev : ℕ) (ahead : Bool) (len : ℕ)
    → check_l25 dev ahead len (empty b, []) ≡ some (empty b, [])
unfolding check_l25 evict_oldest_in_dev oldest_in_dev empty
check_l25-nothing b dev ahead len = ground arith

check_l3-nothing : (b : Budgets) (len : ℕ) → check_l3 len (empty b, []) ≡ some (empty b, [])
unfolding check_l3 evict_oldest_global oldest_global empty
check_l3-nothing b len = ground arith

-- The segment that holds one waiting chunk and nothing else is left alone.
drain-waits :
    (b : Budgets) (key : SegmentKey) (offset : ℕ) (bytes : List ℕ)
    → 0 < offset
    → drain_contiguous key (store key offset bytes (empty b), [])
      ≡ some (store key offset bytes (empty b), [])
unfolding drain_contiguous drain store Map.get Map.insert empty new_segment Pending.insert
    Pending.remove
drain-waits b key offset bytes far = ground (arith, pair_eq.beq_iff key key)

place_new-waits :
    (b : Budgets) (key : SegmentKey) (offset : ℕ) (bytes : List ℕ)
    → 0 < offset
    → length bytes ≤ b.l2_segment_cap
    → length bytes < 2 ^ 64
    → place_new key 0 offset bytes (empty b) ≡ some (store key offset bytes (empty b), [])
unfolding place_new pending_bytes_of empty Map.get
place_new-waits b key offset bytes far fits short =
    let within : ltb b.l2_segment_cap (add64 0 (length bytes)) ≡ false = ground arith in
    rw
      (
        place_new,
        pending_bytes_of,
        Map.get,
        within,
        check_l25-nothing b key.0 (ltb 0 offset) (length bytes),
        check_l3-nothing b (length bytes),
      )
      (ground (arith, drain-waits b key offset bytes far))

-- Into the empty reassembler, a chunk beyond the start is stored, and nothing else happens.
pub place_chunk-waits :
    (b : Budgets) (dev seq offset : ℕ) (bytes : List ℕ)
    → 0 < offset
    → offset + length bytes < 2 ^ 64
    → length bytes ≤ b.l2_segment_cap
    → place_chunk dev seq offset bytes (empty b)
      ≡ some (store (dev, seq) offset bytes (empty b), [])
unfolding place_chunk contains empty next_expected_of Map.get
place_chunk-waits b dev seq offset bytes far short fits =
    let beyond : leb (add64 offset (length bytes)) 0 ≡ false = ground arith in
    let level : ltb offset 0 ≡ false = ground arith in
    let from : max offset 0 ≡ offset = ground arith in
    rw (place_chunk, next_expected_of, Map.get, contains, beyond, level, from)
      (place_new-waits b (dev, seq) offset bytes far fits (omega arith))

-- Into the empty reassembler, a chunk beyond the start that ends below 2^64 and fits the budget of
-- a segment is stored, whatever the budgets of a connection and of all together: both counts are
-- then its length, and the connection is not held.
pub place_chunk-over_budget :
    (b : Budgets) (dev seq offset : ℕ) (bytes : List ℕ)
    → 0 < offset
    → offset + length bytes < 2 ^ 64
    → length bytes ≤ b.l2_segment_cap
    → (st' : Step) × (place_chunk dev seq offset bytes (empty b) ≡ some st')
      × (st'.0.global_pending ≡ length bytes)
      × (conn_used dev st'.0 ≡ length bytes)
      × (contains dev st'.0.held ≡ false)
unfolding contains empty conn_used Map.get store
place_chunk-over_budget b dev seq offset bytes far short fits = (
  (store (dev, seq) offset bytes (empty b), []),
  place_chunk-waits b dev seq offset bytes far short fits,
  ground arith,
  conn_used-store (dev, seq) offset bytes (empty b) ∙ ground arith,
  refl,
)
