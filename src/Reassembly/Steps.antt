-- ===== src/Reassembly/Steps.antt =====
-- src/reassembly.rs: the internal steps of the reassembler. Each takes the state with the events so
-- far; `none` is a panic, of an `unwrap` on a missing entry.
use sov_vault.Base.{
  ℕ, zero, suc, ◌+◌, ◌-◌, ◌%◌, ◌^◌, Bool, true, false, not, ◌&&◌, ◌||◌, List, [], ◌∷◌, ◌++◌, Option,
  none, some, length, ltb, leb, ◌==◌, if◌then◌else◌,
}
use sov_vault.Map
use sov_vault.Map.{nat_eq, pair_eq}
use sov_vault.Reassembly.Pending
use sov_vault.Reassembly.Pending.{Pending}
use sov_vault.Reassembly.State.{
  SegmentKey, Event, append, gap, segment_error, evicted, quarantined, unfinished, skipped, error,
  SegmentBuf, Reassembler, EvictState, add64, sub64, contains,
}

abbrev pub Step : Type 0
Step = Reassembler × List Event

infixl 5 ◌>>=◌
abbrev pub ◌>>=◌ {ℓ κ} : {A : Type ℓ} {B : Type κ} → Option A → (A → Option B) → Option B
none >>= f = none
some a >>= f = f a

-- `global_pending -= sz`, then `conn_pending.get_mut(&dev).unwrap()` less `sz`, but not below 0.
unfoldable pub pay_back : ℕ → ℕ → Reassembler → Option Reassembler
unfolding Map.get Map.insert
pay_back dev sz r = do
  c ← Map.get dev r.conn_pending
  some (record r {
    global_pending = sub64 r.global_pending sz;
    conn_pending = Map.insert dev (c - sz) r.conn_pending;
  })

-- The bytes of a segment leave the totals, where a missing connection is passed over.
unfoldable pub forgive : ℕ → ℕ → Reassembler → Reassembler
unfolding Map.modify
forgive dev bytes r = record r {
  global_pending = r.global_pending - bytes;
  conn_pending = Map.modify dev (λ c. c - bytes) r.conn_pending;
}

unfoldable pub pending_bytes_of : SegmentKey → Reassembler → ℕ
unfolding Map.get
pending_bytes_of key r = elim (Map.get key r.segs) [ none ↦ 0 | some s ↦ s.pending_bytes ]

unfoldable pub next_expected_of : SegmentKey → Reassembler → ℕ
unfolding Map.get
next_expected_of key r = elim (Map.get key r.segs) [ none ↦ 0 | some s ↦ s.next_expected ]

unfoldable pub mark_segment_error : SegmentKey → Step → Step
unfolding Map.modify forgive pending_bytes_of next_expected_of
mark_segment_error key (r, events) =
    let bytes = pending_bytes_of key r in
    let clear = λ (s : SegmentBuf). record s { state = error; pending = []; pending_bytes = 0 } in
    let marked = forgive key.0 bytes (record r { segs = Map.modify key clear r.segs }) in
    (
      marked,
      events
          ++ segment_error key.0 key.1 "L2 segment cap exceeded"
            ∷ gap key.0 key.1 (next_expected_of key marked)
            ∷ [],
    )

-- One chunk leaves the front of the segment's store.
abbrev pub advance : SegmentBuf → ℕ → Pending → SegmentBuf
advance s sz rest = record s {
  next_expected = add64 s.next_expected sz;
  pending_bytes = sub64 s.pending_bytes sz;
  state = unfinished;
  pending = rest;
}

-- The loop of `drain_contiguous`; out of fuel is `none` too.
unfoldable pub drain : ℕ → SegmentKey → Step → Option Step
unfolding Map.get Map.insert Pending.remove pay_back
drain zero key (r, events) = none
drain (suc fuel) key (r, events) = elim (Map.get key r.segs) [
  | none ↦ some (r, events)
  | some s ↦ elim (Pending.remove s.next_expected s.pending) [
    | none ↦ some (r, events)
    | some (chunk, rest) ↦
        elim (pay_back key.0 (length chunk)
          (record r { segs = Map.insert key (advance s (length chunk) rest) r.segs })) [
            | none ↦ none
            | some r' ↦ drain fuel key (r', events ++ append key.0 key.1 s.next_expected chunk ∷ [])
          ]
  ]
]

unfoldable pub waiting : SegmentKey → Reassembler → ℕ
unfolding Map.get
waiting key r = elim (Map.get key r.segs) [ none ↦ 0 | some s ↦ length s.pending ]

-- Each round takes one waiting chunk away, so this is fuel enough.
unfoldable pub drain_contiguous : SegmentKey → Step → Option Step
unfolding drain waiting
drain_contiguous key (r, events) = drain (suc (waiting key r)) key (r, events)

-- The chunk at `offset` of the segment `s` leaves it, and its size leaves all totals.
unfoldable pub evict_found : SegmentKey → ℕ → SegmentBuf → List ℕ → Pending → Step → Option Step
unfolding Map.insert pay_back
evict_found key offset s chunk rest (r, events) =
    let s' = record s { pending = rest; pending_bytes = sub64 s.pending_bytes (length chunk) } in
    elim (pay_back key.0 (length chunk) (record r { segs = Map.insert key s' r.segs })) [
      | none ↦ none
      | some r' ↦ some (r', events ++ evicted key.0 key.1 offset (length chunk) ∷ [])
    ]

-- `segs.get_mut(&key).unwrap().pending.remove(&offset).unwrap()`.
unfoldable pub evict_chunk : SegmentKey → ℕ → Step → Option Step
unfolding Map.get Pending.remove evict_found
evict_chunk key offset (r, events) = do
  s ← Map.get key r.segs
  (chunk, rest) ← Pending.remove offset s.pending
  evict_found key offset s chunk rest (r, events)

unfoldable pub drop_segment_pending : SegmentKey → Reassembler → Reassembler
unfolding Map.get Map.insert forgive
drop_segment_pending key r = elim (Map.get key r.segs) [
  | none ↦ r
  | some s ↦
      forgive key.0 s.pending_bytes
        (record r { segs = Map.insert key (record s { pending = []; pending_bytes = 0 }) r.segs })
]

unfoldable pub release_segment : SegmentKey → Reassembler → Reassembler
unfolding Map.get Map.remove forgive
release_segment key r = elim (Map.get key r.segs) [
  | none ↦ r
  | some s ↦ forgive key.0 s.pending_bytes (record r { segs = Map.remove key r.segs })
]

unfoldable pub skip_segment : SegmentKey → Reassembler → Reassembler
unfolding Map.modify drop_segment_pending
skip_segment key r =
    let dropped = drop_segment_pending key r in
    record dropped {
      segs = Map.modify key (λ (s : SegmentBuf). record s { state = skipped }) dropped.segs;
    }

-- `for key in keys`, over the keys of the connection.
unfoldable pub skip_segments : ℕ → List (SegmentKey × SegmentBuf) → Reassembler → Reassembler
unfolding skip_segment
skip_segments dev [] r = r
skip_segments dev ((key, s) ∷ rest) r =
    skip_segments dev rest (if key.0 == dev then skip_segment key r else r)

unfoldable pub quarantine : ℕ → Step → Step
unfolding contains skip_segments Map.remove
quarantine dev (r, events) =
    if contains dev r.held
    then (r, events)
    else (let r₁ = skip_segments dev r.segs (record r { held = dev ∷ r.held }) in
        (
          record r₁ {
            conn_pending = Map.remove dev r₁.conn_pending;
            evict = Map.remove dev r₁.evict;
          },
          events ++ quarantined dev ∷ [],
        ))

-- The count of evictions in the window, and the quarantine where it reaches the threshold.
unfoldable pub count_eviction : ℕ → Step → Step
unfolding Map.get Map.insert quarantine
count_eviction dev (r, events) =
    let st : EvictState = elim (Map.get dev r.evict) [
      | none ↦ record { streak = 0; window_start = r.now }
      | some st ↦ st
    ] in
    let st' : EvictState =
      if ltb r.budgets.evict_window_secs (r.now - st.window_start)
      then record { streak = 1; window_start = r.now }
      else record st { streak = (st.streak + 1) % 2 ^ 32 } in
    let counted = record r { evict = Map.insert dev st' r.evict } in
    if leb r.budgets.evict_threshold st'.streak
    then quarantine dev (counted, events)
    else (counted, events)

-- The target after one more candidate: the lower offset.
abbrev pub lower : SegmentKey → ℕ → Option (SegmentKey × ℕ) → Option (SegmentKey × ℕ)
lower key off none = some (key, off)
lower key off (some (k, to)) = if ltb off to then some (key, off) else some (k, to)

-- The search for the lowest waiting offset of the connection.
unfoldable pub oldest_in_dev :
    ℕ → List (SegmentKey × SegmentBuf) → Option (SegmentKey × ℕ) → Option (SegmentKey × ℕ)
unfolding Pending.first_key
oldest_in_dev dev [] target = target
oldest_in_dev dev ((key, s) ∷ rest) target = oldest_in_dev dev rest (
    if not (key.0 == dev)
    then target
    else elim (Pending.first_key s.pending) [ none ↦ target | some off ↦ lower key off target ])

unfoldable pub evict_oldest_in_dev : ℕ → Step → Option Step
unfolding oldest_in_dev evict_chunk count_eviction
evict_oldest_in_dev dev (r, events) = elim (oldest_in_dev dev r.segs none) [
  | none ↦ some (r, events)
  | some (key, offset) ↦ evict_chunk key offset (r, events) >>= λ st. some (count_eviction dev st)
]

-- `==` of two flags.
abbrev pub same : Bool → Bool → Bool
same true b = b
same false b = not b

-- The target after one more candidate: a quarantined connection first, then the lower offset.
abbrev pub prefer : List ℕ → SegmentKey → ℕ → Option (SegmentKey × ℕ) → Option (SegmentKey × ℕ)
prefer held key off none = some (key, off)
prefer held key off (some (k, to)) =
    let q = contains key.0 held in
    let tq = contains k.0 held in
    if (q && not tq) || (same q tq && ltb off to) then some (key, off) else some (k, to)

unfoldable pub oldest_global :
    List ℕ → List (SegmentKey × SegmentBuf) → Option (SegmentKey × ℕ) → Option (SegmentKey × ℕ)
unfolding Pending.first_key contains
oldest_global held [] target = target
oldest_global held ((key, s) ∷ rest) target =
    oldest_global held rest
      (elim (Pending.first_key s.pending) [ none ↦ target | some off ↦ prefer held key off target ])

unfoldable pub evict_oldest_global : Step → Option Step
unfolding oldest_global evict_chunk
evict_oldest_global (r, events) = elim (oldest_global r.held r.segs none) [
  | none ↦ some (r, events)
  | some (key, offset) ↦ evict_chunk key offset (r, events)
]
