-- ===== src/Reassembly/Handover.antt =====
-- A chunk that reaches the cursor.
use sov_vault.Base.{
  ℕ, zero, suc, ◌+◌, ◌-◌, ◌^◌, ◌≤◌, ◌<◌, ◌≡◌, refl, ap, ◌∙◌, max, false, inl, inr, List, [], ◌∷◌,
  ◌++◌, some, arith, length, append_assoc, append-nil, ltb, leb, Option-cases, Bool-cases,
}
use sov_vault.Map
use sov_vault.Map.{nat_eq, pair_eq}
use sov_vault.Map.Laws.{get-insert_self}
use sov_vault.Reassembly.Pending
use sov_vault.Reassembly.Pending.{remove-insert_self}
use sov_vault.Reassembly.State.{SegmentKey, Event, append, SegmentBuf, Reassembler, add64, contains}
use sov_vault.Reassembly.Steps.{
  Step, pay_back, advance, drain, waiting, drain_contiguous, next_expected_of,
}
use sov_vault.Reassembly.Engine.{
  drop, or_new, grow, store, check_l25, check_l3, place_new, place_chunk,
}
use sov_vault.Reassembly.Progress.{written, written-append}
use sov_vault.Reassembly.Evict.{check_l3-IsQuiet}
use sov_vault.Reassembly.Sound.{IsSound}
use sov_vault.Reassembly.Total.Place.{place_chunk-total}
use sov_vault.Reassembly.Account.Stored.{or_new-next_expected, Related-cursor}

-- The drain only adds events.
drain-events :
    (fuel : ℕ) (key : SegmentKey) (r : Reassembler) (events : List Event) (st' : Step)
    → drain fuel key (r, events) ≡ some st'
    → (more : List Event) × (st'.1 ≡ events ++ more)
unfolding drain
drain-events zero key r events st' h = absurd (ground arith)
drain-events (suc fuel) key r events st' h = elim (Option-cases (Map.get key r.segs)) [
  | inl n ↦ ([], ground (arith, append-nil events))
  | inr (s, e₁) ↦ elim (Option-cases (Pending.remove s.next_expected s.pending)) [
    | inl n ↦ ([], ground (arith, append-nil events))
    | inr ((chunk, rest), e₂) ↦
        elim (Option-cases (
          pay_back key.0 (length chunk)
            (record r { segs = Map.insert key (advance s (length chunk) rest) r.segs }))) [
              | inl n ↦ absurd (ground arith)
              | inr (r', pay) ↦
                  let one = append key.0 key.1 s.next_expected chunk ∷ [] in
                  let (more, e) = drain-events fuel key r' (events ++ one) st' (ground arith) in
                  (one ++ more, e ∙ append_assoc events one more)
            ]
  ]
]

written-one :
    (key : SegmentKey) (offset : ℕ) (bytes : List ℕ)
    → written key (append key.0 key.1 offset bytes ∷ []) ≡ bytes
unfolding written
written-one key offset bytes = ground (arith, append-nil bytes)

-- The drain hands on the chunk that stands at the cursor.
drain-hands_on :
    (fuel : ℕ) (key : SegmentKey) (s : SegmentBuf) (bytes : List ℕ) (rest : Pending.Pending)
    (r : Reassembler) (events : List Event) (st' : Step)
    → Map.get key r.segs ≡ some s
    → Pending.remove s.next_expected s.pending ≡ some (bytes, rest)
    → drain (suc fuel) key (r, events) ≡ some st'
    → (more : List ℕ) × (written key st'.1 ≡ written key events ++ bytes ++ more)
unfolding drain
drain-hands_on fuel key s bytes rest r events st' e₁ e₂ h =
    elim (Option-cases (
      pay_back key.0 (length bytes)
        (record r { segs = Map.insert key (advance s (length bytes) rest) r.segs }))) [
          | inl n ↦ absurd (ground arith)
          | inr (r', pay) ↦
              let one = append key.0 key.1 s.next_expected bytes ∷ [] in
              let (more, e) = drain-events fuel key r' (events ++ one) st' (ground arith) in
              (
                written key more,
                ap (written key) e
                    ∙ written-append key (events ++ one) more
                    ∙ ap (λ t. t ++ written key more) (written-append key events one)
                    ∙ ap (λ t. (written key events ++ t) ++ written key more)
                        (written-one key s.next_expected bytes),
              )
        ]

store-hands_on :
    (key : SegmentKey) (offset : ℕ) (bytes : List ℕ) (r : Reassembler) (events : List Event)
    (st' : Step)
    → next_expected_of key r ≡ offset
    → drain_contiguous key (store key offset bytes r, events) ≡ some st'
    → (more : List ℕ) × (written key st'.1 ≡ written key events ++ bytes ++ more)
unfolding drain_contiguous store
store-hands_on key offset bytes r events st' here h =
    let s₀ = or_new key (Map.get key r.segs) in
    let cursor : s₀.next_expected ≡ offset = or_new-next_expected key r ∙ here in
    let (rest, e) = remove-insert_self offset bytes s₀.pending in
    drain-hands_on (waiting key (store key offset bytes r)) key (grow offset bytes s₀) bytes rest
      (store key offset bytes r) events st' (get-insert_self key (grow offset bytes s₀) r.segs)
      (rw cursor e) h

place_new-hands_on :
    (key : SegmentKey) (offset : ℕ) (bytes : List ℕ) (r : Reassembler) (st' : Step)
    → next_expected_of key r ≡ offset
    → place_new key offset offset bytes r ≡ some st'
    → (more : List ℕ) × (written key st'.1 ≡ bytes ++ more)
unfolding place_new check_l25 written
place_new-hands_on key offset bytes r st' here h =
    let level : ltb offset offset ≡ false = ground arith in
    elim (Option-cases (check_l3 (length bytes) (r, []))) [
      | inl n ↦ absurd (ground arith)
      | inr (st₂, e₂) ↦
          let q = check_l3-IsQuiet (length bytes) (r, []) st₂ e₂ in
          let (more, e) =
            store-hands_on key offset bytes st₂.0 st₂.1 st'
              (Related-cursor key r st₂.0 (q.segs key) ∙ here) (ground arith) in
          (more, e ∙ ap (λ t. t ++ bytes ++ more) (q.events key))
    ]

reaching-hands_on :
    (dev seq offset : ℕ) (bytes : List ℕ) (r : Reassembler) (st' : Step)
    → contains dev r.held ≡ false
    → offset ≤ next_expected_of (dev, seq) r
    → next_expected_of (dev, seq) r < offset + length bytes
    → offset + length bytes < 2 ^ 64
    → place_chunk dev seq offset bytes r ≡ some st'
    → (more : List ℕ) × (written (dev, seq) st'.1
        ≡ drop (next_expected_of (dev, seq) r - offset) bytes ++ more)
unfolding place_chunk drop
reaching-hands_on dev seq offset bytes r st' free from reach short h =
    let fresh : leb (add64 offset (length bytes)) next ≡ false = ground arith in
    let here : max offset next ≡ next = ground arith in
    elim (Bool-cases (ltb offset next)) [
      | inl o ↦
          let left : leb (length bytes) (next - offset) ≡ false = ground arith in
          place_new-hands_on (dev, seq) next (drop (next - offset) bytes) r st' refl
            (rw (place_chunk, free, fresh, o, left, here) at h)
      | inr o ↦
          let none_left : 0 ≡ next - offset = ground arith in
          let (more, e) =
            place_new-hands_on (dev, seq) next bytes r st' refl
              (rw (place_chunk, free, fresh, o, here) at h) in
          (more, e ∙ ap (λ n. drop n bytes ++ more) none_left)
    ]
  where
    next : ℕ
    next = next_expected_of (dev, seq) r

-- In a sound state, a chunk of a connection that is not held, which starts at or before the
-- segment's cursor and ends beyond it below 2^64, is placed, and the bytes handed on for the
-- segment begin with the part of the chunk from the cursor on, whatever the budgets say.
pub place_chunk-hands_on :
    (dev seq offset : ℕ) (bytes : List ℕ) (r : Reassembler)
    → IsSound r
    → contains dev r.held ≡ false
    → offset ≤ next_expected_of (dev, seq) r
    → next_expected_of (dev, seq) r < offset + length bytes
    → offset + length bytes < 2 ^ 64
    → (st' : Step) × (more : List ℕ) × (place_chunk dev seq offset bytes r ≡ some st')
      × (written (dev, seq) st'.1 ≡ drop (next_expected_of (dev, seq) r - offset) bytes ++ more)
place_chunk-hands_on dev seq offset bytes r v free from reach short =
    let (st', h, _) = place_chunk-total dev seq offset bytes r v in
    let (more, e) = reaching-hands_on dev seq offset bytes r st' free from reach short h in
    (st', more, h, e)
