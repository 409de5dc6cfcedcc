-- ===== src/Reassembly/Account/Stored.antt =====
-- `store`, and the first round of the drain after it, in the byte counts.
use sov_vault.Base.{
  ℕ, suc, ◌+◌, ◌^◌, ◌≤◌, ◌<◌, ◌≡◌, refl, false, inl, inr, List, [], ◌∷◌, ◌++◌, Option, none, some,
  arith, length, if◌then◌else◌, Option-cases, Bool-cases,
}
use sov_vault.Map
use sov_vault.Map.{nat_eq, pair_eq, Distinct}
use sov_vault.Reassembly.Pending
use sov_vault.Reassembly.Pending.{Pending, bytes-insert-le, remove-insert_self}
use sov_vault.Reassembly.State.{
  SegmentKey, SegmentBuf, Reassembler, Event, new_segment, append, add64,
}
use sov_vault.Reassembly.Steps.{Step, pay_back, advance, drain, pending_bytes_of, next_expected_of}
use sov_vault.Reassembly.Engine.{or_new, grow, store}
use sov_vault.Reassembly.Quiet.{Related}
use sov_vault.Reassembly.Account.{Caps, Accounted, pending_bytes_of-cap, insert-Accounted}
use sov_vault.Reassembly.Account.Room.{pending_bytes_of-some}
use sov_vault.Reassembly.Account.Leave.{leave-Accounted, drain_rounds-Accounted}

-- The cap of all segments but one.
abbrev pub at : SegmentKey → ℕ → ℕ → Caps
at key own l2 j = if pair_eq.beq j key then own else l2

pub at_self : (key : SegmentKey) (own l2 : ℕ) → at key own l2 key ≡ own
at_self key own l2 = rw ((pair_eq.beq_iff key key).1 refl) refl

pub at_ne : (key j : SegmentKey) (own l2 : ℕ) → pair_eq.beq j key ≡ false → at key own l2 j ≡ l2
at_ne key j own l2 e = rw e refl

pub widen :
    (l2 : ℕ) (caps : Caps) (limit limit' : ℕ) (r : Reassembler)
    → limit ≤ limit'
    → Accounted l2 caps limit r
    → Accounted l2 caps limit' r
widen l2 caps limit limit' r h v = record {
  distinct = v.distinct;
  fits = v.fits;
  global = v.global;
  bounded = omega (arith, v.bounded);
  budget = v.budget;
}

-- The cap of one segment comes down to what it counts.
pub tighten :
    (l2 limit : ℕ) (key : SegmentKey) (r : Reassembler)
    → Accounted l2 (λ j. l2) limit r
    → Accounted l2 (at key (pending_bytes_of key r) l2) limit r
tighten l2 limit key r v = record {
  distinct = v.distinct;
  fits = λ j s e. elim (Bool-cases (pair_eq.beq j key)) [
    | inl b ↦ ground (arith, v.fits j s e, pair_eq.beq_iff j key, pending_bytes_of-some j s r e)
    | inr b ↦ rw b (v.fits j s e)
  ];
  global = v.global;
  bounded = v.bounded;
  budget = v.budget;
}

or_new-pending_bytes :
    (key : SegmentKey) (r : Reassembler)
    → (or_new key (Map.get key r.segs)).pending_bytes ≡ pending_bytes_of key r
unfolding pending_bytes_of new_segment
or_new-pending_bytes key r = elim (Option-cases (Map.get key r.segs)) [
  | inl e ↦ rw (pending_bytes_of, e) refl
  | inr (s, e) ↦ rw (pending_bytes_of, e) refl
]

pub or_new-next_expected :
    (key : SegmentKey) (r : Reassembler)
    → (or_new key (Map.get key r.segs)).next_expected ≡ next_expected_of key r
unfolding next_expected_of new_segment
or_new-next_expected key r = elim (Option-cases (Map.get key r.segs)) [
  | inl e ↦ rw (next_expected_of, e) refl
  | inr (s, e) ↦ rw (next_expected_of, e) refl
]

or_new-bytes :
    (l2 : ℕ) (caps : Caps) (limit : ℕ) (key : SegmentKey) (r : Reassembler)
    → Accounted l2 caps limit r
    → Pending.bytes (or_new key (Map.get key r.segs)).pending ≤ pending_bytes_of key r
unfolding pending_bytes_of new_segment Pending.bytes
or_new-bytes l2 caps limit key r v = elim (Option-cases (Map.get key r.segs)) [
  | inl e ↦ rw (pending_bytes_of, e) (omega arith)
  | inr (s, e) ↦ rw (pending_bytes_of, e) (v.fits key s e).0
]

pub store-Accounted :
    (l2 : ℕ) (caps caps' : Caps) (limit : ℕ) (key : SegmentKey) (offset : ℕ) (bytes : List ℕ)
    (r : Reassembler)
    → Accounted l2 caps limit r
    → limit + length bytes < 2 ^ 64
    → caps key + length bytes ≤ caps' key
    → caps' key < 2 ^ 64
    → ((j : SegmentKey) → pair_eq.beq j key ≡ false → caps j ≤ caps' j)
    → Accounted l2 caps' (limit + length bytes) (store key offset bytes r)
unfolding store
store-Accounted l2 caps caps' limit key offset bytes r v small own fits others =
    let s₀ = or_new key (Map.get key r.segs) in
    let pb = or_new-pending_bytes key r in
    let cap = pending_bytes_of-cap l2 caps limit key r v in
    let grown : add64 s₀.pending_bytes (length bytes) ≡ pending_bytes_of key r + length bytes =
      omega (arith, pb, cap) in
    let sum : add64 r.global_pending (length bytes) ≡ r.global_pending + length bytes =
      omega (arith, v.bounded) in
    insert-Accounted l2 caps limit caps' (limit + length bytes) key (grow offset bytes s₀) r _ v
      refl
      (
        omega (
          arith,
          grown,
          bytes-insert-le offset bytes s₀.pending,
          or_new-bytes l2 caps limit key r v,
        ),
        omega (arith, grown, cap),
      )
      others (omega (arith, grown, sum)) (omega (arith, sum, v.bounded)) refl

pub Related-cursor :
    (key : SegmentKey) (r r' : Reassembler)
    → Related (Map.get key r.segs) (Map.get key r'.segs)
    → next_expected_of key r' ≡ next_expected_of key r
unfolding next_expected_of
Related-cursor key r r' h = go (Map.get key r.segs) (Map.get key r'.segs) h
  where
    cursor : Option SegmentBuf → ℕ
    cursor o = elim o [ none ↦ 0 | some s ↦ s.next_expected ]

    go : (o o' : Option SegmentBuf) → Related o o' → cursor o' ≡ cursor o
    go none none h = refl
    go none (some t) h = absurd h
    go (some s) none h = absurd h
    go (some s) (some t) h = h.cursor

-- The chunk at the cursor leaves the segment at once, and its cap is the old one again.
pub drain_first-Accounted :
    (l2 : ℕ) (caps caps' : Caps) (limit : ℕ) (key : SegmentKey) (s : SegmentBuf) (bytes : List ℕ)
    (rest : Pending) (fuel : ℕ) (r : Reassembler) (events : List Event) (st' : Step)
    → limit < 2 ^ 64
    → Accounted l2 caps limit r
    → Map.get key r.segs ≡ some s
    → Pending.remove s.next_expected s.pending ≡ some (bytes, rest)
    → caps key ≤ caps' key + length bytes
    → ((j : SegmentKey) → pair_eq.beq j key ≡ false → caps j ≤ caps' j)
    → drain (suc fuel) key (r, events) ≡ some st'
    → Accounted l2 caps' limit st'.0
unfolding drain
drain_first-Accounted l2 caps caps' limit key s bytes rest fuel r events st' small v e₁ e₂ own
      others h =
    elim (Option-cases (
      pay_back key.0 (length bytes)
        (record r { segs = Map.insert key (advance s (length bytes) rest) r.segs }))) [
          | inl n ↦ absurd (ground arith)
          | inr (r', pay) ↦
              drain_rounds-Accounted l2 caps' limit small fuel key r'
                (events ++ append key.0 key.1 s.next_expected bytes ∷ []) st'
                (leave-Accounted l2 caps limit small caps' key s.next_expected s
                  (advance s (length bytes) rest) bytes rest r r' v e₁ e₂ refl refl others
                  (omega (arith, (v.fits key s e₁).1, own)) pay)
                (ground arith)
        ]
