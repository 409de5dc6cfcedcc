-- ===== src/Reassembly/Seal.antt =====
-- src/reassembly.rs: what `seal` reports, and what it does to the segment.
pub mod Contract
use sov_vault.Base.{
  ℕ, zero, suc, ◌+◌, ◌-◌, ◌%◌, ◌^◌, ◌<◌, ◌≡◌, ◌↔◌, ◌∙◌, Bool, true, false, ◌&&◌, ◌||◌, List, [],
  ◌∷◌, ◌++◌, Option, none, some, arith, max, refl, sym, inl, inr, Option-cases, Bool-cases,
  append-nil, ltb, leb, ◌==◌, if◌then◌else◌,
}
use sov_vault.Map
use sov_vault.Map.{nat_eq, pair_eq}
use sov_vault.Map.Laws.{get-insert, get-remove, get-modify}
use sov_vault.Reassembly.State.{SegmentKey, Event, seal_gap, seq_skipped, SegmentBuf, Reassembler}
use sov_vault.Reassembly.Steps.{release_segment}
use sov_vault.Reassembly.Engine.{skipped_from, last_seq_of, note_seq, missing_before, settle, seal}

-- One of the events passes the test.
unfoldable pub says : (Event → Bool) → List Event → Bool
says t [] = false
says t (e ∷ es) = t e || says t es

pub says-append :
    (t : Event → Bool) (xs ys : List Event) → says t (xs ++ ys) ≡ says t xs || says t ys
unfolding says
says-append t [] ys = refl
says-append t (x ∷ xs) ys = ground (arith, says-append t xs ys)

abbrev pub is_skip : ℕ → ℕ → Event → Bool
is_skip dev seq (seq_skipped d s) = (d == dev) && (s == seq)
is_skip dev seq e = false

abbrev pub is_sealed : ℕ → ℕ → ℕ → Event → Bool
is_sealed dev seq size (Event.sealed d s n) = (d == dev) && ((s == seq) && (n == size))
is_sealed dev seq size e = false

abbrev pub is_gap : ℕ → ℕ → ℕ → ℕ → Event → Bool
is_gap dev seq cursor size (seal_gap d s c n) =
    (d == dev) && ((s == seq) && ((c == cursor) && (n == size)))
is_gap dev seq cursor size e = false

-- Whether the events report the segment `seq` of the connection as skipped.
abbrev pub reports : ℕ → ℕ → List Event → Bool
reports dev seq events = says (is_skip dev seq) events

reports-skipped_from :
    (d dev first count seq : ℕ)
    → reports d seq (skipped_from dev first count)
      ≡ (dev == d) && (leb first seq && ltb seq (first + count))
unfolding says skipped_from
reports-skipped_from d dev first zero seq = ground arith
reports-skipped_from d dev first (suc count) seq =
    rw (reports-skipped_from d dev (suc first) count seq) (ground arith)

missing_before-reports :
    (d dev seq miss : ℕ) (r : Reassembler)
    → last_seq_of dev r < 2 ^ 32 - 1
    → (reports d miss (missing_before dev seq r) ≡ true)
      ↔ ((d ≡ dev) × (0 < last_seq_of dev r) × (last_seq_of dev r < miss) × (miss < seq))
unfolding missing_before says
missing_before-reports d dev seq miss r h = ground (
  arith,
  reports-skipped_from d dev ((last_seq_of dev r + 1) % 2 ^ 32)
      (seq - (last_seq_of dev r + 1) % 2 ^ 32) miss,
)

-- The highest sealed number never falls, and covers the segment that is sealed.
pub last_seq_of-note_seq :
    (dev d seq : ℕ) (r : Reassembler)
    → last_seq_of d (note_seq dev seq r) ≡ (
        if d == dev
        then (if ltb (last_seq_of dev r) seq then seq else last_seq_of dev r)
        else last_seq_of d r)
unfolding last_seq_of note_seq
last_seq_of-note_seq dev d seq r = ground (arith, get-insert d dev seq r.last_seq)

pub note_seq-segs :
    (dev seq : ℕ) (r : Reassembler)
    → Map.get (dev, seq) (note_seq dev seq r).segs ≡ Map.get (dev, seq) r.segs
unfolding note_seq
note_seq-segs dev seq r = ground arith

pub settle_lem :
    (key : SegmentKey) (size : ℕ) (s : SegmentBuf) (r : Reassembler) (events : List Event)
    → Map.get key r.segs ≡ some s
    → (Map.get key (settle key size (r, events)).0.segs
        ≡ (if s.next_expected == size then none else some (record s { sealed_size = some size })))
      × ((settle key size (r, events)).1
          ≡ events
            ++ (if s.next_expected == size
                then Event.sealed key.0 key.1 size
                else seal_gap key.0 key.1 s.next_expected size)
              ∷ [])
unfolding settle release_segment
settle_lem key size s r events e = ground (
  arith,
  get-remove key key r.segs,
  get-modify key key (λ (t : SegmentBuf). record t { sealed_size = some size }) r.segs,
  pair_eq.beq_iff key key,
)

-- The events after the skipped segments.
settle-events :
    (key : SegmentKey) (size : ℕ) (r : Reassembler) (events : List Event)
    → (more : List Event) × ((settle key size (r, events)).1 ≡ events ++ more)
      × ((d miss : ℕ) → reports d miss more ≡ false)
      × ((settle key size (r, events)).0.last_seq ≡ r.last_seq)
unfolding settle release_segment says
settle-events key size r events = elim (Option-cases (Map.get key r.segs)) [
  | inl e ↦ ([], rw (settle, e) (sym (append-nil events)), λ d miss. refl, rw (settle, e) refl)
  | inr (s, e) ↦ elim (Bool-cases (s.next_expected == size)) [
    | inl b ↦ (
      Event.sealed key.0 key.1 size ∷ [],
      rw (settle, e, b) refl,
      λ d miss. refl,
      rw (settle, e, b, release_segment, e) refl,
    )
    | inr b ↦ (
      seal_gap key.0 key.1 s.next_expected size ∷ [],
      rw (settle, e, b) refl,
      λ d miss. refl,
      rw (settle, e, b) refl,
    )
  ]
]

last_seq_of-same :
    (dev : ℕ) (r r' : Reassembler)
    → r'.last_seq ≡ r.last_seq
    → last_seq_of dev r' ≡ last_seq_of dev r
unfolding last_seq_of
last_seq_of-same dev r r' e = rw e refl

-- Where the highest sealed number of a connection, zero if there is none, is below 2^32 - 1: a
-- seal reports a segment as skipped exactly when it is of the same connection, that highest number
-- is above zero, and the segment lies strictly between it and the one that is sealed. Afterwards
-- the highest number is the greater of the two, so that it is still zero after a seal of segment
-- 0.
pub seal-reports :
    (d dev seq size miss : ℕ) (r : Reassembler)
    → last_seq_of dev r < 2 ^ 32 - 1
    → ((reports d miss (seal dev seq size r).1 ≡ true)
        ↔ ((d ≡ dev) × (0 < last_seq_of dev r) × (last_seq_of dev r < miss) × (miss < seq)))
      × (last_seq_of dev (seal dev seq size r).0 ≡ max (last_seq_of dev r) seq)
unfolding seal
seal-reports d dev seq size miss r h =
    let noted = note_seq dev seq r in
    let missing = missing_before dev seq r in
    let (more, e, quiet, same) = settle-events (dev, seq) size noted missing in
    let told : reports d miss (seal dev seq size r).1 ≡ reports d miss missing =
      rw e (ground (arith, says-append (is_skip d miss) missing more, quiet d miss)) in
    (
      rw told (missing_before-reports d dev seq miss r h),
      last_seq_of-same dev noted (seal dev seq size r).0 same
          ∙ last_seq_of-note_seq dev dev seq r
          ∙ ground arith,
    )
