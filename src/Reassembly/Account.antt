-- ===== src/Reassembly/Account.antt =====
-- The byte counts of the reassembler: a segment's count and what waits in it, the global count and
-- the sum over the segments.

pub mod Room
pub mod Leave
pub mod Stored
pub mod Place
pub mod Runs
use sov_vault.Base.{
  ℕ, ◌+◌, ◌-◌, ◌%◌, ◌^◌, ◌≤◌, ◌<◌, ◌≡◌, refl, sym, ap, subst, ◌∙◌, Bool, true, false, inl, inr,
  List, [], ◌∷◌, Option, none, some, arith, Option-cases, Bool-cases,
}
use sov_vault.Map
use sov_vault.Map.{nat_eq, pair_eq, Distinct}
use sov_vault.Map.Laws.{
  get-insert_cases, get-insert, Distinct-insert, Distinct-modify, modify-get_some, modify-get_none,
}
use sov_vault.Map.Total.{total, size_at, total-insert, total-remove, size_at-le}
use sov_vault.Reassembly.Pending
use sov_vault.Reassembly.State.{SegmentKey, SegmentBuf, Reassembler, sub64}
use sov_vault.Reassembly.Steps.{pending_bytes_of}

abbrev pub counted : SegmentKey → SegmentBuf → ℕ
counted key s = s.pending_bytes

-- The count of a segment covers its chunks, and is at most `cap`.
abbrev pub Fits : ℕ → SegmentBuf → Type 0
Fits cap s = (Pending.bytes s.pending ≤ s.pending_bytes) × (s.pending_bytes ≤ cap)

abbrev pub Caps : Type 0
Caps = SegmentKey → ℕ

-- Each segment is under its cap, the global count is the sum and at most `limit`, and the budget of a
-- segment is `l2`.
pub record Accounted (l2 : ℕ) (caps : Caps) (limit : ℕ) (r : Reassembler) : Type 0 where
  pub distinct : Distinct r.segs
  pub fits : (key : SegmentKey) (s : SegmentBuf) → Map.get key r.segs ≡ some s → Fits (caps key) s
  pub global : r.global_pending ≡ total counted r.segs
  pub bounded : r.global_pending ≤ limit
  pub budget : r.budgets.l2_segment_cap ≡ l2

pub size_at-counted :
    (key : SegmentKey) (r : Reassembler) → size_at counted key r.segs ≡ pending_bytes_of key r
unfolding size_at pending_bytes_of
size_at-counted key r = elim (Option-cases (Map.get key r.segs)) [
  | inl e ↦ rw (size_at, pending_bytes_of, e) refl
  | inr (s, e) ↦ rw (size_at, pending_bytes_of, e) refl
]

pub pending_bytes_of-le :
    (l2 : ℕ) (caps : Caps) (limit : ℕ) (key : SegmentKey) (r : Reassembler)
    → Accounted l2 caps limit r
    → pending_bytes_of key r ≤ r.global_pending
pending_bytes_of-le l2 caps limit key r v =
    omega (arith, size_at-le counted key r.segs, size_at-counted key r, v.global)

pub pending_bytes_of-cap :
    (l2 : ℕ) (caps : Caps) (limit : ℕ) (key : SegmentKey) (r : Reassembler)
    → Accounted l2 caps limit r
    → pending_bytes_of key r ≤ caps key
unfolding pending_bytes_of
pending_bytes_of-cap l2 caps limit key r v = elim (Option-cases (Map.get key r.segs)) [
  | inl e ↦ ground arith
  | inr (s, e) ↦ ground (arith, v.fits key s e)
]

module _ (l2 : ℕ) (caps : Caps) (limit : ℕ) where
  -- The segment at `key` is replaced, and the global count moves by the difference.
  pub insert-Accounted :
      (caps' : Caps) (limit' : ℕ) (key : SegmentKey) (s' : SegmentBuf) (r r' : Reassembler)
      → Accounted l2 caps limit r
      → r'.segs ≡ Map.insert key s' r.segs
      → Fits (caps' key) s'
      → ((j : SegmentKey) → pair_eq.beq j key ≡ false → caps j ≤ caps' j)
      → r'.global_pending + pending_bytes_of key r ≡ r.global_pending + s'.pending_bytes
      → r'.global_pending ≤ limit'
      → r'.budgets ≡ r.budgets
      → Accounted l2 caps' limit' r'
  insert-Accounted caps' limit' key s' r r' v e f c g b bud = record {
    distinct = subst Distinct (sym e) (Distinct-insert key s' r.segs v.distinct);
    fits = λ j t h. elim (Bool-cases (pair_eq.beq j key)) [
      | inl same ↦
          ground (arith, get-insert j key s' r.segs, ap (Map.get j) e, pair_eq.beq_iff j key)
      | inr other ↦
          let old = v.fits j t (ground (arith, get-insert j key s' r.segs, ap (Map.get j) e)) in
          (old.0, omega (arith, old.1, c j other))
    ];
    global = omega (
      arith,
      total-insert counted key s' r.segs,
      size_at-counted key r,
      v.global,
      ap (total counted) e,
    );
    bounded = b;
    budget = ap (λ x. x.l2_segment_cap) bud ∙ v.budget;
  }

  -- Only fields that do not count change.
  pub same-Accounted :
      (r r' : Reassembler)
      → Accounted l2 caps limit r
      → r'.segs ≡ r.segs
      → r'.global_pending ≡ r.global_pending
      → r'.budgets ≡ r.budgets
      → Accounted l2 caps limit r'
  same-Accounted r r' v e g bud = record {
    distinct = subst Distinct (sym e) v.distinct;
    fits = λ j t h. v.fits j t (sym (ap (Map.get j) e) ∙ h);
    global = g ∙ v.global ∙ sym (ap (total counted) e);
    bounded = omega (arith, v.bounded);
    budget = ap (λ x. x.l2_segment_cap) bud ∙ v.budget;
  }
