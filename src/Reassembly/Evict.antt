-- ===== src/Reassembly/Evict.antt =====
-- The evictions, as steps that make room.
use sov_vault.Base.{
  ℕ, ◌-◌, ◌≡◌, refl, subst, Bool, ◌&&◌, inl, inr, List, [], ◌∷◌, ◌++◌, Option, none, some, arith,
  length, ltb, Option-cases, Bool-cases,
}
use sov_vault.Map
use sov_vault.Map.{nat_eq, pair_eq}
use sov_vault.Reassembly.Pending
use sov_vault.Reassembly.Pending.{Pending, All, remove-All, remove-nil}
use sov_vault.Reassembly.State.{SegmentKey, evicted, SegmentBuf, Reassembler, add64, sub64}
use sov_vault.Reassembly.Steps.{
  Step, ◌>>=◌, pay_back, evict_found, evict_chunk, count_eviction, evict_oldest_in_dev,
  oldest_in_dev, evict_oldest_global, oldest_global,
}
use sov_vault.Reassembly.Engine.{check_l25, check_l3, conn_used}
use sov_vault.Reassembly.Progress.{written}
use sov_vault.Reassembly.Quiet.{
  IsQuiet, IsQuiet-refl, IsQuiet-trans, insert-Shrinks, written-quiet, count_eviction-IsQuiet,
}

pub bind-eq-some {ℓ κ} :
    {A : Type ℓ} {B : Type κ} (m : Option A) (f : A → Option B) {b : B}
    → (m >>= f) ≡ some b
    → (a : A) × (m ≡ some a) × (f a ≡ some b)
bind-eq-some none f h = cc
bind-eq-some (some a) f h = (a, refl, h)

-- A payment touches the totals only.
pub pay_back-eq-some :
    (dev sz : ℕ) (r r' : Reassembler)
    → pay_back dev sz r ≡ some r'
    → (c : ℕ) × (Map.get dev r.conn_pending ≡ some c)
      × (r' ≡ record r {
        global_pending = sub64 r.global_pending sz;
        conn_pending = Map.insert dev (c - sz) r.conn_pending;
      })
unfolding pay_back
pay_back-eq-some dev sz r r' h = elim (Option-cases (Map.get dev r.conn_pending)) [
  | inl e ↦ absurd (ground arith)
  | inr (c, e) ↦ (c, e, ground arith)
]

found-IsQuiet :
    (key : SegmentKey) (offset : ℕ) (s : SegmentBuf) (chunk : List ℕ) (rest : Pending)
    (st st' : Step)
    → Map.get key st.0.segs ≡ some s
    → Pending.remove offset s.pending ≡ some (chunk, rest)
    → evict_found key offset s chunk rest st ≡ some st'
    → IsQuiet st st'
unfolding evict_found written
found-IsQuiet key offset s chunk rest (r, events) st' e₁ e₂ h = elim (Option-cases paid) [
  | inl n ↦ absurd (ground arith)
  | inr (r', p) ↦
      let (c, _, shape) = pay_back-eq-some key.0 (length chunk) _ r' p in
      let final : st' ≡ (r', events ++ evicted key.0 key.1 offset (length chunk) ∷ []) =
        ground arith in
      rw (final, shape)
        (record {
          segs = insert-Shrinks key s s' r.segs e₁ (record {
            cursor = refl;
            fewer = λ src g. (remove-All _ offset s.pending chunk rest e₂ g).1;
            empty = λ n. absurd (ground (arith, remove-nil offset s.pending n));
          });
          events = λ k. written-quiet k events _ refl;
        })
]
  where
    s' : SegmentBuf
    s' = record s { pending = rest; pending_bytes = sub64 s.pending_bytes (length chunk) }

    paid : Option Reassembler
    paid = pay_back key.0 (length chunk) (record r { segs = Map.insert key s' r.segs })

pub evict_chunk-IsQuiet :
    (key : SegmentKey) (offset : ℕ) (st st' : Step)
    → evict_chunk key offset st ≡ some st'
    → IsQuiet st st'
unfolding evict_chunk
evict_chunk-IsQuiet key offset (r, events) st' h = elim (Option-cases (Map.get key r.segs)) [
  | inl e ↦ absurd (ground arith)
  | inr (s, e₁) ↦ elim (Option-cases (Pending.remove offset s.pending)) [
    | inl e ↦ absurd (ground arith)
    | inr ((chunk, rest), e₂) ↦
        found-IsQuiet key offset s chunk rest (r, events) st' e₁ e₂ (ground arith)
  ]
]

pub evict_oldest_in_dev-IsQuiet :
    (dev : ℕ) (st st' : Step) → evict_oldest_in_dev dev st ≡ some st' → IsQuiet st st'
unfolding evict_oldest_in_dev
evict_oldest_in_dev-IsQuiet dev (r, events) st' h =
    elim (Option-cases (oldest_in_dev dev r.segs none)) [
      | inl e ↦ subst (IsQuiet (r, events)) (ground arith) (IsQuiet-refl (r, events))
      | inr ((key, offset), e) ↦ elim (Option-cases (evict_chunk key offset (r, events))) [
        | inl n ↦ absurd (ground arith)
        | inr (mid, m) ↦ subst (IsQuiet (r, events)) (ground arith) (
            IsQuiet-trans (r, events) mid (count_eviction dev mid)
              (evict_chunk-IsQuiet key offset (r, events) mid m) (count_eviction-IsQuiet dev mid))
      ]
    ]

pub evict_oldest_global-IsQuiet :
    (st st' : Step) → evict_oldest_global st ≡ some st' → IsQuiet st st'
unfolding evict_oldest_global
evict_oldest_global-IsQuiet (r, events) st' h =
    elim (Option-cases (oldest_global r.held r.segs none)) [
      | inl e ↦ subst (IsQuiet (r, events)) (ground arith) (IsQuiet-refl (r, events))
      | inr ((key, offset), e) ↦ evict_chunk-IsQuiet key offset (r, events) st' (ground arith)
    ]

pub check_l25-IsQuiet :
    (dev : ℕ) (ahead : Bool) (len : ℕ) (st st' : Step)
    → check_l25 dev ahead len st ≡ some st'
    → IsQuiet st st'
unfolding check_l25
check_l25-IsQuiet dev ahead len (r, events) st' h =
    elim (Bool-cases (ahead && ltb r.budgets.l25_conn_cap (add64 (conn_used dev r) len))) [
      | inl e ↦ evict_oldest_in_dev-IsQuiet dev (r, events) st' (rw (check_l25, e) at h)
      | inr e ↦ subst (IsQuiet (r, events)) (ground arith) (IsQuiet-refl (r, events))
    ]

pub check_l3-IsQuiet : (len : ℕ) (st st' : Step) → check_l3 len st ≡ some st' → IsQuiet st st'
unfolding check_l3
check_l3-IsQuiet len (r, events) st' h =
    elim (Bool-cases (ltb r.budgets.l3_global_cap (add64 r.global_pending len))) [
      | inl e ↦ evict_oldest_global-IsQuiet (r, events) st' (rw (check_l3, e) at h)
      | inr e ↦ subst (IsQuiet (r, events)) (ground arith) (IsQuiet-refl (r, events))
    ]
