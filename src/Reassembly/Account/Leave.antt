-- ===== src/Reassembly/Account/Leave.antt =====
-- The byte counts when a waiting chunk leaves its segment, by an eviction or by the drain.
use sov_vault.Base.{
  ℕ, suc, zero, ◌+◌, ◌-◌, ◌^◌, ◌≤◌, ◌<◌, ◌≡◌, refl, subst, Bool, false, ◌&&◌, inl, inr, List, [],
  ◌∷◌, ◌++◌, none, some, arith, length, ltb, Option-cases, Bool-cases,
}
use sov_vault.Map
use sov_vault.Map.{nat_eq, pair_eq}
use sov_vault.Reassembly.Pending
use sov_vault.Reassembly.Pending.{Pending, remove-bytes}
use sov_vault.Reassembly.State.{
  SegmentKey, SegmentBuf, Reassembler, Event, append, add64, sub64, evicted,
}
use sov_vault.Reassembly.Steps.{
  Step, pay_back, advance, drain, evict_found, evict_chunk, evict_oldest_in_dev, oldest_in_dev,
  evict_oldest_global, oldest_global, count_eviction,
}
use sov_vault.Reassembly.Engine.{check_l25, check_l3, conn_used}
use sov_vault.Reassembly.Evict.{pay_back-eq-some}
use sov_vault.Reassembly.Account.{Caps, Accounted, pending_bytes_of-le, insert-Accounted}
use sov_vault.Reassembly.Account.Room.{sub64-le, pending_bytes_of-some, count_eviction-Accounted}

module _ (l2 : ℕ) (caps : Caps) (limit : ℕ) (small : limit < 2 ^ 64) where
  pub leave-Accounted :
      (caps' : Caps) (key : SegmentKey) (k : ℕ) (s s' : SegmentBuf) (chunk : List ℕ)
      (rest : Pending) (r r' : Reassembler)
      → Accounted l2 caps limit r
      → Map.get key r.segs ≡ some s
      → Pending.remove k s.pending ≡ some (chunk, rest)
      → s'.pending ≡ rest
      → s'.pending_bytes ≡ sub64 s.pending_bytes (length chunk)
      → ((j : SegmentKey) → pair_eq.beq j key ≡ false → caps j ≤ caps' j)
      → s.pending_bytes ≤ caps' key + length chunk
      → pay_back key.0 (length chunk) (record r { segs = Map.insert key s' r.segs }) ≡ some r'
      → Accounted l2 caps' limit r'
  leave-Accounted caps' key k s s' chunk rest r r' v e₁ e₂ p b others own pay =
      let (c, _, shape) = pay_back-eq-some key.0 (length chunk) _ r' pay in
      let old = v.fits key s e₁ in
      let gone = remove-bytes k s.pending chunk rest e₂ in
      let at_key = pending_bytes_of-some key s r e₁ in
      let below = pending_bytes_of-le l2 caps limit key r v in
      let own_less : sub64 s.pending_bytes (length chunk) ≡ s.pending_bytes - length chunk =
        sub64-le s.pending_bytes (length chunk) (omega (arith, gone.0, old.0))
          (omega (arith, v.bounded, small)) in
      let all_less : sub64 r.global_pending (length chunk) ≡ r.global_pending - length chunk =
        sub64-le r.global_pending (length chunk) (omega (arith, gone.0, old.0))
          (omega (arith, v.bounded, small)) in
      rw shape (
        insert-Accounted l2 caps limit caps' limit key s' r _ v refl
          (rw p (omega (arith, gone.0, old.0)), omega (arith, own)) others
          (omega (arith, gone.0, old.0)) (omega (arith, v.bounded)) refl)

  found-Accounted :
      (key : SegmentKey) (offset : ℕ) (s : SegmentBuf) (chunk : List ℕ) (rest : Pending)
      (st st' : Step)
      → Accounted l2 caps limit st.0
      → Map.get key st.0.segs ≡ some s
      → Pending.remove offset s.pending ≡ some (chunk, rest)
      → evict_found key offset s chunk rest st ≡ some st'
      → Accounted l2 caps limit st'.0
  unfolding evict_found
  found-Accounted key offset s chunk rest (r, events) st' v e₁ e₂ h =
      elim (Option-cases
        (pay_back key.0 (length chunk) (record r { segs = Map.insert key s' r.segs }))) [
          | inl n ↦ absurd (ground arith)
          | inr (r', pay) ↦
              subst (λ (t : Step). Accounted l2 caps limit t.0)
                {x = (r', events ++ evicted key.0 key.1 offset (length chunk) ∷ [])} {y = st'}
                (ground arith)
                (leave-Accounted caps key offset s s' chunk rest r r' v e₁ e₂ refl refl
                  (λ j n. omega arith) (omega (arith, (v.fits key s e₁).1)) pay)
        ]
    where
      s' : SegmentBuf
      s' = record s { pending = rest; pending_bytes = sub64 s.pending_bytes (length chunk) }

  evict_chunk-Accounted :
      (key : SegmentKey) (offset : ℕ) (st st' : Step)
      → Accounted l2 caps limit st.0
      → evict_chunk key offset st ≡ some st'
      → Accounted l2 caps limit st'.0
  unfolding evict_chunk
  evict_chunk-Accounted key offset (r, events) st' v h = elim (Option-cases (Map.get key r.segs)) [
    | inl e ↦ absurd (ground arith)
    | inr (s, e₁) ↦ elim (Option-cases (Pending.remove offset s.pending)) [
      | inl e ↦ absurd (ground arith)
      | inr ((chunk, rest), e₂) ↦
          found-Accounted key offset s chunk rest (r, events) st' v e₁ e₂ (ground arith)
    ]
  ]

  abbrev Stays : Step → Type 0
  Stays st = Accounted l2 caps limit st.0

  evict_oldest_in_dev-Accounted :
      (dev : ℕ) (st st' : Step) → Stays st → evict_oldest_in_dev dev st ≡ some st' → Stays st'
  unfolding evict_oldest_in_dev
  evict_oldest_in_dev-Accounted dev (r, events) st' v h =
      elim (Option-cases (oldest_in_dev dev r.segs none)) [
        | inl e ↦ subst Stays {x = (r, events)} {y = st'} (ground arith) v
        | inr ((key, offset), e) ↦ elim (Option-cases (evict_chunk key offset (r, events))) [
          | inl n ↦ absurd (ground arith)
          | inr (mid, m) ↦ subst Stays {x = count_eviction dev mid} {y = st'} (ground arith) (
              count_eviction-Accounted l2 caps limit dev mid
                (evict_chunk-Accounted key offset (r, events) mid v m))
        ]
      ]

  evict_oldest_global-Accounted :
      (st st' : Step) → Stays st → evict_oldest_global st ≡ some st' → Stays st'
  unfolding evict_oldest_global
  evict_oldest_global-Accounted (r, events) st' v h =
      elim (Option-cases (oldest_global r.held r.segs none)) [
        | inl e ↦ subst Stays {x = (r, events)} {y = st'} (ground arith) v
        | inr ((key, offset), e) ↦ evict_chunk-Accounted key offset (r, events) st' v (ground arith)
      ]

  pub check_l25-Accounted :
      (dev : ℕ) (ahead : Bool) (len : ℕ) (st st' : Step)
      → Stays st
      → check_l25 dev ahead len st ≡ some st'
      → Stays st'
  unfolding check_l25
  check_l25-Accounted dev ahead len (r, events) st' v h =
      elim (Bool-cases (ahead && ltb r.budgets.l25_conn_cap (add64 (conn_used dev r) len))) [
        | inl e ↦ evict_oldest_in_dev-Accounted dev (r, events) st' v (rw (check_l25, e) at h)
        | inr e ↦ subst Stays {x = (r, events)} {y = st'} (ground arith) v
      ]

  pub check_l3-Accounted :
      (len : ℕ) (st st' : Step) → Stays st → check_l3 len st ≡ some st' → Stays st'
  unfolding check_l3
  check_l3-Accounted len (r, events) st' v h =
      elim (Bool-cases (ltb r.budgets.l3_global_cap (add64 r.global_pending len))) [
        | inl e ↦ evict_oldest_global-Accounted (r, events) st' v (rw (check_l3, e) at h)
        | inr e ↦ subst Stays {x = (r, events)} {y = st'} (ground arith) v
      ]

  -- One round of the drain, and then the others.
  pub drain_rounds-Accounted :
      (fuel : ℕ) (key : SegmentKey) (r : Reassembler) (events : List Event) (st' : Step)
      → Accounted l2 caps limit r
      → drain fuel key (r, events) ≡ some st'
      → Stays st'
  unfolding drain
  drain_rounds-Accounted zero key r events st' v h = absurd (ground arith)
  drain_rounds-Accounted (suc fuel) key r events st' v h =
      elim (Option-cases (Map.get key r.segs)) [
        | inl n ↦ subst Stays {x = (r, events)} {y = st'} (ground arith) v
        | inr (s, e₁) ↦ elim (Option-cases (Pending.remove s.next_expected s.pending)) [
          | inl n ↦ subst Stays {x = (r, events)} {y = st'} (ground arith) v
          | inr ((chunk, rest), e₂) ↦
              elim (Option-cases (
                pay_back key.0 (length chunk)
                  (record r { segs = Map.insert key (advance s (length chunk) rest) r.segs }))) [
                    | inl n ↦ absurd (ground arith)
                    | inr (r', pay) ↦
                        drain_rounds-Accounted fuel key r'
                          (events ++ append key.0 key.1 s.next_expected chunk ∷ []) st'
                          (leave-Accounted caps key s.next_expected s
                            (advance s (length chunk) rest) chunk rest r r' v e₁ e₂ refl refl
                            (λ j n. omega arith) (omega (arith, (v.fits key s e₁).1)) pay)
                          (ground arith)
                  ]
        ]
      ]
