-- ===== src/Reassembly/Account/Place.antt =====
-- The byte counts over `place_chunk`.
use sov_vault.Base.{
  ℕ, suc, ◌+◌, ◌-◌, ◌^◌, ◌≤◌, ◌<◌, ◌≡◌, refl, subst, ◌∙◌, max, Bool, ◌&&◌, inl, inr, List, [], ◌∷◌,
  some, arith, length, ltb, leb, Option-cases, Bool-cases,
}
use sov_vault.Map
use sov_vault.Map.{nat_eq, pair_eq, Distinct}
use sov_vault.Map.Laws.{get-insert_self}
use sov_vault.Reassembly.Pending.{remove-insert_self}
use sov_vault.Reassembly.State.{
  SegmentKey, SegmentBuf, Reassembler, Event, dup, quarantined_drop, add64, contains,
}
use sov_vault.Reassembly.Steps.{
  Step, waiting, drain_contiguous, mark_segment_error, pending_bytes_of, next_expected_of,
}
use sov_vault.Reassembly.Engine.{
  drop, or_new, grow, store, count_dup, check_l25, check_l3, place_new, place_chunk,
}
use sov_vault.Reassembly.Slices.{length-drop}
use sov_vault.Reassembly.Evict.{check_l25-IsQuiet, check_l3-IsQuiet}
use sov_vault.Reassembly.Account.{Caps, Accounted, pending_bytes_of-cap}
use sov_vault.Reassembly.Account.Room.{mark_segment_error-Accounted, mark-Accounted}
use sov_vault.Reassembly.Account.Leave.{
  check_l25-Accounted, check_l3-Accounted, drain_rounds-Accounted,
}
use sov_vault.Reassembly.Account.Stored.{
  at, at_self, at_ne, widen, tighten, store-Accounted, or_new-next_expected, Related-cursor,
  drain_first-Accounted,
}

module _ (l2 : ℕ) where
  abbrev pub flat : Caps
  flat j = l2

  -- After a chunk beyond the cursor.
  ahead-Accounted :
      (limit : ℕ) (key : SegmentKey) (own offset : ℕ) (bytes : List ℕ) (r : Reassembler)
      (events : List Event) (st' : Step)
      → limit + length bytes < 2 ^ 64
      → own + length bytes ≤ l2
      → l2 < 2 ^ 64
      → own ≤ l2
      → Accounted l2 (at key own l2) limit r
      → drain_contiguous key (store key offset bytes r, events) ≡ some st'
      → Accounted l2 flat (limit + length bytes) st'.0
  unfolding drain_contiguous
  ahead-Accounted limit key own offset bytes r events st' small fits cap below v h =
      drain_rounds-Accounted l2 flat (limit + length bytes) small
        (suc (waiting key (store key offset bytes r))) key (store key offset bytes r) events st'
        (store-Accounted l2 (at key own l2) flat limit key offset bytes r v small
          (omega (arith, at_self key own l2)) cap (λ j n. omega (arith, at_ne key j own l2 n)))
        h

  -- After a chunk at the cursor.
  next-Accounted :
      (limit : ℕ) (key : SegmentKey) (offset : ℕ) (bytes : List ℕ) (r : Reassembler)
      (events : List Event) (st' : Step)
      → limit + length bytes < 2 ^ 64
      → l2 + length bytes < 2 ^ 64
      → next_expected_of key r ≡ offset
      → Accounted l2 flat limit r
      → drain_contiguous key (store key offset bytes r, events) ≡ some st'
      → Accounted l2 flat (limit + length bytes) st'.0
  unfolding drain_contiguous store
  next-Accounted limit key offset bytes r events st' small cap here v h =
      let s₀ = or_new key (Map.get key r.segs) in
      let cursor : s₀.next_expected ≡ offset = or_new-next_expected key r ∙ here in
      let (rest, e) = remove-insert_self offset bytes s₀.pending in
      drain_first-Accounted l2 raised flat (limit + length bytes) key (grow offset bytes s₀) bytes
        rest _ (store key offset bytes r) events st' small
        (store-Accounted l2 flat raised limit key offset bytes r v small
          (omega (arith, at_self key (l2 + length bytes) l2))
          (omega (arith, at_self key (l2 + length bytes) l2))
          (λ j n. omega (arith, at_ne key j (l2 + length bytes) l2 n)))
        (get-insert_self key (grow offset bytes s₀) r.segs) (rw cursor e)
        (omega (arith, at_self key (l2 + length bytes) l2))
        (λ j n. omega (arith, at_ne key j (l2 + length bytes) l2 n)) h
    where
      raised : Caps
      raised = at key (l2 + length bytes) l2

  module _ (limit : ℕ) (key : SegmentKey) (offset : ℕ) (bytes : List ℕ) (r : Reassembler)
      (st' : Step) (small : limit + length bytes < 2 ^ 64) (room : l2 + length bytes < 2 ^ 64)
      (v : Accounted l2 flat limit r) where
    checked :
        (caps : Caps) (next : ℕ) (st₁ st₂ : Step)
        → Accounted l2 caps limit r
        → check_l25 key.0 (ltb next offset) (length bytes) (r, []) ≡ some st₁
        → check_l3 (length bytes) st₁ ≡ some st₂
        → Accounted l2 caps limit st₂.0 × (next_expected_of key st₂.0 ≡ next_expected_of key r)
    checked caps next st₁ st₂ a e₁ e₂ =
        let short : limit < 2 ^ 64 = omega arith in
        let q₁ = check_l25-IsQuiet key.0 (ltb next offset) (length bytes) (r, []) st₁ e₁ in
        let q₂ = check_l3-IsQuiet (length bytes) st₁ st₂ e₂ in
        (
          check_l3-Accounted l2 caps limit short (length bytes) st₁ st₂
              (check_l25-Accounted l2 caps limit short key.0 (ltb next offset) (length bytes)
                (r, []) st₁ a e₁)
              e₂,
          Related-cursor key st₁.0 st₂.0 (q₂.segs key) ∙ Related-cursor key r st₁.0 (q₁.segs key),
        )

    pub place_new-Accounted :
        next_expected_of key r ≤ offset
        → place_new key (next_expected_of key r) offset bytes r ≡ some st'
        → Accounted l2 flat (limit + length bytes) st'.0
    unfolding place_new
    place_new-Accounted from h = elim (Bool-cases over) [
      | inl b ↦
          subst (λ (t : Step). Accounted l2 flat (limit + length bytes) t.0)
            {x = mark_segment_error key (r, [])} {y = st'} (ground arith)
            (widen l2 flat limit (limit + length bytes) _ (omega arith)
              (mark_segment_error-Accounted l2 flat limit key (r, []) v))
      | inr b ↦ elim (Option-cases (check_l25 key.0 ahead (length bytes) (r, []))) [
        | inl n ↦ absurd (ground arith)
        | inr (st₁, e₁) ↦ elim (Option-cases (check_l3 (length bytes) st₁)) [
          | inl n ↦ absurd (ground arith)
          | inr (st₂, e₂) ↦
              let pb = pending_bytes_of-cap l2 flat limit key r v in
              elim (Bool-cases ahead) [
                | inl a ↦
                    let fits : pending_bytes_of key r + length bytes ≤ l2 =
                      ground (arith, v.budget) in
                    ahead-Accounted limit key (pending_bytes_of key r) offset bytes st₂.0 st₂.1 st'
                      small fits (omega arith) pb
                      (checked (at key (pending_bytes_of key r) l2) next st₁ st₂
                        (tighten l2 limit key r v) e₁ e₂).0
                      (ground arith)
                | inr a ↦
                    let c = checked flat next st₁ st₂ v e₁ e₂ in
                    let here : next_expected_of key st₂.0 ≡ offset = ground (arith, c.1) in
                    next-Accounted limit key offset bytes st₂.0 st₂.1 st' small room here c.0
                      (ground arith)
              ]
        ]
      ]
    ]
      where
        next : ℕ
        next = next_expected_of key r

        ahead : Bool
        ahead = ltb next offset

        over : Bool
        over = ahead && ltb r.budgets.l2_segment_cap (add64 (pending_bytes_of key r) (length bytes))

  count_dup-Accounted :
      (limit : ℕ) (key : SegmentKey) (r : Reassembler)
      → Accounted l2 flat limit r
      → Accounted l2 flat limit (count_dup key r)
  unfolding count_dup
  count_dup-Accounted limit key r v =
      mark-Accounted l2 flat limit key
        (λ (s : SegmentBuf). record s { dup_count = add64 s.dup_count 1 }) r _ v (λ s. refl)
        (λ s. refl) refl refl refl

  pub place_chunk-Accounted :
      (limit dev seq offset : ℕ) (bytes : List ℕ) (r : Reassembler) (st' : Step)
      → limit + length bytes < 2 ^ 64
      → l2 + length bytes < 2 ^ 64
      → Accounted l2 flat limit r
      → place_chunk dev seq offset bytes r ≡ some st'
      → Accounted l2 flat (limit + length bytes) st'.0
  unfolding place_chunk
  place_chunk-Accounted limit dev seq offset bytes r st' small room v h =
      elim (Bool-cases (contains dev r.held)) [
        | inl q ↦ stays (r, quarantined_drop dev (length bytes) ∷ []) v (ground arith)
        | inr q ↦ elim (Bool-cases (leb (add64 offset (length bytes)) next)) [
          | inl d ↦ stays duplicate again (ground arith)
          | inr d ↦ elim (Bool-cases (ltb offset next)) [
            | inl o ↦ elim (Bool-cases (leb (length bytes) (next - offset))) [
              | inl c ↦ stays duplicate again (ground arith)
              | inr c ↦
                  let cut = drop (next - offset) bytes in
                  let shorter : length cut ≤ length bytes =
                    omega (arith, length-drop (next - offset) bytes) in
                  widen l2 flat (limit + length cut) (limit + length bytes) st'.0
                    (omega (arith, shorter))
                    (place_new-Accounted limit key (max offset next) cut r st'
                      (omega (arith, shorter)) (omega (arith, shorter)) v (ground arith)
                      (ground arith))
            ]
            | inr o ↦
                place_new-Accounted limit key (max offset next) bytes r st' small room v
                  (ground arith) (ground arith)
          ]
        ]
      ]
    where
      key : SegmentKey
      key = (dev, seq)

      next : ℕ
      next = next_expected_of key r

      duplicate : Step
      duplicate = (count_dup key r, dup dev seq ∷ [])

      again : Accounted l2 flat limit duplicate.0
      again = count_dup-Accounted limit key r v

      stays :
          (st : Step)
          → Accounted l2 flat limit st.0
          → st ≡ st'
          → Accounted l2 flat (limit + length bytes) st'.0
      stays st a e =
          widen l2 flat limit (limit + length bytes) st'.0 (omega arith)
            (subst (λ (t : Step). Accounted l2 flat limit t.0) e a)
