-- ===== src/Reassembly/Order.antt =====
-- The contents of segments over `place_chunk`.
use sov_vault.Base.{
  ℕ, suc, ◌+◌, ◌-◌, ◌^◌, ◌<◌, ◌≡◌, refl, sym, subst, ◌∙◌, max, Bool, ◌&&◌, inl, inr, List, [], ◌∷◌,
  Option, none, some, arith, length, ltb, leb, Option-cases, Bool-cases,
}
use sov_vault.Map
use sov_vault.Map.{nat_eq, pair_eq}
use sov_vault.Reassembly.Pending.{All-insert}
use sov_vault.Reassembly.State.{
  SegmentKey, Event, dup, quarantined_drop, SegmentBuf, Reassembler, new_segment, add64, contains,
}
use sov_vault.Reassembly.Steps.{Step, next_expected_of, waiting, drain_contiguous, pending_bytes_of}
use sov_vault.Reassembly.Engine.{
  drop, or_new, grow, store, place_new, place_chunk, check_l25, check_l3, count_dup,
}
use sov_vault.Reassembly.Slices.{IsSlice, IsSlice-drop}
use sov_vault.Reassembly.Progress.{written, IsGood, Holds, Advances, Advances-trans, Advances-quiet}
use sov_vault.Reassembly.Quiet.{IsQuiet, modify-Shrinks, mark_segment_error-IsQuiet}
use sov_vault.Reassembly.Evict.{check_l25-IsQuiet, check_l3-IsQuiet}
use sov_vault.Reassembly.Content.{
  IsQuiet-Advances, Holds-insert, cursor-insert_self, cursor-insert_ne, drain-Advances, cursor_in,
}

or_new-cursor :
    (key : SegmentKey) (o : Option SegmentBuf) → (or_new key o).next_expected ≡ cursor_in o
unfolding new_segment
or_new-cursor key none = refl
or_new-cursor key (some s) = refl

written-drop : (k : SegmentKey) (dev n : ℕ) → written k (quarantined_drop dev n ∷ []) ≡ []
unfolding written
written-drop k dev n = refl

count_dup-IsQuiet :
    (dev seq : ℕ) (r : Reassembler) → IsQuiet (r, []) (count_dup (dev, seq) r, dup dev seq ∷ [])
unfolding count_dup written
count_dup-IsQuiet dev seq r = record {
  segs =
      modify-Shrinks (dev, seq) (λ s. record s { dup_count = add64 s.dup_count 1 }) r.segs
        (λ s. record { cursor = refl; fewer = λ c h. h; empty = λ e. e });
  events = λ k. refl;
}

module _ (content : SegmentKey → List ℕ) where
  or_new-IsGood :
      (key : SegmentKey) (r : Reassembler) (o : Option SegmentBuf)
      → Holds content r
      → Map.get key r.segs ≡ o
      → IsGood content key (or_new key o)
  unfolding new_segment
  or_new-IsGood key r none h e = record { slices = tt; inside = omega arith }
  or_new-IsGood key r (some s) h e = h key s e

  grow-IsGood :
      (key : SegmentKey) (offset : ℕ) (bytes : List ℕ) (s : SegmentBuf)
      → IsSlice (content key) offset bytes
      → IsGood content key s
      → IsGood content key (grow offset bytes s)
  grow-IsGood key offset bytes s slice g = record {
    slices = All-insert (IsSlice (content key)) offset bytes s.pending slice g.slices;
    inside = g.inside;
  }

  -- A chunk of the content is taken into the store.
  store-Advances :
      (key : SegmentKey) (offset : ℕ) (bytes : List ℕ) (r : Reassembler) (events : List Event)
      → Holds content r
      → IsSlice (content key) offset bytes
      → Advances content (r, events) (store key offset bytes r, events)
  unfolding store next_expected_of
  store-Advances key offset bytes r events h slice =
      Advances-quiet content (r, events) (r', events)
        (Holds-insert content key s' r r' h refl
          (grow-IsGood key offset bytes _ slice (or_new-IsGood key r (Map.get key r.segs) h refl)))
        (λ k. elim (Bool-cases (pair_eq.beq k key)) [
          | inl b ↦
              let same_key = (pair_eq.beq_iff k key).0 b in
              subst (λ (j : SegmentKey). next_expected_of j r' ≡ next_expected_of j r)
                (sym same_key)
                (cursor-insert_self content key s' r r' refl
                  ∙ or_new-cursor key (Map.get key r.segs))
          | inr b ↦ cursor-insert_ne content k key s' r r' refl b
        ])
        (λ k. refl)
    where
      r' : Reassembler
      r' = store key offset bytes r

      s' : SegmentBuf
      s' = grow offset bytes (or_new key (Map.get key r.segs))

  module _ (fits : (key : SegmentKey) → length (content key) < 2 ^ 64) where
    drain_contiguous-Advances :
        (key : SegmentKey) (r : Reassembler) (events : List Event) (st' : Step)
        → Holds content r
        → drain_contiguous key (r, events) ≡ some st'
        → Advances content (r, events) st'
    unfolding drain_contiguous
    drain_contiguous-Advances key r events st' h e =
        drain-Advances content fits (suc (waiting key r)) key r events st' h e

    place_new-Advances :
        (key : SegmentKey) (next offset : ℕ) (bytes : List ℕ) (r : Reassembler) (st' : Step)
        → Holds content r
        → IsSlice (content key) offset bytes
        → place_new key next offset bytes r ≡ some st'
        → Advances content (r, []) st'
    unfolding place_new
    place_new-Advances key next offset bytes r st' h slice e = elim (Bool-cases over) [
      | inl b ↦
          subst (Advances content (r, [])) (ground arith)
            (IsQuiet-Advances content (r, []) _ h (mark_segment_error-IsQuiet key (r, [])))
      | inr b ↦ elim (Option-cases (check_l25 key.0 ahead (length bytes) (r, []))) [
        | inl n ↦ absurd (ground arith)
        | inr (st₁, e₁) ↦ elim (Option-cases (check_l3 (length bytes) st₁)) [
          | inl n ↦ absurd (ground arith)
          | inr ((r₂, events), e₂) ↦
              let a =
                IsQuiet-Advances content (r, []) st₁ h
                  (check_l25-IsQuiet key.0 ahead (length bytes) (r, []) st₁ e₁) in
              let c =
                IsQuiet-Advances content st₁ (r₂, events) a.holds
                  (check_l3-IsQuiet (length bytes) st₁ (r₂, events) e₂) in
              let d = store-Advances key offset bytes r₂ events c.holds slice in
              Advances-trans content a (
                Advances-trans content c (
                  Advances-trans content d
                    (drain_contiguous-Advances key _ events st' d.holds (ground arith))))
        ]
      ]
    ]
      where
        ahead : Bool
        ahead = ltb next offset

        over : Bool
        over = ahead && ltb r.budgets.l2_segment_cap (add64 (pending_bytes_of key r) (length bytes))

    -- What `place_chunk` does to each segment when the chunk is a slice of its segment's content.
    pub place_chunk-Advances :
        (dev seq offset : ℕ) (bytes : List ℕ) (r : Reassembler) (st' : Step)
        → Holds content r
        → IsSlice (content (dev, seq)) offset bytes
        → place_chunk dev seq offset bytes r ≡ some st'
        → Advances content (r, []) st'
    unfolding place_chunk written
    place_chunk-Advances dev seq offset bytes r st' h slice e =
        elim (Bool-cases (contains dev r.held)) [
          | inl q ↦ subst (Advances content (r, [])) (ground arith) (
              Advances-quiet content (r, []) (r, quarantined_drop dev (length bytes) ∷ []) h
                (λ k. refl) (λ k. written-drop k dev (length bytes)))
          | inr q ↦ elim (Bool-cases (leb (add64 offset (length bytes)) next)) [
            | inl d ↦ duplicate (ground arith)
            | inr d ↦ elim (Bool-cases (ltb offset next)) [
              | inl o ↦ elim (Bool-cases (leb (length bytes) (next - offset))) [
                | inl c ↦ duplicate (ground arith)
                | inr c ↦
                    let e₁ : offset + (next - offset) ≡ max offset next = ground arith in
                    place_new-Advances key next (max offset next) (drop (next - offset) bytes) r st'
                      h
                      (subst (λ o'. IsSlice (content key) o' (drop (next - offset) bytes)) e₁
                        (IsSlice-drop (content key) offset (next - offset) bytes (ground arith)
                          slice))
                      (ground arith)
              ]
              | inr o ↦
                  let e₁ : offset ≡ max offset next = ground arith in
                  place_new-Advances key next (max offset next) bytes r st' h
                    (subst (λ o'. IsSlice (content key) o' bytes) e₁ slice) (ground arith)
            ]
          ]
        ]
      where
        key : SegmentKey
        key = (dev, seq)

        next : ℕ
        next = next_expected_of key r

        duplicate : (count_dup key r, dup dev seq ∷ []) ≡ st' → Advances content (r, []) st'
        duplicate same =
            subst (Advances content (r, [])) same
              (IsQuiet-Advances content (r, []) _ h (count_dup-IsQuiet dev seq r))
