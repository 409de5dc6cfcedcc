-- ===== src/Reassembly/Total/Place.antt =====
-- src/reassembly.rs: place_chunk on sound states.
use sov_vault.Base.{
  ℕ, ◌-◌, refl, max, Bool, ◌&&◌, inl, inr, List, [], ◌∷◌, ◌++◌, arith, length, ltb, leb, Bool-cases,
}
use sov_vault.Map
use sov_vault.Map.{nat_eq, pair_eq}
use sov_vault.Map.Laws.{get-insert_self}
use sov_vault.Reassembly.State.{
  SegmentKey, dup, quarantined_drop, SegmentBuf, Reassembler, Budgets, empty, add64, contains,
}
use sov_vault.Reassembly.Steps.{Step, mark_segment_error, pending_bytes_of, next_expected_of}
use sov_vault.Reassembly.Engine.{
  drop, or_new, grow, store, conn_used, check_l25, check_l3, place_new, place_chunk, count_dup,
}
use sov_vault.Reassembly.Run.{Chunk, place_chunks}
use sov_vault.Reassembly.Sound.{
  IsSound, insert-Keeps, insert-IsSound, modify-IsSound, mark_segment_error-IsSound,
}
use sov_vault.Reassembly.Total.{
  Returns, evict_oldest_in_dev-total, evict_oldest_global-total, drain_contiguous-total,
}

store-IsSound :
    (key : SegmentKey) (offset : ℕ) (bytes : List ℕ) (r : Reassembler)
    → IsSound r
    → IsSound (store key offset bytes r)
unfolding store
store-IsSound key offset bytes r v =
    insert-IsSound r (store key offset bytes r) key
      (grow offset bytes (or_new key (Map.get key r.segs))) v refl
      (insert-Keeps key.0 _ r.conn_pending)
      (inr (add64 (conn_used key.0 r) (length bytes), get-insert_self key.0 _ r.conn_pending))

check_l25-total :
    (dev : ℕ) (ahead : Bool) (len : ℕ) (st : Step)
    → IsSound st.0
    → Returns (check_l25 dev ahead len st)
unfolding check_l25
check_l25-total dev ahead len (r, events) v =
    elim (Bool-cases (ahead && ltb r.budgets.l25_conn_cap (add64 (conn_used dev r) len))) [
      | inl b ↦ rw (check_l25, b) (evict_oldest_in_dev-total dev (r, events) v)
      | inr b ↦ ((r, events), rw (check_l25, b), v)
    ]

check_l3-total : (len : ℕ) (st : Step) → IsSound st.0 → Returns (check_l3 len st)
unfolding check_l3
check_l3-total len (r, events) v =
    elim (Bool-cases (ltb r.budgets.l3_global_cap (add64 r.global_pending len))) [
      | inl b ↦ rw (check_l3, b) (evict_oldest_global-total (r, events) v)
      | inr b ↦ ((r, events), rw (check_l3, b), v)
    ]

place_new-total :
    (key : SegmentKey) (next offset : ℕ) (bytes : List ℕ) (r : Reassembler)
    → IsSound r
    → Returns (place_new key next offset bytes r)
unfolding place_new
place_new-total key next offset bytes r v = elim (Bool-cases over) [
  | inl b ↦
      (mark_segment_error key (r, []), rw (place_new, b), mark_segment_error-IsSound key (r, []) v)
  | inr b ↦
      let (st₁, e₁, v₁) = check_l25-total key.0 (ltb next offset) (length bytes) (r, []) v in
      let (st₂, e₂, v₂) = check_l3-total (length bytes) st₁ v₁ in
      let st₃ : Step = (store key offset bytes st₂.0, st₂.1) in
      let (st₄, e₄, v₄) =
        drain_contiguous-total key st₃ (store-IsSound key offset bytes st₂.0 v₂) in
      (st₄, rw (place_new, b, e₁, e₂) e₄, v₄)
]
  where
    over : Bool
    over =
        ltb next offset
        && ltb r.budgets.l2_segment_cap (add64 (pending_bytes_of key r) (length bytes))

count_dup-IsSound : (key : SegmentKey) (r : Reassembler) → IsSound r → IsSound (count_dup key r)
unfolding count_dup
count_dup-IsSound key r v =
    modify-IsSound r (count_dup key r) key
      (λ (s : SegmentBuf). record s { dup_count = add64 s.dup_count 1 }) v refl (λ dev e. e)
      (λ s e. e)

-- From a sound state, where no segment's key stands twice and a segment with waiting chunks has
-- its connection's byte count, place_chunk returns on every chunk: no unwrap meets a missing entry
-- and the drain ends; the new state is sound.
pub place_chunk-total :
    (dev seq offset : ℕ) (bytes : List ℕ) (r : Reassembler)
    → IsSound r
    → Returns (place_chunk dev seq offset bytes r)
unfolding place_chunk
place_chunk-total dev seq offset bytes r v = elim (Bool-cases (contains dev r.held)) [
  | inl q ↦ ((r, quarantined_drop dev (length bytes) ∷ []), rw (place_chunk, q), v)
  | inr q ↦ elim (Bool-cases (leb (add64 offset (length bytes)) next)) [
    | inl d ↦ (duplicate, rw (place_chunk, q, d), sound)
    | inr d ↦ elim (Bool-cases (ltb offset next)) [
      | inl o ↦ elim (Bool-cases (leb (length bytes) (next - offset))) [
        | inl c ↦ (duplicate, rw (place_chunk, q, d, o, c), sound)
        | inr c ↦
            rw (place_chunk, q, d, o, c)
              (place_new-total key next (max offset next) (drop (next - offset) bytes) r v)
      ]
      | inr o ↦ rw (place_chunk, q, d, o) (place_new-total key next (max offset next) bytes r v)
    ]
  ]
]
  where
    key : SegmentKey
    key = (dev, seq)

    next : ℕ
    next = next_expected_of key r

    duplicate : Step
    duplicate = (count_dup key r, dup dev seq ∷ [])

    sound : IsSound (count_dup key r)
    sound = count_dup-IsSound key r v

pub empty-IsSound : (b : Budgets) → IsSound (empty b)
unfolding empty Map.get
empty-IsSound b = record { distinct = tt; backed = λ key s e. absurd (ground arith) }

-- Any run of chunks returns.
pub place_chunks-total :
    (cs : List Chunk) (r : Reassembler) → IsSound r → Returns (place_chunks cs r)
unfolding place_chunks
place_chunks-total [] r v = ((r, []), refl, v)
place_chunks-total (c ∷ cs) r v =
    let ((r₁, xs), e₁, v₁) = place_chunk-total c.dev_id c.segment_seq c.offset c.bytes r v in
    let ((r₂, ys), e₂, v₂) = place_chunks-total cs r₁ v₁ in
    ((r₂, xs ++ ys), rw (place_chunks, e₁, e₂), v₂)
