-- ===== src/Reassembly/Account/Runs.antt =====
-- The byte counts over runs of chunks, and over seals.
use sov_vault.Base.{
  ℕ, ◌+◌, ◌^◌, ◌≤◌, ◌<◌, ◌≡◌, refl, subst, inl, inr, List, [], ◌∷◌, ◌++◌, some, arith, length, ◌==◌,
  Option-cases, Bool-cases,
}
use sov_vault.Map
use sov_vault.Map.{nat_eq, pair_eq, Distinct}
use sov_vault.Map.Laws.{get-remove, Distinct-remove}
use sov_vault.Map.Total.{total, total-remove}
use sov_vault.Reassembly.State.{SegmentKey, SegmentBuf, Reassembler, Budgets, empty}
use sov_vault.Reassembly.Steps.{Step, release_segment}
use sov_vault.Reassembly.Engine.{place_chunk, settle, seal, note_seq, missing_before}
use sov_vault.Reassembly.Run.{Chunk, place_chunks}
use sov_vault.Reassembly.Total.Place.{place_chunks-total, empty-IsSound}
use sov_vault.Reassembly.Account.{Fits, Accounted, counted, size_at-counted, same-Accounted}
use sov_vault.Reassembly.Account.Room.{mark-Accounted, pending_bytes_of-some}
use sov_vault.Reassembly.Account.Stored.{widen}
use sov_vault.Reassembly.Account.Place.{flat, place_chunk-Accounted}

-- The bytes of the chunks.
unfoldable pub volume : List Chunk → ℕ
volume [] = 0
volume (c ∷ cs) = length c.bytes + volume cs

module _ (l2 : ℕ) where
  place_chunks-Accounted :
      (limit : ℕ) (cs : List Chunk) (r : Reassembler) (st' : Step)
      → limit + volume cs < 2 ^ 64
      → l2 + volume cs < 2 ^ 64
      → Accounted l2 (flat l2) limit r
      → place_chunks cs r ≡ some st'
      → Accounted l2 (flat l2) (limit + volume cs) st'.0
  unfolding place_chunks volume
  place_chunks-Accounted limit [] r st' small room v h =
      widen l2 (flat l2) limit (limit + 0) st'.0 (omega arith) (
        subst (λ (t : Step). Accounted l2 (flat l2) limit t.0) {x = (r, [])} {y = st'}
          (ground arith) v)
  place_chunks-Accounted limit (c ∷ cs) r st' small room v h =
      elim (Option-cases (place_chunk c.dev_id c.segment_seq c.offset c.bytes r)) [
        | inl n ↦ absurd (ground arith)
        | inr ((r₁, xs), e₁) ↦ elim (Option-cases (place_chunks cs r₁)) [
          | inl n ↦ absurd (ground arith)
          | inr ((r₂, ys), e₂) ↦
              let a =
                place_chunk-Accounted l2 limit c.dev_id c.segment_seq c.offset c.bytes r (r₁, xs)
                  (omega arith) (omega arith) v e₁ in
              let b =
                place_chunks-Accounted (limit + length c.bytes) cs r₁ (r₂, ys) (omega arith)
                  (omega arith) a e₂ in
              widen l2 (flat l2) (limit + length c.bytes + volume cs) _ st'.0 (omega arith) (
                subst
                  (λ (t : Step). Accounted l2 (flat l2) (limit + length c.bytes + volume cs) t.0)
                  {x = (r₂, xs ++ ys)} {y = st'} (ground arith) b)
        ]
      ]

empty-Accounted : (b : Budgets) → Accounted b.l2_segment_cap (flat b.l2_segment_cap) 0 (empty b)
unfolding empty total Map.get
empty-Accounted b = record {
  distinct = tt;
  fits = λ key s e. absurd (ground arith);
  global = refl;
  bounded = omega arith;
  budget = refl;
}

-- Let the cap of a segment and the bytes of all chunks together stay below 2^64. Chunks in any
-- order, placed from the empty reassembler on, all return, and then each segment's byte count
-- covers what waits in it and is at most the cap, the global count is the sum of the segments'
-- counts, and it is at most the bytes that came.
pub place_chunks-accounts :
    (b : Budgets) (cs : List Chunk)
    → b.l2_segment_cap + volume cs < 2 ^ 64
    → (st' : Step) × (place_chunks cs (empty b) ≡ some st')
      × ((key : SegmentKey) (s : SegmentBuf)
          → Map.get key st'.0.segs ≡ some s
          → Fits b.l2_segment_cap s)
      × (st'.0.global_pending ≡ total counted st'.0.segs)
      × (st'.0.global_pending ≤ volume cs)
place_chunks-accounts b cs room =
    let (st', e, _) = place_chunks-total cs (empty b) (empty-IsSound b) in
    let a =
      place_chunks-Accounted b.l2_segment_cap 0 cs (empty b) st' (omega arith) room
        (empty-Accounted b) e in
    (st', e, a.fits, a.global, omega (arith, a.bounded))

-- A segment that is taken out with its count.
release-Accounted :
    (l2 limit : ℕ) (key : SegmentKey) (r : Reassembler)
    → Accounted l2 (flat l2) limit r
    → Accounted l2 (flat l2) limit (release_segment key r)
unfolding release_segment
release-Accounted l2 limit key r v = elim (Option-cases (Map.get key r.segs)) [
  | inl e ↦ rw (release_segment, e) v
  | inr (s, e) ↦
      let gone = total-remove counted key r.segs v.distinct in
      let at_key = pending_bytes_of-some key s r e in
      rw (release_segment, e)
        (record {
          distinct = Distinct-remove key r.segs v.distinct;
          fits = λ j t h. v.fits j t (ground (arith, get-remove j key r.segs));
          global = omega (arith, gone, at_key, size_at-counted key r, v.global);
          bounded = omega (arith, v.bounded);
          budget = v.budget;
        })
]

settle-Accounted :
    (l2 limit : ℕ) (key : SegmentKey) (size : ℕ) (st : Step)
    → Accounted l2 (flat l2) limit st.0
    → Accounted l2 (flat l2) limit (settle key size st).0
unfolding settle
settle-Accounted l2 limit key size (r, events) v = elim (Option-cases (Map.get key r.segs)) [
  | inl e ↦ rw (settle, e) v
  | inr (s, e) ↦ elim (Bool-cases (s.next_expected == size)) [
    | inl b ↦ rw (settle, e, b) (release-Accounted l2 limit key r v)
    | inr b ↦
        rw (settle, e, b)
          (mark-Accounted l2 (flat l2) limit key
            (λ (s : SegmentBuf). record s { sealed_size = some size }) r _ v (λ s. refl) (λ s. refl)
            refl refl refl)
  ]
]

note_seq-Accounted :
    (l2 limit dev seq : ℕ) (r : Reassembler)
    → Accounted l2 (flat l2) limit r
    → Accounted l2 (flat l2) limit (note_seq dev seq r)
unfolding note_seq
note_seq-Accounted l2 limit dev seq r v =
    same-Accounted l2 (flat l2) limit r _ v (ground arith) (ground arith) (ground arith)

-- Let the keys of the segments be distinct, each segment's count cover what waits in it and be at
-- most l2, the global count be their sum and at most a limit, and l2 be the budget of a segment:
-- after a seal all this holds again.
pub seal-Accounted :
    (l2 limit dev seq size : ℕ) (r : Reassembler)
    → Accounted l2 (flat l2) limit r
    → Accounted l2 (flat l2) limit (seal dev seq size r).0
unfolding seal
seal-Accounted l2 limit dev seq size r v =
    settle-Accounted l2 limit (dev, seq) size (note_seq dev seq r, missing_before dev seq r)
      (note_seq-Accounted l2 limit dev seq r v)
