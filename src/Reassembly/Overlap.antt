-- ===== src/Reassembly/Overlap.antt =====
-- A waiting chunk that data in order runs into.
use sov_vault.Base.{
  ℕ, ◌+◌, ◌-◌, ◌^◌, ◌≤◌, ◌<◌, ◌≡◌, refl, false, List, [], ◌∷◌, some, arith, length, ltb, leb,
  append-nil,
}
use sov_vault.Map
use sov_vault.Map.{nat_eq, pair_eq}
use sov_vault.Reassembly.Pending
use sov_vault.Reassembly.State.{
  SegmentKey, SegmentBuf, append, Reassembler, Budgets, empty, new_segment, add64, sub64, contains,
}
use sov_vault.Reassembly.Steps.{
  Step, drain, waiting, advance, pay_back, drain_contiguous, next_expected_of,
}
use sov_vault.Reassembly.Engine.{
  grow, store, conn_used, check_l25, check_l3, place_new, place_chunk,
}
use sov_vault.Reassembly.Budget.{place_chunk-waits}
use sov_vault.Reassembly.Run.{place_chunks}
use sov_vault.Reassembly.Progress.{written}

module _ (b : Budgets) (dev seq offset : ℕ) (late early : List ℕ) (far : 0 < offset)
    (into : offset < length early) (beyond : length early < offset + length late)
    (short : offset + length late + length early < 2 ^ 64) (fits : length late ≤ b.l2_segment_cap)
    (global : length late + length early ≤ b.l3_global_cap) where
  abbrev key : SegmentKey
  key = (dev, seq)

  abbrev held : Reassembler
  held = store key offset late (empty b)

  abbrev both : SegmentBuf
  both = grow 0 early (grow offset late (new_segment key))

  abbrev done : SegmentBuf
  done = advance both (length early) ((offset, late) ∷ [])

  abbrev final : Reassembler
  final = record (empty b) {
    segs = (key, done) ∷ [];
    conn_pending = (dev, add64 (add64 0 (length late)) (length early) - length early) ∷ [];
    global_pending = sub64 (add64 (add64 0 (length late)) (length early)) (length early);
  }

  drained :
      drain_contiguous key (store key 0 early held, []) ≡ some (final, append dev seq 0 early ∷ [])
  unfolding drain_contiguous drain pay_back waiting conn_used store Map.get Map.insert empty
      new_segment Pending.insert Pending.remove
  drained = ground (arith, pair_eq.beq_iff key key)

  second : place_chunk dev seq 0 early held ≡ some (final, append dev seq 0 early ∷ [])
  unfolding place_chunk place_new check_l25 check_l3 contains empty next_expected_of store
      new_segment Map.get Map.insert
  second =
      let new : leb (add64 0 (length early)) 0 ≡ false = ground arith in
      let within : ltb b.l3_global_cap (add64 (add64 0 (length late)) (length early)) ≡ false =
        ground arith in
      ground (arith, drained, new, within, pair_eq.beq_iff key key)

  -- A chunk that waits beyond the start, and then one from the start that ends inside it, with
  -- room for both in the budgets: only the second is handed on, the cursor stands at its end, and
  -- the first still waits at its offset, although it holds the bytes that come next.
  pub place_chunks-strands :
      (st' : Step) × (place_chunks
          (record { dev_id = dev; segment_seq = seq; offset = offset; bytes = late }
            ∷ record { dev_id = dev; segment_seq = seq; offset = 0; bytes = early }
            ∷ [])
          (empty b)
        ≡ some st')
      × (written (dev, seq) st'.1 ≡ early)
      × (next_expected_of (dev, seq) st'.0 ≡ length early)
      × (s : SegmentBuf) × (Map.get (dev, seq) st'.0.segs ≡ some s)
      × (s.pending ≡ (offset, late) ∷ [])
  unfolding place_chunks written next_expected_of new_segment Map.get
  place_chunks-strands = (
    (final, append dev seq 0 early ∷ []),
    rw (place_chunks, place_chunk-waits b dev seq offset late far (omega arith) fits, second) refl,
    ground (arith, append-nil early),
    ground (arith, pair_eq.beq_iff key key),
    done,
    ground (arith, pair_eq.beq_iff key key),
    refl,
  )
