-- ===== src/Reassembly/Total/Seal.antt =====
-- src/reassembly.rs: `seal`, which has nothing to unwrap, on sound states.
use sov_vault.Base.{ℕ, ◌-◌, refl, inl, inr, some, arith, ◌==◌, ltb, Option-cases, Bool-cases}
use sov_vault.Map
use sov_vault.Map.{nat_eq, pair_eq, Distinct}
use sov_vault.Map.Laws.{get-remove, Distinct-remove}
use sov_vault.Reassembly.State.{SegmentKey, SegmentBuf, Reassembler}
use sov_vault.Reassembly.Steps.{Step, release_segment}
use sov_vault.Reassembly.Engine.{note_seq, last_seq_of, missing_before, settle, seal}
use sov_vault.Reassembly.Sound.{IsSound, modify-Keeps, modify-IsSound}

release_segment-IsSound :
    (key : SegmentKey) (r : Reassembler) → IsSound r → IsSound (release_segment key r)
unfolding release_segment
release_segment-IsSound key r v = elim (Option-cases (Map.get key r.segs)) [
  | inl e ↦ rw (release_segment, e) v
  | inr (s, e) ↦
      rw (release_segment, e)
        (record {
          distinct = Distinct-remove key r.segs v.distinct;
          backed = λ j t h. elim (v.backed j t (ground (arith, get-remove j key r.segs))) [
            | inl empty ↦ inl empty
            | inr entry ↦
                inr (modify-Keeps key.0 (λ (c : ℕ). c - s.pending_bytes) r.conn_pending j.0 entry)
          ];
        })
]

settle-IsSound :
    (key : SegmentKey) (size : ℕ) (st : Step) → IsSound st.0 → IsSound (settle key size st).0
unfolding settle
settle-IsSound key size (r, events) v = elim (Option-cases (Map.get key r.segs)) [
  | inl e ↦ rw (settle, e) v
  | inr (s, e) ↦ elim (Bool-cases (s.next_expected == size)) [
    | inl b ↦ rw (settle, e, b) (release_segment-IsSound key r v)
    | inr b ↦
        rw (settle, e, b)
          (modify-IsSound r _ key (λ (t : SegmentBuf). record t { sealed_size = some size }) v refl
            (λ dev h. h) (λ t h. h))
  ]
]

note_seq-IsSound : (dev seq : ℕ) (r : Reassembler) → IsSound r → IsSound (note_seq dev seq r)
unfolding note_seq
note_seq-IsSound dev seq r v = elim (Bool-cases (ltb (last_seq_of dev r) seq)) [
  | inl b ↦ rw (note_seq, b) (record { distinct = v.distinct; backed = v.backed })
  | inr b ↦ rw (note_seq, b) v
]

pub seal-IsSound :
    (dev seq size : ℕ) (r : Reassembler) → IsSound r → IsSound (seal dev seq size r).0
unfolding seal
seal-IsSound dev seq size r v =
    settle-IsSound (dev, seq) size (note_seq dev seq r, missing_before dev seq r)
      (note_seq-IsSound dev seq r v)
