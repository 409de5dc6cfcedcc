-- ===== src/Batch/Push.antt =====
-- src/batch.rs: a pushed record, over the barrier between files and without it.
use sov_vault.Base.{
  ℕ, ◌+◌, ◌%◌, ◌^◌, ◌≤◌, ◌<◌, ◌≡◌, refl, sym, ap, ◌∙◌, subst, Bool, true, ◌&&◌, List, [], ◌∷◌, ◌++◌,
  Option, some, arith, length, length-append, append-nil, ltb, leb, ◌==◌, if◌then◌else◌, Bool-cases,
  inl, inr,
}
use sov_vault.Map
use sov_vault.Map.{nat_eq}
use sov_vault.Map.Laws.{get-insert_self}
use sov_vault.Matcher.Types.{WalRecord, IndexedRecord}
use sov_vault.Batch.{
  payload_len, rec_len, HotFileWriter, ensure_open, rotate, append, BatchPipeline, rotate_hot,
  barrier, place, push_record,
}
use sov_vault.Ledger.{FileState, FileRow, Ledger, insert_file, set_file_state}
use sov_vault.Batch.Barrier.{
  Chain, Chain-append, Chain-nil, AllPlaced, AllPlaced-grow, AllPlaced-append, IsContiguous,
  flush-advances,
}

module _ {D : Type 0} (encode : WalRecord → List ℕ) (lmdb : List IndexedRecord → D → Option D) where
  abbrev Pipeline : Type 0
  Pipeline = BatchPipeline encode lmdb

  -- A pipeline with nothing pending goes on in a new file.
  pub opened-IsContiguous :
      (p : Pipeline) (hot : HotFileWriter) (l : Ledger)
      → l.next_id < 2 ^ 32
      → p.pending ≡ []
      → IsContiguous encode lmdb
          (record p { hot = (ensure_open (hot, l)).0; ledger = (ensure_open (hot, l)).1 })
  unfolding ensure_open insert_file
  opened-IsContiguous p hot l fits e =
      let same : l.next_id % 2 ^ 32 ≡ l.next_id = omega arith in
      let row : FileRow = record {
        dev_id = hot.dev_id;
        segment_seq = some hot.segment_seq;
        state = FileState.opened;
        analysis_offset = 0;
      } in
      record {
        row = row;
        row_at =
            ap (λ k. Map.get k (Map.insert l.next_id row l.files)) same
            ∙ get-insert_self l.next_id row l.files;
        chain = subst (λ t. Chain (l.next_id % 2 ^ 32) 0 t 0) (sym e) refl;
        size = refl;
        placed = subst (AllPlaced encode lmdb []) (sym e) tt;
      }

  rotate_hot-IsContiguous :
      (p : Pipeline)
      → p.ledger.next_id < 2 ^ 32
      → p.pending ≡ []
      → IsContiguous encode lmdb (rotate_hot encode lmdb p)
  unfolding rotate_hot rotate set_file_state
  rotate_hot-IsContiguous p fits e =
      opened-IsContiguous p
        (record p.hot {
          closed = (p.hot.file_id, p.hot.bytes) ∷ p.hot.closed;
          segment_seq = (p.hot.segment_seq + 1) % 2 ^ 32;
        })
        (if p.hot.file_id == 0
          then p.ledger
          else set_file_state p.hot.file_id FileState.sealed p.ledger)
        (ground arith) e

  rotate_hot_lem :
      (p : Pipeline)
      → ((rotate_hot encode lmdb p).hot.offset ≡ 0)
        × ((rotate_hot encode lmdb p).hot.segment_size ≡ p.hot.segment_size)
        × ((rotate_hot encode lmdb p).ledger.next_id ≡ p.ledger.next_id + 1)
  unfolding rotate_hot rotate ensure_open insert_file set_file_state
  rotate_hot_lem p = (refl, refl, ground arith)

  -- The record at the end of the open file.
  abbrev pub next_record : WalRecord → Pipeline → IndexedRecord
  next_record rec p = record {
    dev_id = p.hot.dev_id % 2 ^ 32;
    file_id = p.hot.file_id;
    offset = p.hot.offset % 2 ^ 32;
    rec = rec;
  }

  abbrev pub added : WalRecord → Pipeline → Pipeline
  added rec p = record p {
    hot = record p.hot {
      bytes = p.hot.bytes ++ encode rec;
      offset = p.hot.offset + payload_len rec;
    };
    pending = p.pending ++ next_record rec p ∷ [];
  }

  pub place_lem :
      (rec : WalRecord) (p : Pipeline)
      → place encode lmdb rec p
        ≡ added rec (
            if ltb p.hot.segment_size (p.hot.offset + payload_len rec)
            then rotate_hot encode lmdb p
            else p)
  unfolding place append rotate_hot
  place_lem rec p = elim (Bool-cases (ltb p.hot.segment_size (p.hot.offset + payload_len rec))) [
    | inl b ↦ rw (place, append, b) refl
    | inr b ↦ rw (place, append, b) refl
  ]

  module _ (encode_length : (rec : WalRecord) → length (encode rec) ≡ payload_len rec) where
    added-IsContiguous :
        (rec : WalRecord) (p : Pipeline)
        → p.hot.offset < 2 ^ 32
        → IsContiguous encode lmdb p
        → IsContiguous encode lmdb (added rec p)
    unfolding rec_len
    added-IsContiguous rec p short v =
        let exact : p.hot.offset % 2 ^ 32 ≡ p.hot.offset = omega arith in
        let r = next_record rec p in
        record {
          row = v.row;
          row_at = v.row_at;
          chain =
              Chain-append p.hot.file_id v.row.analysis_offset p.pending p.hot.offset r v.chain refl
                exact;
          size = omega (arith, length-append p.hot.bytes (encode rec), encode_length rec, v.size);
          placed =
              AllPlaced-append encode lmdb (p.hot.bytes ++ encode rec) p.pending r
                (AllPlaced-grow encode lmdb p.hot.bytes (encode rec) p.pending v.placed)
                (p.hot.bytes, [], sym (append-nil (p.hot.bytes ++ encode rec)), v.size ∙ sym exact);
        }

    -- Where the record does not fit, the open file is empty.
    place-IsContiguous :
        (rec : WalRecord) (p : Pipeline)
        → p.hot.segment_size ≤ 2 ^ 32
        → p.ledger.next_id < 2 ^ 32
        → (ltb p.hot.segment_size (p.hot.offset + payload_len rec) ≡ true → p.hot.offset ≡ 0)
        → IsContiguous encode lmdb p
        → IsContiguous encode lmdb (place encode lmdb rec p)
    unfolding payload_len
    place-IsContiguous rec p size ids fresh v =
        rw (place_lem rec p)
          (elim (Bool-cases (ltb p.hot.segment_size (p.hot.offset + payload_len rec))) [
            | inl b ↦
                let none_waits : p.pending ≡ [] =
                  Chain-nil p.hot.file_id v.row.analysis_offset p.pending p.hot.offset v.chain
                    (fresh b) in
                rw b (
                  added-IsContiguous rec (rotate_hot encode lmdb p)
                    (omega (arith, (rotate_hot_lem p).0))
                    (rotate_hot-IsContiguous p ids none_waits))
            | inr b ↦ rw b (added-IsContiguous rec p (ground arith) v)
          ])

    module _ (stages : (rs : List IndexedRecord) (d : D) → (d' : D) × (lmdb rs d ≡ some d')) where
      -- The pipeline is ready for the record: where it does not fit, the open file is empty.
      Ready : WalRecord → Pipeline → Type 0
      Ready rec p =
          (p' : Pipeline) × (barrier encode lmdb rec p ≡ (p', true))
          × IsContiguous encode lmdb p'
          × (p'.hot.segment_size ≡ p.hot.segment_size)
          × (p'.ledger.next_id < 2 ^ 32)
          × (ltb p'.hot.segment_size (p'.hot.offset + payload_len rec) ≡ true → p'.hot.offset ≡ 0)

      barrier-Ready :
          (rec : WalRecord) (p : Pipeline)
          → p.ledger.next_id + 1 < 2 ^ 32
          → IsContiguous encode lmdb p
          → Ready rec p
      unfolding barrier Ready
      barrier-Ready rec p ids v = elim (Bool-cases full) [
        | inl b ↦
            let (p₁, e, v₁, empty, hot, next, _) = flush-advances encode lmdb stages p v in
            let turned = rotate_hot_lem p₁ in
            (
              rotate_hot encode lmdb p₁,
              rw (barrier, b, e) refl,
              rotate_hot-IsContiguous p₁ (omega (arith, next)) empty,
              turned.1 ∙ ap (λ h. h.segment_size) hot,
              omega (arith, turned.2, next),
              λ long. turned.0,
            )
        | inr b ↦ (p, rw (barrier, b) refl, v, refl, omega arith, λ long. ground arith)
      ]
        where
          full : Bool
          full = ltb p.hot.segment_size (p.hot.offset + payload_len rec) && ltb 0 p.hot.offset

      -- Let a record's encoding have its declared length, the index accept every batch, a file
      -- hold at most 2^32 bytes and file numbers stay below 2^32. From a pipeline whose pending
      -- records all lie in the open file, one after the other from its watermark to its end, with
      -- their bytes at their offsets, push_record succeeds, so that no watermark is refused, and
      -- the new pipeline is such again: no batch spans two files.
      pub push_record-IsContiguous :
          (rec : WalRecord) (p : Pipeline)
          → p.hot.segment_size ≤ 2 ^ 32
          → p.ledger.next_id + 1 < 2 ^ 32
          → IsContiguous encode lmdb p
          → (p' : Pipeline) × (push_record encode lmdb rec p ≡ (p', true))
            × IsContiguous encode lmdb p'
      unfolding push_record Ready
      push_record-IsContiguous rec p size ids v =
          let (p₁, e, v₁, same, ids₁, fresh) = barrier-Ready rec p ids v in
          let placed = place encode lmdb rec p₁ in
          let v₂ = place-IsContiguous rec p₁ (omega (arith, same)) ids₁ fresh v₁ in
          elim (Bool-cases (leb placed.batch_size (length placed.pending % 2 ^ 32))) [
            | inl b ↦
                let (p₃, e₃, v₃, _, _, _, _) = flush-advances encode lmdb stages placed v₂ in
                (p₃, rw (push_record, e, b) e₃, v₃)
            | inr b ↦ (placed, rw (push_record, e, b) refl, v₂)
          ]
