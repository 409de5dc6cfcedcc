-- ===== src/Batch/Barrier.antt =====
-- src/batch.rs: the pipeline between its calls, as the records that wait and the open file show it.
use sov_vault.Base.{
  ℕ, ◌+◌, ◌≤◌, ◌≡◌, refl, ap, ◌∙◌, subst, true, List, [], ◌∷◌, ◌++◌, Option, some, arith, length,
  append_assoc, leb, ==_iff,
}
use sov_vault.Map
use sov_vault.Map.{nat_eq}
use sov_vault.Map.Laws.{get-insert_self}
use sov_vault.Matcher.Types.{WalRecord, IndexedRecord}
use sov_vault.Batch.{
  payload_len, rec_len, file_ends, advance_all, stage_sqlite, BatchPipeline, commit_batch, flush,
}
use sov_vault.Ledger.{FileRow, Ledger, watermark, advance_watermark}

-- The records of the file `f` follow each other from `w` to `e`.
abbrev pub Chain : ℕ → ℕ → List IndexedRecord → ℕ → Type 0
Chain f w [] e = w ≡ e
Chain f w (r ∷ rs) e = (r.file_id ≡ f) × (r.offset ≡ w) × Chain f (w + rec_len r) rs e

rec_len-pos : (r : IndexedRecord) → 64 ≤ rec_len r
unfolding rec_len payload_len
rec_len-pos r = omega arith

pub Chain-le : (f w : ℕ) (rs : List IndexedRecord) (e : ℕ) → Chain f w rs e → w ≤ e
Chain-le f w [] e c = omega arith
Chain-le f w (r ∷ rs) e c = omega (arith, Chain-le f (w + rec_len r) rs e c.2)

-- Nothing waits in an empty file.
pub Chain-nil : (f w : ℕ) (rs : List IndexedRecord) (e : ℕ) → Chain f w rs e → e ≡ 0 → rs ≡ []
Chain-nil f w [] e c z = refl
Chain-nil f w (r ∷ rs) e c z =
    absurd (omega (arith, Chain-le f (w + rec_len r) rs e c.2, rec_len-pos r))

pub Chain-append :
    (f w : ℕ) (rs : List IndexedRecord) (e : ℕ) (r : IndexedRecord)
    → Chain f w rs e
    → r.file_id ≡ f
    → r.offset ≡ e
    → Chain f w (rs ++ r ∷ []) (e + rec_len r)
Chain-append f w [] e r c a b = (a, omega arith, omega arith)
Chain-append f w (s ∷ rs) e r c a b = (c.0, c.1, Chain-append f (w + rec_len s) rs e r c.2 a b)

file_ends-Chain :
    (f w : ℕ) (rs : List IndexedRecord) (e : ℕ)
    → Chain f w rs e
    → file_ends rs ((f, w) ∷ []) ≡ (f, e) ∷ []
unfolding file_ends Map.get Map.insert
file_ends-Chain f w [] e c = ground arith
file_ends-Chain f w (r ∷ rs) e c =
    ground (arith, file_ends-Chain f (w + rec_len r) rs e c.2, rec_len-pos r, ==_iff f f)

file_ends-all :
    (f w : ℕ) (r : IndexedRecord) (rs : List IndexedRecord) (e : ℕ)
    → Chain f w (r ∷ rs) e
    → file_ends (r ∷ rs) [] ≡ (f, e) ∷ []
unfolding file_ends Map.get Map.insert
file_ends-all f w r rs e c =
    ground (arith, file_ends-Chain f (w + rec_len r) rs e c.2, rec_len-pos r)

-- The ledger with the watermark of `f` at `e`.
abbrev pub moved : ℕ → ℕ → FileRow → Ledger → Ledger
moved f e row l = record l { files = Map.insert f (record row { analysis_offset = e }) l.files }

-- The watermark of one file's records never falls, so that the update is not refused.
pub stage_sqlite-Chain :
    (f w e : ℕ) (r : IndexedRecord) (rs : List IndexedRecord) (row : FileRow) (l : Ledger)
    → Map.get f l.files ≡ some row
    → row.analysis_offset ≤ w
    → Chain f w (r ∷ rs) e
    → stage_sqlite (r ∷ rs) l ≡ (moved f e row l, true)
unfolding stage_sqlite advance_all advance_watermark
stage_sqlite-Chain f w e r rs row l g from c =
    let up : leb row.analysis_offset e ≡ true = ground (arith, Chain-le f w (r ∷ rs) e c) in
    rw (stage_sqlite, file_ends-all f w r rs e c, advance_all, advance_watermark, g, up) refl

module _ {D : Type 0} (encode : WalRecord → List ℕ) (lmdb : List IndexedRecord → D → Option D) where
  -- The bytes of a record stand in the file at its offset.
  abbrev pub Placed : List ℕ → IndexedRecord → Type 0
  Placed bytes r =
      (before : List ℕ) × (after : List ℕ) × (bytes ≡ before ++ encode r.rec ++ after)
      × (length before ≡ r.offset)

  abbrev pub AllPlaced : List ℕ → List IndexedRecord → Type 0
  AllPlaced bytes [] = Unit {0}
  AllPlaced bytes (r ∷ rs) = Placed bytes r × AllPlaced bytes rs

  pub record IsContiguous (p : BatchPipeline encode lmdb) : Type 0 where
    pub row : FileRow
    pub row_at : Map.get p.hot.file_id p.ledger.files ≡ some row
    pub chain : Chain p.hot.file_id row.analysis_offset p.pending p.hot.offset
    pub size : length p.hot.bytes ≡ p.hot.offset
    pub placed : AllPlaced p.hot.bytes p.pending

  pub AllPlaced-grow :
      (bytes more : List ℕ) (rs : List IndexedRecord)
      → AllPlaced bytes rs
      → AllPlaced (bytes ++ more) rs
  AllPlaced-grow bytes more [] h = tt
  AllPlaced-grow bytes more (r ∷ rs) h = (
    (h.0.0, h.0.1 ++ more, rw h.0.2 (append_assoc (h.0.0 ++ encode r.rec) h.0.1 more), h.0.3),
    AllPlaced-grow bytes more rs h.1,
  )

  pub AllPlaced-append :
      (bytes : List ℕ) (rs : List IndexedRecord) (r : IndexedRecord)
      → AllPlaced bytes rs
      → Placed bytes r
      → AllPlaced bytes (rs ++ r ∷ [])
  AllPlaced-append bytes [] r h q = (q, tt)
  AllPlaced-append bytes (s ∷ rs) r h q = (h.0, AllPlaced-append bytes rs r h.1 q)

  flush-empty : (p : BatchPipeline encode lmdb) → p.pending ≡ [] → flush encode lmdb p ≡ (p, true)
  unfolding flush
  flush-empty p e = ground arith

  pub flush-cons :
      (p : BatchPipeline encode lmdb) (r : IndexedRecord) (rs : List IndexedRecord)
      → p.pending ≡ r ∷ rs
      → flush encode lmdb p ≡ commit_batch encode lmdb (r ∷ rs) (record p { pending = [] })
  unfolding flush
  flush-cons p r rs e = ground arith

  -- The pipeline after a batch is committed.
  abbrev committed : D → FileRow → BatchPipeline encode lmdb → BatchPipeline encode lmdb
  committed d row p = record p {
    db = d;
    ledger = moved p.hot.file_id p.hot.offset row p.ledger;
    pending = [];
  }

  flush-commits :
      (p : BatchPipeline encode lmdb) (v : IsContiguous p) (r : IndexedRecord)
      (rs : List IndexedRecord) (d : D)
      → p.pending ≡ r ∷ rs
      → lmdb (r ∷ rs) p.db ≡ some d
      → flush encode lmdb p ≡ (committed d v.row p, true)
  unfolding commit_batch
  flush-commits p v r rs d e s =
      let c : Chain p.hot.file_id v.row.analysis_offset (r ∷ rs) p.hot.offset =
        subst (λ t. Chain p.hot.file_id v.row.analysis_offset t p.hot.offset) e v.chain in
      flush-cons p r rs e
      ∙ rw
          (
            commit_batch,
            s,
            stage_sqlite-Chain p.hot.file_id v.row.analysis_offset p.hot.offset r rs v.row p.ledger
                v.row_at (omega arith) c,
          )
          refl

  Committed : BatchPipeline encode lmdb → Type 0
  Committed p =
      (p' : BatchPipeline encode lmdb) × (flush encode lmdb p ≡ (p', true))
      × IsContiguous p'
      × (p'.pending ≡ [])
      × (p'.hot ≡ p.hot)
      × (p'.ledger.next_id ≡ p.ledger.next_id)
      × (watermark p.hot.file_id p'.ledger ≡ some p.hot.offset)

  module _ (stages : (rs : List IndexedRecord) (d : D) → (d' : D) × (lmdb rs d ≡ some d')) where
    flush_by :
        (p : BatchPipeline encode lmdb) (rs : List IndexedRecord)
        → IsContiguous p
        → p.pending ≡ rs
        → Committed p
    unfolding Committed watermark
    flush_by p [] v e = (
      p,
      flush-empty p e,
      v,
      e,
      refl,
      refl,
      (let level : v.row.analysis_offset ≡ p.hot.offset =
            subst (λ t. Chain p.hot.file_id v.row.analysis_offset t p.hot.offset) e v.chain in
          rw (watermark, v.row_at) (ap some level)),
    )
    flush_by p (r ∷ rs) v e =
        let (d, s) = stages (r ∷ rs) p.db in
        let row' : FileRow = record v.row { analysis_offset = p.hot.offset } in
        let here = get-insert_self p.hot.file_id row' p.ledger.files in
        (
          committed d v.row p,
          flush-commits p v r rs d e s,
          record { row = row'; row_at = here; chain = refl; size = v.size; placed = tt },
          refl,
          refl,
          refl,
          rw (watermark, here) refl,
        )

    -- Let the index accept every batch, and let the pending records lie in the open file one after
    -- the other from its watermark to its end. A flush succeeds, nothing is pending afterwards,
    -- the writer and the next file number are the same, the file's watermark is its end, and the
    -- pipeline is contiguous again.
    pub flush-advances :
        (p : BatchPipeline encode lmdb)
        → IsContiguous p
        → (p' : BatchPipeline encode lmdb) × (flush encode lmdb p ≡ (p', true))
          × IsContiguous p'
          × (p'.pending ≡ [])
          × (p'.hot ≡ p.hot)
          × (p'.ledger.next_id ≡ p.ledger.next_id)
          × (watermark p.hot.file_id p'.ledger ≡ some p.hot.offset)
    unfolding Committed
    flush-advances p v = flush_by p p.pending v refl
