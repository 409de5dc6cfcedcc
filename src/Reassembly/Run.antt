-- ===== src/Reassembly/Run.antt =====
-- A run of chunks, from the empty reassembler on.
use sov_vault.Base.{
  ℕ, ◌^◌, ◌<◌, ◌≡◌, refl, sym, ap, subst, ◌∙◌, inl, inr, List, [], ◌∷◌, ◌++◌, Option, none, some,
  arith, length, length-append, append_assoc, Option-cases,
}
use sov_vault.Map.{nat_eq, pair_eq}
use sov_vault.Reassembly.State.{SegmentKey, Event, Reassembler}
use sov_vault.Reassembly.Steps.{Step}
use sov_vault.Reassembly.Engine.{place_chunk}
use sov_vault.Reassembly.Slices.{IsSlice}
use sov_vault.Reassembly.Progress.{written, written-append, Holds, Moves}
use sov_vault.Reassembly.Order.{place_chunk-Advances}

pub record Chunk : Type 0 where
  pub dev_id : ℕ
  pub segment_seq : ℕ
  pub offset : ℕ
  pub bytes : List ℕ

-- The chunks one after the other, with all events.
unfoldable pub place_chunks : List Chunk → Reassembler → Option Step
unfolding place_chunk
place_chunks [] r = some (r, [])
place_chunks (c ∷ cs) r = elim (place_chunk c.dev_id c.segment_seq c.offset c.bytes r) [
  | none ↦ none
  | some (r', events) ↦ elim (place_chunks cs r') [
    | none ↦ none
    | some (r'', more) ↦ some (r'', events ++ more)
  ]
]

module _ (content : SegmentKey → List ℕ) where
  -- Every chunk is a slice of its segment's content.
  abbrev pub AllSlices : List Chunk → Type 0
  AllSlices [] = Unit {0}
  AllSlices (c ∷ cs) = IsSlice (content (c.dev_id, c.segment_seq)) c.offset c.bytes × AllSlices cs

  Moves-append :
      (key : SegmentKey) (r r' r'' : Reassembler) (xs ys : List Event)
      → Moves content key (r, []) (r', xs)
      → Moves content key (r', []) (r'', ys)
      → Moves content key (r, []) (r'', xs ++ ys)
  unfolding written
  Moves-append key r r' r'' xs ys m n = record {
    bytes = m.bytes ++ n.bytes;
    hands_on = written-append key xs ys ∙ rw (m.hands_on, n.hands_on);
    cursor = omega (arith, m.cursor, n.cursor, length-append m.bytes n.bytes);
    next_bytes =
        m.next_bytes ∙ ap (λ t. m.bytes ++ t) n.next_bytes ∙ sym (append_assoc m.bytes n.bytes _);
  }

  abbrev Outcome : Reassembler → Step → Type 0
  Outcome r st' = (key : SegmentKey) → Moves content key (r, []) st'

  module _ (fits : (key : SegmentKey) → length (content key) < 2 ^ 64) where
    pub place_chunks-Moves :
        (cs : List Chunk) (r : Reassembler) (st' : Step)
        → Holds content r
        → AllSlices cs
        → place_chunks cs r ≡ some st'
        → Outcome r st'
    unfolding place_chunks written
    place_chunks-Moves [] r st' h s e =
        subst (Outcome r) {x = (r, [])} (ground arith)
          (λ key. record { bytes = []; hands_on = refl; cursor = omega arith; next_bytes = refl })
    place_chunks-Moves (c ∷ cs) r st' h s e =
        elim (Option-cases (place_chunk c.dev_id c.segment_seq c.offset c.bytes r)) [
          | inl n ↦ absurd (ground arith)
          | inr ((r₁, xs), e₁) ↦ elim (Option-cases (place_chunks cs r₁)) [
            | inl n ↦ absurd (ground arith)
            | inr ((r₂, ys), e₂) ↦
                let a =
                  place_chunk-Advances content fits c.dev_id c.segment_seq c.offset c.bytes r
                    (r₁, xs) h s.0 e₁ in
                let b = place_chunks-Moves cs r₁ (r₂, ys) a.holds s.1 e₂ in
                subst (Outcome r) {x = (r₂, xs ++ ys)} (ground arith)
                  (λ key. Moves-append key r r₁ r₂ xs ys (a.moves key) (b key))
          ]
        ]
