-- ===== src/Reassembly/Progress.antt =====
-- What a step of the reassembler does to each segment's content: the bytes that it hands on, and
-- the cursor.
use sov_vault.Base.{
  ℕ, ◌+◌, ◌≤◌, ◌≡◌, refl, sym, ap, ◌∙◌, ◌&&◌, List, [], ◌∷◌, ◌++◌, some, arith, length,
  length-append, append-nil, append_assoc, ◌==◌, if◌then◌else◌,
}
use sov_vault.Map
use sov_vault.Map.{nat_eq, pair_eq}
use sov_vault.Reassembly.Pending.{All}
use sov_vault.Reassembly.State.{SegmentKey, Event, append, SegmentBuf, Reassembler}
use sov_vault.Reassembly.Steps.{Step, next_expected_of}
use sov_vault.Reassembly.Engine.{drop}
use sov_vault.Reassembly.Slices.{IsSlice}

-- The bytes that a list of events hands on for a segment.
unfoldable pub append_bytes : SegmentKey → Event → List ℕ
append_bytes key (append dev seq offset bytes) =
    if (key.0 == dev) && (key.1 == seq) then bytes else []
append_bytes key _ = []

unfoldable pub written : SegmentKey → List Event → List ℕ
unfolding append_bytes
written key [] = []
written key (e ∷ es) = append_bytes key e ++ written key es

pub written-append :
    (key : SegmentKey) (xs ys : List Event)
    → written key (xs ++ ys) ≡ written key xs ++ written key ys
unfolding written
written-append key [] ys = refl
written-append key (x ∷ xs) ys =
    rw (written-append key xs ys) (sym (append_assoc (append_bytes key x) _ _))

-- Each segment has the content that is given for its key.
module _ (content : SegmentKey → List ℕ) where
  pub record IsGood (key : SegmentKey) (s : SegmentBuf) : Type 0 where
    pub slices : All (IsSlice (content key)) s.pending
    pub inside : s.next_expected ≤ length (content key)

  -- What waits are slices of the content, and the cursor is inside it.
  abbrev pub Holds : Reassembler → Type 0
  Holds r = (key : SegmentKey) (s : SegmentBuf) → Map.get key r.segs ≡ some s → IsGood key s

  -- From `st` to `st'` a segment hands on the content from its old cursor to its new one.
  pub record Moves (key : SegmentKey) (st st' : Step) : Type 0 where
    pub bytes : List ℕ
    pub hands_on : written key st'.1 ≡ written key st.1 ++ bytes
    pub cursor : next_expected_of key st'.0 ≡ next_expected_of key st.0 + length bytes
    pub next_bytes :
        drop (next_expected_of key st.0) (content key)
        ≡ bytes ++ drop (next_expected_of key st'.0) (content key)

  pub record Advances (st st' : Step) : Type 0 where
    pub holds : Holds st'.0
    pub moves : (key : SegmentKey) → Moves key st st'

  pub Advances-trans : {st st' st'' : Step} → Advances st st' → Advances st' st'' → Advances st st''
  Advances-trans {st} {st'} {st''} a b = record {
    holds = b.holds;
    moves = λ key.
        let m = a.moves key in
        let n = b.moves key in
        record {
          bytes = m.bytes ++ n.bytes;
          hands_on = n.hands_on ∙ rw m.hands_on (append_assoc (written key st.1) m.bytes n.bytes);
          cursor = omega (arith, m.cursor, n.cursor, length-append m.bytes n.bytes);
          next_bytes =
              m.next_bytes
              ∙ ap (λ t. m.bytes ++ t) n.next_bytes
              ∙ sym (append_assoc m.bytes n.bytes _);
        };
  }

  -- A step that leaves the cursors alone and hands nothing on.
  pub Advances-quiet :
      (st st' : Step)
      → Holds st'.0
      → ((key : SegmentKey) → next_expected_of key st'.0 ≡ next_expected_of key st.0)
      → ((key : SegmentKey) → written key st'.1 ≡ written key st.1)
      → Advances st st'
  Advances-quiet st st' h c w = record {
    holds = h;
    moves = λ key. record {
      bytes = [];
      hands_on = w key ∙ sym (append-nil (written key st.1));
      cursor = omega (arith, c key);
      next_bytes = ap (λ n. drop n (content key)) (sym (c key));
    };
  }
