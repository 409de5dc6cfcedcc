-- ===== src/Reassembly/Content.antt =====
-- The contents of segments: what the drain hands on of them.
use sov_vault.Base.{
  ℕ, zero, suc, ◌+◌, ◌^◌, ◌≤◌, ◌<◌, ◌≡◌, refl, sym, ap, subst, ◌∙◌, false, inl, inr, List, [], ◌∷◌,
  ◌++◌, Option, none, some, arith, length, append-nil, if◌then◌else◌, Option-cases, Bool-cases,
}
use sov_vault.Map
use sov_vault.Map.{nat_eq, pair_eq}
use sov_vault.Map.Laws.{get-insert_cases, get-insert_self, get-insert_ne}
use sov_vault.Reassembly.Pending
use sov_vault.Reassembly.Pending.{Pending, All, remove-All, All-insert}
use sov_vault.Reassembly.State.{SegmentKey, Event, append, SegmentBuf, Reassembler, add64}
use sov_vault.Reassembly.Steps.{Step, pay_back, next_expected_of, advance, drain}
use sov_vault.Reassembly.Engine.{drop}
use sov_vault.Reassembly.Slices.{IsSlice, drop-IsSlice, IsSlice-le}
use sov_vault.Reassembly.Progress.{
  append_bytes, written, written-append, IsGood, Holds, Moves, Advances, Advances-trans,
  Advances-quiet,
}
use sov_vault.Reassembly.Quiet.{Shrunk, Related, IsQuiet}
use sov_vault.Reassembly.Evict.{pay_back-eq-some}

Related-eq-some :
    (o : Option SegmentBuf) (t : SegmentBuf)
    → Related o (some t)
    → (s : SegmentBuf) × (o ≡ some s) × Shrunk s t
Related-eq-some none t h = absurd h
Related-eq-some (some s) t h = (s, refl, h)

abbrev pub cursor_in : Option SegmentBuf → ℕ
cursor_in o = elim o [ none ↦ 0 | some s ↦ s.next_expected ]

Related-cursor : (o o' : Option SegmentBuf) → Related o o' → cursor_in o' ≡ cursor_in o
Related-cursor none none h = refl
Related-cursor none (some t) h = absurd h
Related-cursor (some s) none h = absurd h
Related-cursor (some s) (some t) h = h.cursor

module _ (content : SegmentKey → List ℕ) where
  pub IsQuiet-Advances :
      (st st' : Step) → Holds content st.0 → IsQuiet st st' → Advances content st st'
  unfolding next_expected_of
  IsQuiet-Advances st st' h q =
      Advances-quiet content st st'
        (λ key t e.
          let (s, e₀, sh) =
            Related-eq-some (Map.get key st.0.segs) t
              (subst (Related (Map.get key st.0.segs)) e (q.segs key)) in
          let good = h key s e₀ in
          record {
            slices = sh.fewer (content key) good.slices;
            inside = omega (arith, sh.cursor, good.inside);
          })
        (λ key. Related-cursor (Map.get key st.0.segs) (Map.get key st'.0.segs) (q.segs key))
        q.events

  pub Holds-insert :
      (key : SegmentKey) (s' : SegmentBuf) (r r' : Reassembler)
      → Holds content r
      → r'.segs ≡ Map.insert key s' r.segs
      → IsGood content key s'
      → Holds content r'
  Holds-insert key s' r r' h e₀ good k t e =
      elim (get-insert_cases k key s' t r.segs (sym (ap (Map.get k) e₀) ∙ e)) [
        | inl (same_key, is_new) ↦
            subst (λ u. IsGood content k u) is_new
              (subst (λ (j : SegmentKey). IsGood content j s') (sym same_key) good)
        | inr old ↦ h k t old
      ]

  pub cursor-insert_self :
      (key : SegmentKey) (s' : SegmentBuf) (r r' : Reassembler)
      → r'.segs ≡ Map.insert key s' r.segs
      → next_expected_of key r' ≡ s'.next_expected
  unfolding next_expected_of
  cursor-insert_self key s' r r' e₀ =
      ap cursor_in (ap (Map.get key) e₀ ∙ get-insert_self key s' r.segs)

  pub cursor-insert_ne :
      (k key : SegmentKey) (s' : SegmentBuf) (r r' : Reassembler)
      → r'.segs ≡ Map.insert key s' r.segs
      → pair_eq.beq k key ≡ false
      → next_expected_of k r' ≡ next_expected_of k r
  unfolding next_expected_of
  cursor-insert_ne k key s' r r' e₀ b =
      ap cursor_in (ap (Map.get k) e₀ ∙ get-insert_ne k key s' r.segs b)

  written-one :
      (k key : SegmentKey) (offset : ℕ) (chunk : List ℕ) (events : List Event)
      → written k (events ++ append key.0 key.1 offset chunk ∷ [])
        ≡ written k events ++ (if pair_eq.beq k key then chunk else [])
  unfolding written append_bytes
  written-one k key offset chunk events =
      written-append k events (append key.0 key.1 offset chunk ∷ [])
      ∙ ap (λ t. written k events ++ t) (append-nil _)

  module _ (fits : (key : SegmentKey) → length (content key) < 2 ^ 64) where
    -- One round of the drain.
    round-Advances :
        (key : SegmentKey) (s : SegmentBuf) (chunk : List ℕ) (rest : Pending) (r r' : Reassembler)
        (events : List Event)
        → Holds content r
        → Map.get key r.segs ≡ some s
        → Pending.remove s.next_expected s.pending ≡ some (chunk, rest)
        → r'.segs ≡ Map.insert key (advance s (length chunk) rest) r.segs
        → Advances content (r, events) (r', events ++ append key.0 key.1 s.next_expected chunk ∷ [])
    unfolding next_expected_of
    round-Advances key s chunk rest r r' events h e₁ e₂ e₃ = record {
      holds =
          Holds-insert key s' r r' h e₃
            (record { slices = parts.1; inside = omega (arith, moved, le) });
      moves = λ k. elim (Bool-cases (pair_eq.beq k key)) [
        | inl b ↦
            subst
              (λ (j : SegmentKey).
                Moves content j (r, events)
                  (r', events ++ append key.0 key.1 s.next_expected chunk ∷ []))
              (sym ((pair_eq.beq_iff k key).0 b)) here
        | inr b ↦ record {
          bytes = [];
          hands_on = written-one k key _ chunk events ∙ rw b;
          cursor = omega (arith, cursor-insert_ne k key s' r r' e₃ b);
          next_bytes = ap (λ n. drop n (content k)) (sym (cursor-insert_ne k key s' r r' e₃ b));
        }
      ];
    }
      where
        s' : SegmentBuf
        s' = advance s (length chunk) rest

        good : IsGood content key s
        good = h key s e₁

        parts : IsSlice (content key) s.next_expected chunk × All (IsSlice (content key)) rest
        parts =
            remove-All (IsSlice (content key)) s.next_expected s.pending chunk rest e₂ good.slices

        le : s.next_expected + length chunk ≤ length (content key)
        le = IsSlice-le (content key) s.next_expected chunk good.inside parts.0

        moved : add64 s.next_expected (length chunk) ≡ s.next_expected + length chunk
        moved = omega (arith, le, fits key)

        before : next_expected_of key r ≡ s.next_expected
        before = ap cursor_in e₁

        after : next_expected_of key r' ≡ s.next_expected + length chunk
        after = cursor-insert_self key s' r r' e₃ ∙ moved

        here :
            Moves content key
              (r, events)
              (r', events ++ append key.0 key.1 s.next_expected chunk ∷ [])
        here = record {
          bytes = chunk;
          hands_on = written-one key key _ chunk events ∙ rw ((pair_eq.beq_iff key key).1 refl);
          cursor = omega (arith, before, after);
          next_bytes =
              rw (before, after) (drop-IsSlice (content key) s.next_expected chunk parts.0);
        }

    -- The whole drain, whatever its fuel.
    pub drain-Advances :
        (fuel : ℕ) (key : SegmentKey) (r : Reassembler) (events : List Event) (st' : Step)
        → Holds content r
        → drain fuel key (r, events) ≡ some st'
        → Advances content (r, events) st'
    unfolding drain
    drain-Advances zero key r events st' h e = absurd (ground arith)
    drain-Advances (suc fuel) key r events st' h e = elim (Option-cases (Map.get key r.segs)) [
      | inl n ↦ stops (ground arith)
      | inr (s, e₁) ↦ elim (Option-cases (Pending.remove s.next_expected s.pending)) [
        | inl n ↦ stops (ground arith)
        | inr ((chunk, rest), e₂) ↦
            elim (Option-cases (pay_back key.0 (length chunk) (paid s chunk rest))) [
              | inl n ↦ absurd (ground arith)
              | inr (r', e₃) ↦
                  let more = events ++ append key.0 key.1 s.next_expected chunk ∷ [] in
                  let (c, _, shape) =
                    pay_back-eq-some key.0 (length chunk) (paid s chunk rest) r' e₃ in
                  let one = round-Advances key s chunk rest r r' events h e₁ e₂ (ground arith) in
                  Advances-trans content one
                    (drain-Advances fuel key r' more st' one.holds (ground arith))
            ]
      ]
    ]
      where
        paid : SegmentBuf → List ℕ → Pending → Reassembler
        paid s chunk rest = record r {
          segs = Map.insert key (advance s (length chunk) rest) r.segs;
        }

        stops : (r, events) ≡ st' → Advances content (r, events) st'
        stops same =
            subst (Advances content (r, events)) same
              (Advances-quiet content (r, events) (r, events) h (λ k. refl) (λ k. refl))
