-- ===== src/Query/Scan/Rows.antt =====
-- src/query.rs: a page, and what the epochs have to give, one after the other.
use sov_vault.Base.{
  ℕ, zero, suc, ◌≤◌, ◌<◌, ◌≡◌, ◌∙◌, refl, sym, ap, Bool, true, List, [], ◌∷◌, ◌++◌, Option, arith,
  length, length-append, leb, append-nil, append_assoc, Bool-cases, inl, inr,
}
use sov_vault.Store.{Lmdb, Row}
use sov_vault.Query.{EpochTarget, EpochDb, QuerySession, dbs_of}
use sov_vault.Query.Scan.{
  Scans, RawEpochRow, push_rows, epoch_items, scan_epoch_range, cursor_key_of, scan_targets,
}

abbrev pub first {ℓ} : {A : Type ℓ} → ℕ → List A → List A
first zero xs = []
first (suc n) [] = []
first (suc n) (x ∷ xs) = x ∷ first n xs

pub first-all {ℓ} : {A : Type ℓ} (n : ℕ) (xs : List A) → length xs ≤ n → first n xs ≡ xs
first-all zero [] h = refl
first-all zero (x ∷ xs) h = absurd (omega arith)
first-all (suc n) [] h = refl
first-all (suc n) (x ∷ xs) h = ap (λ t. x ∷ t) (first-all n xs (omega arith))

pub first-append {ℓ} :
    {A : Type ℓ} (n : ℕ) (xs ys : List A) → n ≤ length xs → first n (xs ++ ys) ≡ first n xs
first-append zero xs ys h = refl
first-append (suc n) [] ys h = absurd (omega arith)
first-append (suc n) (x ∷ xs) ys h = ap (λ t. x ∷ t) (first-append n xs ys (omega arith))

-- The rows of an epoch with its number.
abbrev pub tag : ℕ → List Row → List RawEpochRow
tag num [] = []
tag num ((k, v) ∷ rows) = (num, k, v) ∷ tag num rows

filled :
    (limit : ℕ) (out more : List RawEpochRow)
    → length out ≤ limit
    → leb limit (length out) ≡ true
    → ◌≡◌ {A = List RawEpochRow × Bool}
        (out, true)
        (first limit (out ++ more), leb limit (length (out ++ more)))
filled limit out more h full =
    let all : first limit (out ++ more) ≡ out =
      first-append limit out more (ground arith) ∙ first-all limit out h in
    let long : leb limit (length (out ++ more)) ≡ true = ground (arith, length-append out more) in
    rw (all, long) refl

pub push_rows_lem :
    (limit num : ℕ) (items : List Row) (out : List RawEpochRow)
    → length out < limit
    → push_rows limit num items out
      ≡ (first limit (out ++ tag num items), leb limit (length (out ++ tag num items)))
unfolding push_rows
push_rows_lem limit num [] out h =
    rw (append-nil) (ground (arith, first-all limit out (omega arith)))
push_rows_lem limit num ((k, v) ∷ items) out h =
    let out' = out ++ (num, k, v) ∷ [] in
    let moved : out' ++ tag num items ≡ out ++ tag num ((k, v) ∷ items) =
      append_assoc out ((num, k, v) ∷ []) (tag num items) in
    let view : List RawEpochRow → List RawEpochRow × Bool =
      λ t. (first limit t, leb limit (length t)) in
    let grown = length-append out ((num, k, v) ∷ []) in
    elim (Bool-cases (leb limit (length out'))) [
      | inl full ↦
          rw (push_rows, full)
            (filled limit out' (tag num items) (omega (arith, grown)) full ∙ ap view moved)
      | inr room ↦
          rw (push_rows, room) (push_rows_lem limit num items out' (ground arith) ∙ ap view moved)
    ]

module _ (db : Lmdb) (scans : Scans db) (s : QuerySession db) (d : EpochDb) (lo hi : List ℕ)
    (cur : ℕ × Option (List ℕ)) (forward : Bool) where
  -- What the epochs have to give, one after the other.
  abbrev pub stream : List EpochTarget → List RawEpochRow
  stream [] = []
  stream (t ∷ ts) =
      tag t.num
        (epoch_items db scans (dbs_of db s t d) lo hi (cursor_key_of db scans cur t.num) forward)
      ++ stream ts

  pub scan_targets_lem :
      (limit : ℕ) (ts : List EpochTarget) (out : List RawEpochRow)
      → length out < limit
      → scan_targets db scans s d lo hi cur forward limit ts out ≡ first limit (out ++ stream ts)
  unfolding scan_targets scan_epoch_range
  scan_targets_lem limit [] out h = rw append-nil (sym (first-all limit out (omega arith)))
  scan_targets_lem limit (t ∷ ts) out h =
      let items =
        epoch_items db scans (dbs_of db s t d) lo hi (cursor_key_of db scans cur t.num) forward in
      let here = out ++ tag t.num items in
      let moved : here ++ stream ts ≡ out ++ stream (t ∷ ts) =
        append_assoc out (tag t.num items) (stream ts) in
      let pushed = push_rows_lem limit t.num items out h in
      elim (Bool-cases (leb limit (length here))) [
        | inl full ↦
            rw (scan_targets, pushed, full)
              (sym (first-append limit here (stream ts) (ground arith)) ∙ ap (first limit) moved)
        | inr room ↦
            let short = first-all limit here (ground arith) in
            rw (scan_targets, pushed, room, short)
              (scan_targets_lem limit ts here (ground arith) ∙ ap (first limit) moved)
      ]
