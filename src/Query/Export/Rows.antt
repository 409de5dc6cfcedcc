-- ===== src/Query/Export/Rows.antt =====
-- src/query.rs: the rows of a search, read from raw rows piece by piece.
use sov_vault.Base.{
  ℕ, ◌+◌, ◌≡◌, ◌∙◌, refl, sym, ap, true, List, [], ◌∷◌, ◌++◌, Option, some, arith, inl, inr,
  Option-cases, append_assoc, ==_refl,
}
use sov_vault.Db.Pair.{QrStatus}
use sov_vault.Map.{nat_eq}
use sov_vault.Query.{QrIndexRow}
use sov_vault.Query.Statuses.{has_candidate}
use sov_vault.Query.Scan.{RawEpochRow}
use sov_vault.Query.Export.{be64_at, candidates_of, index_row, index_rows}

module _ (o : ℕ) (conn : Option ℕ) (sf : Option QrStatus) where
  -- Rows that can be read have candidates, and only the statuses of these count.
  pub index_rows-candidates :
      (look : ℕ → Option QrStatus) (raw : List RawEpochRow) (rows : List QrIndexRow)
      → index_rows o conn sf look raw ≡ some rows
      → (cs : List ℕ) × (candidates_of o raw ≡ some cs)
        × ((other : ℕ → Option QrStatus)
            → ((c : ℕ) → has_candidate c cs ≡ true → other c ≡ look c)
            → index_rows o conn sf other raw ≡ some rows)
  unfolding index_rows candidates_of
  index_rows-candidates look [] rows h = ([], refl, λ other same. h)
  index_rows-candidates look ((n, k, v) ∷ raw) rows h = elim (Option-cases (be64_at o k)) [
    | inl e ↦ absurd (ground (arith, e))
    | inr (q_ts, e) ↦ elim (Option-cases (be64_at (o + 8) k)) [
      | inl e1 ↦ absurd (ground (arith, e, e1))
      | inr (c, e1) ↦ elim (Option-cases (index_rows o conn sf look raw)) [
        | inl e2 ↦ absurd (ground (arith, e, e1, e2))
        | inr (rest, e2) ↦
            let (cs, found, same) = index_rows-candidates look raw rest e2 in
            (
              c ∷ cs,
              rw (candidates_of, e1, found) refl,
              λ other agree.
                  let tail = same other (λ x m. agree x (ground (arith, m))) in
                  let here : other c ≡ look c = agree c (ground (arith, ==_refl c)) in
                  rw (index_rows, e, e1, tail, here) (rw (index_rows, e, e1, e2) at h),
            )
      ]
    ]
  ]

  pub index_rows-append :
      (look : ℕ → Option QrStatus) (xs ys : List RawEpochRow) (rows : List QrIndexRow)
      → index_rows o conn sf look (xs ++ ys) ≡ some rows
      → (front : List QrIndexRow) × (back : List QrIndexRow) × (index_rows o conn sf look xs
          ≡ some front)
        × (index_rows o conn sf look ys ≡ some back)
        × (rows ≡ front ++ back)
  unfolding index_rows
  index_rows-append look [] ys rows h = ([], rows, refl, h, refl)
  index_rows-append look ((n, k, v) ∷ xs) ys rows h = elim (Option-cases (be64_at o k)) [
    | inl e ↦ absurd (ground (arith, e))
    | inr (q_ts, e) ↦ elim (Option-cases (be64_at (o + 8) k)) [
      | inl e1 ↦ absurd (ground (arith, e, e1))
      | inr (c, e1) ↦ elim (Option-cases (index_rows o conn sf look (xs ++ ys))) [
        | inl e2 ↦ absurd (ground (arith, e, e1, e2))
        | inr (rest, e2) ↦
            let (front, back, ef, eb, parts) = index_rows-append look xs ys rest e2 in
            let pre = index_row conn sf q_ts c (look c) in
            let all : some (pre ++ rest) ≡ some rows = rw (index_rows, e, e1, e2) at h in
            let whole : rows ≡ pre ++ rest = ground arith in
            (
              pre ++ front,
              back,
              rw (index_rows, e, e1, ef) refl,
              eb,
              whole ∙ ap (λ x. pre ++ x) parts ∙ sym (append_assoc pre front back),
            )
      ]
    ]
  ]

  pub index_rows-nil :
      (look : ℕ → Option QrStatus) (raw : List RawEpochRow) (rows : List QrIndexRow)
      → raw ≡ []
      → index_rows o conn sf look raw ≡ some rows
      → rows ≡ []
  unfolding index_rows
  index_rows-nil look [] rows e h = ground arith
  index_rows-nil look (r ∷ raw) rows e h = absurd (ground arith)
