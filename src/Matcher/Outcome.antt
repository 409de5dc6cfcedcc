-- ===== src/Matcher/Outcome.antt =====
-- What can happen to the row of a request, in the live and in the epoch table.
use sov_vault.Base.{◌≡◌, sym, ap, ◌∙◌, subst, ℕ, List, Option, none, some, arith}
use sov_vault.Db.Pair
use sov_vault.Db.Pair.{QrPairValue}
use sov_vault.Store.{Lmdb}
use sov_vault.Matcher.Rows.{pending_pair}

module _ (db : Lmdb) (Ends : QrPairValue → QrPairValue → Type 0) where
  -- What happens to one key: nothing, or a leftover of the live table is cleared, or the request that
  -- waits there ends, with a row as `Ends` has it.
  pub data Outcome (epoch live epoch' live' : Option (List ℕ)) : Type 0 where
    kept : epoch' ≡ epoch → live' ≡ live → Outcome epoch live epoch' live'
    cleared :
        (v : List ℕ)
        → epoch ≡ some v
        → epoch' ≡ epoch
        → live' ≡ none
        → Outcome epoch live epoch' live'
    ended :
        (pair pair' : QrPairValue)
        → Ends pair pair'
        → epoch ≡ none
        → pending_pair db live ≡ some pair
        → epoch' ≡ some (Pair.encode pair')
        → live' ≡ none
        → Outcome epoch live epoch' live'

  pub Outcome-trans :
      (e l e₁ l₁ e₂ l₂ : Option (List ℕ))
      → Outcome e l e₁ l₁
      → Outcome e₁ l₁ e₂ l₂
      → Outcome e l e₂ l₂
  Outcome-trans e l e₁ l₁ e₂ l₂ (kept a b) (kept c d) = kept (c ∙ a) (d ∙ b)
  Outcome-trans e l e₁ l₁ e₂ l₂ (kept a b) (cleared v n c d) = cleared v (sym a ∙ n) (c ∙ a) d
  Outcome-trans e l e₁ l₁ e₂ l₂ (kept a b) (ended p p' s n w c d) =
      ended p p' s (sym a ∙ n) (sym (ap (pending_pair db) b) ∙ w) c d
  Outcome-trans e l e₁ l₁ e₂ l₂ (cleared v n a b) (kept c d) = cleared v n (c ∙ a) (d ∙ b)
  Outcome-trans e l e₁ l₁ e₂ l₂ (cleared v n a b) (cleared w m c d) = cleared v n (c ∙ a) d
  Outcome-trans e l e₁ l₁ e₂ l₂ (cleared v n a b) (ended p p' s m w c d) = absurd (ground arith)
  Outcome-trans e l e₁ l₁ e₂ l₂ (ended p p' s n w a b) (kept c d) = ended p p' s n w (c ∙ a) (d ∙ b)
  Outcome-trans e l e₁ l₁ e₂ l₂ (ended p p' s n w a b) (cleared v m c d) =
      ended p p' s n w (c ∙ a) d
  Outcome-trans e l e₁ l₁ e₂ l₂ (ended p p' s n w a b) (ended q q' t m x c d) =
      absurd (ground arith)

  -- The last two cases leave nothing waiting.
  pub Outcome-settled :
      (e l e' l' : Option (List ℕ))
      → Outcome e l e' l'
      → pending_pair db l ≡ none
      → pending_pair db l' ≡ none
  Outcome-settled e l e' l' (kept a b) n = ap (pending_pair db) b ∙ n
  Outcome-settled e l e' l' (cleared v m a b) n = ap (pending_pair db) b
  Outcome-settled e l e' l' (ended p p' s m w a b) n = ap (pending_pair db) b

  -- A request that waited alone and does not wait any more has ended.
  pub Outcome-ended :
      (e l e' l' : Option (List ℕ)) (pair : QrPairValue)
      → Outcome e l e' l'
      → e ≡ none
      → pending_pair db l ≡ some pair
      → pending_pair db l' ≡ none
      → (pair' : QrPairValue) × Ends pair pair' × (e' ≡ some (Pair.encode pair')) × (l' ≡ none)
  Outcome-ended e l e' l' pair (kept a b) alone waits gone =
      absurd (ground (arith, ap (pending_pair db) b))
  Outcome-ended e l e' l' pair (cleared v m a b) alone waits gone = absurd (ground arith)
  Outcome-ended e l e' l' pair (ended p p' s m w a b) alone waits gone =
      let same : p ≡ pair = ground arith in (p', subst (λ t. Ends t p') same s, a, b)
