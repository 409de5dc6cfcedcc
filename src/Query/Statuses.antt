-- ===== src/Query/Statuses.antt =====
-- src/query.rs: batch_statuses, which opens each epoch once, and the lookup of each candidate by
-- itself.
use sov_vault.Base.{
  ℕ, ◌≡◌, ◌∙◌, refl, ap, Bool, true, false, ◌||◌, List, [], ◌∷◌, Option, none, some, arith, ◌==◌,
  if◌then◌else◌, Option-cases, Bool-cases, inl, inr, ==_iff,
}
use sov_vault.Db.Keys.{k_qr_pair}
use sov_vault.Db.Pair.{QrStatus}
use sov_vault.Map
use sov_vault.Map.{nat_eq}
use sov_vault.Map.Laws.{get-insert}
use sov_vault.Store.{Lmdb}
use sov_vault.Query.{
  EpochTarget, EpochDb, QuerySession, dbs_of, get_decoded, first_hit, status_in, note_status,
  live_statuses, batch_resolve_epoch, resolve_epochs, batch_statuses,
}

abbrev pub or_else {ℓ} : {A : Type ℓ} → Option A → Option A → Option A
or_else (some a) o = some a
or_else none o = o

-- The maps after one more candidate or one more epoch: `b` says that it is the candidate asked for,
-- `h` that it comes again, `g` is what the map had, `x` and `y` what a table has.
module _ {ℓ} {A : Type ℓ} where
  over_step :
      (b h : Bool) (x y g : Option A)
      → (b ≡ true → x ≡ y)
      → (if h then or_else x (if b then or_else y g else g) else if b then or_else y g else g)
        ≡ (if b || h then or_else x g else g)
  over_step true true none y g e = rw (← e refl) refl
  over_step true true (some a) y g e = refl
  over_step true false x y g e = rw (← e refl) refl
  over_step false true x y g e = refl
  over_step false false x y g e = refl

  fill_step :
      (b h : Bool) (x y g : Option A)
      → (b ≡ true → x ≡ y)
      → (b ≡ true → g ≡ none)
      → (if h then or_else (if b then or_else y g else g) x else if b then or_else y g else g)
        ≡ (if b || h then or_else g x else g)
  fill_step true h x y g e n = ground (arith, e refl, n refl)
  fill_step false true x y g e n = refl
  fill_step false false x y g e n = refl

  skip_step :
      (b h : Bool) (x g : Option A) (a : A)
      → (b ≡ true → g ≡ some a)
      → (if h then or_else g x else g) ≡ (if b || h then or_else g x else g)
  skip_step true true x g a e = refl
  skip_step true false x g a e = rw (e refl) refl
  skip_step false h x g a e = refl

  last_step : (h : Bool) (g : Option A) → g ≡ (if h then or_else g none else g)
  last_step true none = refl
  last_step true (some a) = refl
  last_step false g = refl

  epoch_step :
      (h : Bool) (g x rest : Option A)
      → (if h then or_else (if h then or_else g x else g) rest else if h then or_else g x else g)
        ≡ (if h then or_else g (elim x [ some a ↦ some a | none ↦ rest ]) else g)
  epoch_step true none none rest = refl
  epoch_step true none (some a) rest = refl
  epoch_step true (some b) x rest = refl
  epoch_step false g x rest = refl

  start_step :
      (h : Bool) (x rest : Option A)
      → (if h
          then or_else (if h then or_else x none else none) rest
          else if h
          then or_else x none
          else none)
        ≡ (if h then or_else x rest else none)
  start_step true none rest = refl
  start_step true (some a) rest = refl
  start_step false x rest = refl

abbrev pub has_candidate : ℕ → List ℕ → Bool
has_candidate c [] = false
has_candidate c (d ∷ ds) = (c == d) || has_candidate c ds

module _ (db : Lmdb) where
  -- The status of one candidate in one table of QR_PAIR.
  abbrev pub look : db.Table → ℕ → Option QrStatus
  look t c = get_decoded db (status_in db) (k_qr_pair c) t

  -- The status of one candidate: in flight, or in the first epoch that has it.
  abbrev pub status_of : QuerySession db → ℕ → Option QrStatus
  status_of s c =
      or_else (look s.live_qr_pair c) (first_hit db s EpochDb.qr_pair (λ t. look t c) s.all_targets)

  get-note_status :
      (c d : ℕ) (t : db.Table) (out : List (ℕ × QrStatus))
      → Map.get c (note_status db t d out)
        ≡ (if c == d then or_else (look t d) (Map.get c out) else Map.get c out)
  unfolding note_status
  get-note_status c d t out = elim (Option-cases (look t d)) [
    | inl e ↦
        rw (note_status, e) (elim (Bool-cases (c == d)) [ inl b ↦ rw b refl | inr b ↦ rw b refl ])
    | inr (st, e) ↦ rw (note_status, e) (get-insert c d st out)
  ]

  get-live_statuses :
      (c : ℕ) (t : db.Table) (cs : List ℕ) (out : List (ℕ × QrStatus))
      → Map.get c (live_statuses db t cs out)
        ≡ (if has_candidate c cs then or_else (look t c) (Map.get c out) else Map.get c out)
  unfolding live_statuses
  get-live_statuses c t [] out = refl
  get-live_statuses c t (d ∷ cs) out =
      get-live_statuses c t cs (note_status db t d out)
      ∙ rw (get-note_status c d t out) (
          over_step (c == d) (has_candidate c cs) (look t c) (look t d) (Map.get c out)
            (λ b. ap (look t) ((==_iff c d).0 b)))

  get-batch_resolve_epoch :
      (c : ℕ) (t : db.Table) (cs : List ℕ) (out : List (ℕ × QrStatus))
      → Map.get c (batch_resolve_epoch db t cs out)
        ≡ (if has_candidate c cs then or_else (Map.get c out) (look t c) else Map.get c out)
  unfolding batch_resolve_epoch
  get-batch_resolve_epoch c t [] out = refl
  get-batch_resolve_epoch c t (d ∷ cs) out = elim (Option-cases (Map.get d out)) [
    | inl e ↦
        rw (batch_resolve_epoch, e)
          (get-batch_resolve_epoch c t cs (note_status db t d out)
            ∙ rw (get-note_status c d t out) (
                fill_step (c == d) (has_candidate c cs) (look t c) (look t d) (Map.get c out)
                  (λ b. ap (look t) ((==_iff c d).0 b))
                  (λ b. ap (λ x. Map.get x out) ((==_iff c d).0 b) ∙ e)))
    | inr (st, e) ↦
        rw (batch_resolve_epoch, e)
          (get-batch_resolve_epoch c t cs out
            ∙ skip_step (c == d) (has_candidate c cs) (look t c) (Map.get c out) st
                (λ b. ap (λ x. Map.get x out) ((==_iff c d).0 b) ∙ e))
  ]

  get-resolve_epochs :
      (s : QuerySession db) (c : ℕ) (cs : List ℕ) (ts : List EpochTarget)
      (out : List (ℕ × QrStatus))
      → Map.get c (resolve_epochs db s cs ts out) ≡ (
          if has_candidate c cs
          then or_else (Map.get c out) (first_hit db s EpochDb.qr_pair (λ t. look t c) ts)
          else Map.get c out)
  unfolding resolve_epochs first_hit
  get-resolve_epochs s c cs [] out = last_step (has_candidate c cs) (Map.get c out)
  get-resolve_epochs s c cs (t ∷ ts) out =
      get-resolve_epochs s c cs ts (batch_resolve_epoch db (dbs_of db s t EpochDb.qr_pair) cs out)
      ∙ rw (get-batch_resolve_epoch c (dbs_of db s t EpochDb.qr_pair) cs out) (
          epoch_step (has_candidate c cs) (Map.get c out) (look (dbs_of db s t EpochDb.qr_pair) c)
            (first_hit db s EpochDb.qr_pair (λ u. look u c) ts))

  -- After the pass that opens each epoch once, each candidate of the batch has the status that
  -- looking it up alone gives, in flight first and then in the first epoch that has it, and no
  -- other request has one.
  pub get-batch_statuses :
      (s : QuerySession db) (c : ℕ) (cs : List ℕ)
      → Map.get c (batch_statuses db s cs) ≡ (if has_candidate c cs then status_of s c else none)
  unfolding batch_statuses Map.get
  get-batch_statuses s c cs =
      get-resolve_epochs s c cs s.all_targets (live_statuses db s.live_qr_pair cs [])
      ∙ rw (get-live_statuses c s.live_qr_pair cs []) (
          start_step (has_candidate c cs) (look s.live_qr_pair c)
            (first_hit db s EpochDb.qr_pair (λ u. look u c) s.all_targets))
