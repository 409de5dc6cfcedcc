-- ===== src/Matcher/Answered.antt =====
-- src/qr.rs: the row of a request before and after its answer, field by field.
use sov_vault.Base.{
  ℕ, ◌+◌, ◌-◌, ◌/◌, ◌^◌, min, ◌≡◌, ◌≢◌, refl, sym, subst, ◌↔◌, ◌⊎◌, inl, inr, Bool, true, false,
  List, [], ◌∷◌, ◌++◌, some, arith, Bool-cases, if◌then◌else◌,
}
use sov_vault.Db.Pair.{QrPairValue, QrStatus, from_u8, to_u8}
use sov_vault.Matcher.Types.{IndexedRecord, idx, PendingHit, req_key_of}
use sov_vault.Matcher.Terminal.{answer, contains, push_all}

-- A request with this locator is among the hits.
abbrev pub Among : ℕ → List PendingHit → Type 0
Among q [] = ⊥
Among q (hit ∷ hits) = (q ≡ hit.q_first_idx) ⊎ Among q hits

-- A locator stands in the list.
abbrev pub Listed : ℕ → List ℕ → Type 0
Listed q [] = ⊥
Listed q (x ∷ xs) = (q ≡ x) ⊎ Listed q xs

-- The row before and after the answer `r`; `before` are the requests of the batch that were answered
-- before this one, `others` those that come after it.
pub record IsReply (r : IndexedRecord) (before others : List PendingHit) (pair pair' : QrPairValue)
    : Type 0 where
  pub status : from_u8 pair'.status ≡ some QrStatus.matched
  pub answered_at : pair'.r_ts ≡ r.rec.timestamp_ns
  pub latency : pair'.latency_ms ≡ (r.rec.timestamp_ns - pair.q_ts) / 1_000_000
  pub length_added : pair'.r_len ≡ min (pair.r_len + r.rec.orig_payload_len) (2 ^ 32 - 1)
  pub located : pair'.r_idx ≡ pair.r_idx ++ idx r ∷ []
  pub same_conn : pair'.conn_hash ≡ pair.conn_hash
  pub same_request :
      (pair'.q_ts ≡ pair.q_ts)
      × (pair'.q_len ≡ pair.q_len)
      × (pair'.abs_q_seq ≡ pair.abs_q_seq)
      × (pair'.abs_q_end ≡ pair.abs_q_end)
      × (pair'.pseudo ≡ pair.pseudo)
      × (pair'.req_key ≡ pair.req_key)
  pub first_takes :
      before ≡ []
      → (pair'.resp_key ≡ req_key_of r.rec)
        × ((q : ℕ) → Listed q pair'.q_idx ↔ (Listed q pair.q_idx ⊎ Among q others))
  pub later_keeps : before ≢ [] → (pair'.resp_key ≡ pair.resp_key) × (pair'.q_idx ≡ pair.q_idx)

contains_iff : (q : ℕ) (xs : List ℕ) → (contains q xs ≡ true) ↔ Listed q xs
unfolding contains
contains_iff q [] = ground arith
contains_iff q (x ∷ xs) = ground (arith, contains_iff q xs)

Listed-append : (q x : ℕ) (ys : List ℕ) → Listed q (ys ++ x ∷ []) ↔ (Listed q ys ⊎ (q ≡ x))
Listed-append q x [] = ground arith
Listed-append q x (y ∷ ys) = ground (arith, Listed-append q x ys)

-- Each locator of the hits is pushed, unless it is there already.
Listed-push_all :
    (q : ℕ) (hits : List PendingHit) (ys : List ℕ)
    → Listed q (push_all hits ys) ↔ (Listed q ys ⊎ Among q hits)
unfolding push_all
Listed-push_all q [] ys = (λ h. inl h, λ h. elim h [ inl e ↦ e | inr e ↦ absurd e ])
Listed-push_all q (hit ∷ hits) ys =
    let x = hit.q_first_idx in
    elim (Bool-cases (contains x ys)) [
      | inl old ↦
          let rest = Listed-push_all q hits ys in
          let there = (contains_iff x ys).0 old in
          rw old (
            λ h. elim (rest.0 h) [ inl e ↦ inl e | inr a ↦ inr (inr a) ],
            λ h. elim h [
              | inl e ↦ rest.1 (inl e)
              | inr (inl e) ↦ rest.1 (inl (subst (λ (z : ℕ). Listed z ys) (sym e) there))
              | inr (inr a) ↦ rest.1 (inr a)
            ],
          )
      | inr fresh ↦
          let rest = Listed-push_all q hits (ys ++ x ∷ []) in
          let pushed = Listed-append q x ys in
          rw fresh (
            λ h. elim (rest.0 h) [
              | inl e ↦ elim (pushed.0 e) [ inl old ↦ inl old | inr now ↦ inr (inl now) ]
              | inr a ↦ inr (inr a)
            ],
            λ h. elim h [
              | inl e ↦ rest.1 (inl (pushed.1 (inl e)))
              | inr (inl e) ↦ rest.1 (inl (pushed.1 (inr e)))
              | inr (inr a) ↦ rest.1 (inr a)
            ],
          )
    ]

abbrev pub is_nil : List PendingHit → Bool
is_nil [] = true
is_nil (hit ∷ hits) = false

pub answer-IsReply :
    (r : IndexedRecord) (before others : List PendingHit) (pair : QrPairValue)
    → IsReply r before others pair (answer r (is_nil before) others pair)
unfolding answer to_u8 from_u8
answer-IsReply r before others pair = record {
  status = refl;
  answered_at = refl;
  latency = refl;
  length_added = refl;
  located = refl;
  same_conn = refl;
  same_request = (refl, refl, refl, refl, refl, refl);
  first_takes = λ e. rw e (refl, λ q. Listed-push_all q others pair.q_idx);
  later_keeps = λ e. later before e;
}
  where
    later :
        (hits : List PendingHit)
        → hits ≢ []
        → ((if is_nil hits then req_key_of r.rec else pair.resp_key) ≡ pair.resp_key)
          × ((if is_nil hits then push_all others pair.q_idx else pair.q_idx) ≡ pair.q_idx)
    later [] n = absurd (n refl)
    later (hit ∷ hits) n = (refl, refl)
