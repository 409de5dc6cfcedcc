-- ===== src/Meta/Panic.antt =====
-- src/meta.rs under src/qr.rs: for which payloads the registry lets the engine return.
use sov_vault.Base.{
  ℕ, ◌%◌, ◌≤◌, ◌<◌, ◌≡◌, ◌↔◌, ◌⊎◌, refl, true, List, none, some, arith, length, Option-cases, inl,
  inr,
}
use sov_vault.Connection.Signed.{ℤ, negsuc, is_negative}
use sov_vault.Connection.State.{ConnState}
use sov_vault.Store.{Lmdb}
use sov_vault.Matcher.Types.{IndexedRecord, MetaRegistry, Masks}
use sov_vault.Matcher.Engine.{bind_request}
use sov_vault.Matcher.Rows.{Matcher}
use sov_vault.Matcher.Ingest.{open_q, ingest}
use sov_vault.Matcher.Total.{Answers, ingest-some}
use sov_vault.Meta.{ProtocolKind, from_u8, Floats, detect_protocol}
use sov_vault.Meta.Extract.{extract_key}
use sov_vault.Meta.Registry.{MetaBindRule, resolve, kind_of, bound, bind_and_extract, registry}
use sov_vault.Meta.Total.{extract_key_iff}

bound_iff :
    (floats : Floats) (id : ℤ) (payload : List ℕ) (kind : ProtocolKind)
    → (bound floats id kind (extract_key payload kind) ≡ none)
      ↔ ((kind ≡ ProtocolKind.tls) × (5 ≤ length payload) × (length payload < 9))
bound_iff floats id payload kind = elim (Option-cases (extract_key payload kind)) [
  | inl e ↦ rw e (λ stuck. (extract_key_iff payload kind).0 e, λ short. refl)
  | inr (key, e) ↦ rw e (
    λ stuck. absurd (ground arith),
    λ short. absurd (ground (arith, (extract_key_iff payload kind).1 short)),
  )
]

open_q-bind :
    (db : Lmdb) (masks : Masks) (reg : MetaRegistry) (h : ℕ) (r : IndexedRecord)
    (abs_start abs_end : ℕ) (st : ConnState) (m : Matcher db)
    → is_negative st.meta_bind_id ≡ true
    → (open_q db masks (some reg) h r abs_start abs_end (st, m) ≡ none)
      ↔ (reg.bind_and_extract r.rec.payload (r.rec.proto % 256) r.rec.dst_port ≡ none)
unfolding open_q bind_request
open_q-bind db masks reg h r abs_start abs_end st m new =
    elim (Option-cases (reg.bind_and_extract r.rec.payload (r.rec.proto % 256) r.rec.dst_port)) [
      | inl e ↦ rw (new, e) (λ stuck. refl, λ panics. refl)
      | inr (b, e) ↦ rw (new, e) (λ stuck. absurd (ground arith), λ panics. absurd (ground arith))
    ]

module _ (floats : Floats) (rules : List MetaBindRule) where
  -- The kind of protocol that a first payload is bound to.
  abbrev pub kind_bound : List ℕ → ℕ → ℕ → ProtocolKind
  kind_bound payload proto dst_port = elim (resolve proto dst_port rules) [
    | some rule ↦ kind_of floats payload dst_port rule.fingerprint
    | none ↦ detect_protocol floats payload dst_port
  ]

  pub bind_and_extract_iff :
      (payload : List ℕ) (proto dst_port : ℕ)
      → (bind_and_extract floats rules payload proto dst_port ≡ none) ↔ (
          (kind_bound payload proto dst_port ≡ ProtocolKind.tls)
          × (5 ≤ length payload)
          × (length payload < 9))
  unfolding bind_and_extract
  bind_and_extract_iff payload proto dst_port = elim (Option-cases (resolve proto dst_port rules)) [
    | inl e ↦
        rw (bind_and_extract, kind_bound, e)
          (bound_iff floats (negsuc 0) payload (detect_protocol floats payload dst_port))
    | inr (rule, e) ↦
        rw (bind_and_extract, kind_bound, e)
          (bound_iff floats rule.id payload (kind_of floats payload dst_port rule.fingerprint))
  ]

  registry-Answers :
      (payload : List ℕ)
      → (length payload < 5) ⊎ (9 ≤ length payload)
      → Answers (some (registry floats rules)) payload
  unfolding registry
  registry-Answers payload long = (
    λ proto dst_port. elim (Option-cases (bind_and_extract floats rules payload proto dst_port)) [
      | inr found ↦ found
      | inl stuck ↦ absurd (ground (arith, bind_and_extract_iff payload proto dst_port))
    ],
    λ hint. elim (Option-cases (extract_key payload (from_u8 hint))) [
      | inr found ↦ found
      | inl stuck ↦ absurd (ground (arith, extract_key_iff payload (from_u8 hint)))
    ],
  )

  module _ (db : Lmdb) (masks : Masks) where
    -- With the registry of any rules, ingest returns for every state, tables and packet whose
    -- payload has fewer than five bytes or more than eight: no unwrap, index or loop of the engine
    -- or of the extractors fails.
    pub ingest-registry :
        (r : IndexedRecord) (m : Matcher db)
        → (length r.rec.payload < 5) ⊎ (9 ≤ length r.rec.payload)
        → (m' : Matcher db) × (ingest db masks (some (registry floats rules)) r m ≡ some m')
    ingest-registry r m long =
        ingest-some db masks (some (registry floats rules)) r m
          (registry-Answers r.rec.payload long)

    -- For a connection that is not bound yet, opening a request panics exactly when its payload is
    -- taken for TLS, by a rule or by detection, and has five to eight bytes.
    pub open_q_iff :
        (h : ℕ) (r : IndexedRecord) (abs_start abs_end : ℕ) (st : ConnState) (m : Matcher db)
        → is_negative st.meta_bind_id ≡ true
        → (open_q db masks (some (registry floats rules)) h r abs_start abs_end (st, m) ≡ none) ↔ (
            (kind_bound r.rec.payload (r.rec.proto % 256) r.rec.dst_port ≡ ProtocolKind.tls)
            × (5 ≤ length r.rec.payload)
            × (length r.rec.payload < 9))
    unfolding registry
    open_q_iff h r abs_start abs_end st m new =
        let reg = registry floats rules in
        let (to, from) = open_q-bind db masks reg h r abs_start abs_end st m new in
        let (to', from') = bind_and_extract_iff r.rec.payload (r.rec.proto % 256) r.rec.dst_port in
        (λ stuck. to' (to stuck), λ short. from (from' short))
