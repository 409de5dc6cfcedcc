-- ===== src/Meta/Registry.antt =====
-- src/meta.rs: MetaRegistry, the rules of the configuration and what they bind a connection to. Its
-- methods fill the interface that the engine of src/qr.rs asks.
use sov_vault.Base.{
  ℕ, zero, suc, ◌+◌, Bool, ◌&&◌, List, [], ◌∷◌, Option, none, some, length, ◌==◌, if◌then◌else◌,
}
use sov_vault.Connection.Signed.{ℤ, pos, negsuc}
use sov_vault.Matcher.Types.{Binding, MetaRegistry}
use sov_vault.Meta.{
  ProtocolKind, to_u8, from_u8, from_fingerprint, Floats, detect_protocol, fingerprint,
}
use sov_vault.Meta.Extract.{extract_key}

-- A binding in the configuration (src/config.rs).
pub record MetaBind : Type 0 where
  pub name : List ℕ
  pub proto : ℕ
  pub dst_port : ℕ
  pub fingerprint : List ℕ
  pub extractor : List ℕ

pub record MetaBindRule : Type 0 where
  pub id : ℤ
  pub name : List ℕ
  pub proto : ℕ
  pub dst_port : ℕ
  pub fingerprint : Option ProtocolKind
  pub extractor : Option (List ℕ)

unfoldable pub rule_of : ℕ → MetaBind → MetaBindRule
unfolding from_fingerprint
rule_of i b = record {
  id = pos (i + 1);
  name = b.name;
  proto = b.proto;
  dst_port = b.dst_port;
  fingerprint = from_fingerprint b.fingerprint;
  extractor = if length b.extractor == 0 then none else some b.extractor;
}

-- The rules of the bindings from the `i`-th on.
unfoldable pub rules_from : ℕ → List MetaBind → List MetaBindRule
unfolding rule_of
rules_from i [] = []
rules_from i (b ∷ bs) = rule_of i b ∷ rules_from (i + 1) bs

unfoldable pub from_binds : List MetaBind → List MetaBindRule
unfolding rules_from
from_binds binds = rules_from 0 binds

unfoldable pub set_rule_id : ℕ → ℤ → List MetaBindRule → List MetaBindRule
set_rule_id i id [] = []
set_rule_id zero id (r ∷ rules) = record r { id = id } ∷ rules
set_rule_id (suc i) id (r ∷ rules) = r ∷ set_rule_id i id rules

unfoldable pub matches : ℕ → ℕ → MetaBindRule → Bool
matches proto dst_port r = (r.proto == proto) && (r.dst_port == dst_port)

unfoldable pub resolve : ℕ → ℕ → List MetaBindRule → Option MetaBindRule
unfolding matches
resolve proto dst_port [] = none
resolve proto dst_port (r ∷ rules) =
    let rest = resolve proto dst_port rules in if matches proto dst_port r then some r else rest

module _ (floats : Floats) where
  -- `rule.fingerprint.unwrap_or_else(|| detect_protocol(payload, dst_port))`.
  unfoldable pub kind_of : List ℕ → ℕ → Option ProtocolKind → ProtocolKind
  unfolding detect_protocol
  kind_of payload dst_port none = detect_protocol floats payload dst_port
  kind_of payload dst_port (some kind) = kind

  abbrev pub bound : ℤ → ProtocolKind → Option (List ℕ × Bool) → Option Binding
  bound id kind none = none
  bound id kind (some (key, pseudo)) =
      some (record { meta_bind_id = id; protocol_hint = to_u8 kind; key = key; pseudo = pseudo })

  unfoldable pub bind_and_extract : List MetaBindRule → List ℕ → ℕ → ℕ → Option Binding
  unfolding resolve kind_of extract_key to_u8
  bind_and_extract rules payload proto dst_port = elim (resolve proto dst_port rules) [
    | some rule ↦
        let kind = kind_of payload dst_port rule.fingerprint in
        bound rule.id kind (extract_key payload kind)
    | none ↦
        let kind = detect_protocol floats payload dst_port in
        bound (negsuc 0) kind (extract_key payload kind)
  ]

  -- What the engine holds.
  unfoldable pub registry : List MetaBindRule → MetaRegistry
  unfolding bind_and_extract extract_key from_u8 fingerprint to_u8
  registry rules = record {
    bind_and_extract = bind_and_extract rules;
    extract_key = λ payload hint. extract_key payload (from_u8 hint);
    fingerprint = fingerprint floats;
    unknown = to_u8 ProtocolKind.unknown;
  }
