-- ===== src/Meta/Line.antt =====
-- src/meta.rs: the request line of HTTP, and which rule a connection is bound to.
use sov_vault.Base.{
  ℕ, ◌+◌, ◌<◌, ◌≡◌, ◌≢◌, ◌∙◌, ◌↔◌, refl, sym, ap, subst, false, ◌&&◌, List, [], ◌∷◌, ◌++◌, none,
  some, ◌⊎◌, if◌then◌else◌, arith, length, ◌==◌, Bool-cases, inl, inr,
}
use sov_vault.Matcher.Types.{take}
use sov_vault.Connection.Signed.{pos}
use sov_vault.Meta.{from_fingerprint}
use sov_vault.Meta.Extract.{first_line, strip_cr, http_request_line}
use sov_vault.Meta.Registry.{
  MetaBind, MetaBindRule, rule_of, rules_from, from_binds, matches, resolve,
}

-- No byte is a line feed.
abbrev pub IsLine : List ℕ → Type 0
IsLine [] = Unit {0}
IsLine (b ∷ bs) = (b ≢ b'\n') × IsLine bs

first_line-append :
    (line rest : List ℕ)
    → IsLine line
    → first_line (line ++ (b'\r' ∷ b'\n' ∷ rest)) ≡ line ++ b'\r' ∷ []
unfolding first_line
first_line-append [] rest h = refl
first_line-append (b ∷ bs) rest h = ground (arith, first_line-append bs rest h.1)

strip_cr-append : (line : List ℕ) → strip_cr (line ++ b'\r' ∷ []) ≡ line
unfolding strip_cr
strip_cr-append [] = refl
strip_cr-append (b ∷ []) = refl
strip_cr-append (b ∷ c ∷ bs) = ap (λ x. b ∷ x) (strip_cr-append (c ∷ bs))

-- after
pub http_request_line-line :
    (line rest : List ℕ)
    → IsLine line
    → 0 < length line
    → http_request_line (line ++ (b'\r' ∷ b'\n' ∷ rest)) ≡ some (take 256 line)
unfolding http_request_line take
http_request_line-line [] rest h p = absurd (omega arith)
http_request_line-line (b ∷ bs) rest h p =
    rw (first_line-append (b ∷ bs) rest h) (rw (strip_cr-append (b ∷ bs)) (ground arith))

-- None of the bindings is for a protocol and port.
abbrev pub NoneFor : ℕ → ℕ → List MetaBind → Type 0
NoneFor proto dst_port [] = Unit {0}
NoneFor proto dst_port (b ∷ bs) =
    (((b.proto == proto) && (b.dst_port == dst_port)) ≡ false) × NoneFor proto dst_port bs

-- The first of the bindings for a protocol and port, and how many stand before it.
abbrev pub FirstFor : ℕ → ℕ → List MetaBind → ℕ → MetaBind → Type 0
FirstFor proto dst_port binds i b =
    (before : List MetaBind) × (later : List MetaBind) × (binds ≡ before ++ b ∷ later)
    × (length before ≡ i)
    × NoneFor proto dst_port before
    × (b.proto ≡ proto)
    × (b.dst_port ≡ dst_port)

-- The rule of a binding before which `i` others stand.
pub record IsRuleOf (i : ℕ) (b : MetaBind) (rule : MetaBindRule) : Type 0 where
  pub id : rule.id ≡ pos (i + 1)
  pub name : rule.name ≡ b.name
  pub proto : rule.proto ≡ b.proto
  pub dst_port : rule.dst_port ≡ b.dst_port
  pub fingerprint : rule.fingerprint ≡ from_fingerprint b.fingerprint
  pub extractor :
      ((b.extractor ≡ []) × (rule.extractor ≡ none))
      ⊎ ((b.extractor ≢ []) × (rule.extractor ≡ some b.extractor))

nil-or :
    (xs : List ℕ)
    → ((xs ≡ []) × ((if length xs == 0 then none else some xs) ≡ none))
      ⊎ ((xs ≢ []) × ((if length xs == 0 then none else some xs) ≡ some xs))
nil-or [] = inl (refl, refl)
nil-or (x ∷ xs) = inr (λ e. absurd (ground arith), ground arith)

rule_of-IsRuleOf : (i : ℕ) (b : MetaBind) → IsRuleOf i b (rule_of i b)
unfolding rule_of
rule_of-IsRuleOf i b = record {
  id = refl;
  name = refl;
  proto = refl;
  dst_port = refl;
  fingerprint = refl;
  extractor = nil-or b.extractor;
}

IsRuleOf-rule_of :
    (i : ℕ) (b : MetaBind) (rule : MetaBindRule) → IsRuleOf i b rule → rule ≡ rule_of i b
unfolding rule_of
IsRuleOf-rule_of i b rule h = λ t. record {
  id = h.id t;
  name = h.name t;
  proto = h.proto t;
  dst_port = h.dst_port t;
  fingerprint = h.fingerprint t;
  extractor = extracted t;
}
  where
    extracted : rule.extractor ≡ (if length b.extractor == 0 then none else some b.extractor)
    extracted = elim h.extractor [
      | inl (empty, e) ↦ rw (empty, e) refl
      | inr (full, e) ↦ elim (nil-or b.extractor) [
        | inl (empty, f) ↦ absurd (full empty)
        | inr (g, f) ↦ e ∙ sym f
      ]
    ]

resolve-rules_from :
    (proto dst_port i : ℕ) (binds : List MetaBind) (rule : MetaBindRule)
    → resolve proto dst_port (rules_from i binds) ≡ some rule
    → (b : MetaBind) × (j : ℕ) × FirstFor proto dst_port binds j b × (rule ≡ rule_of (i + j) b)
unfolding resolve rules_from matches rule_of
resolve-rules_from proto dst_port i [] rule h = absurd (ground arith)
resolve-rules_from proto dst_port i (b ∷ bs) rule h =
    elim (Bool-cases ((b.proto == proto) && (b.dst_port == dst_port))) [
      | inl hit ↦ (b, 0, ([], bs, refl, refl, record {}, ground arith, ground arith), ground arith)
      | inr miss ↦
          let found = resolve-rules_from proto dst_port (i + 1) bs rule (ground arith) in
          let (c, j, first, same) = found in
          let (before, later, e, n, others, p, q) = first in
          (
            c,
            j + 1,
            (b ∷ before, later, ap (λ x. b ∷ x) e, omega (arith, n), (miss, others), p, q),
            same ∙ ap (λ x. rule_of x c) (omega arith),
          )
    ]

rules_from-resolve :
    (proto dst_port i : ℕ) (before later : List MetaBind) (b : MetaBind)
    → NoneFor proto dst_port before
    → b.proto ≡ proto
    → b.dst_port ≡ dst_port
    → resolve proto dst_port (rules_from i (before ++ b ∷ later))
      ≡ some (rule_of (i + length before) b)
unfolding resolve rules_from matches rule_of
rules_from-resolve proto dst_port i [] later b others p q = ground arith
rules_from-resolve proto dst_port i (c ∷ before) later b (miss, others) p q = rw miss (
    rules_from-resolve proto dst_port (i + 1) before later b others p q
    ∙ ap (λ x. some (rule_of x b)) (omega arith))

-- The registry built from the configuration resolves a protocol and port to a rule exactly when
-- that rule has the name, protocol and port of the first binding for them, the kind of its
-- fingerprint, its extractor unless that is empty, and as id the binding's place counted from one.
pub resolve-from_binds_iff :
    (proto dst_port : ℕ) (binds : List MetaBind) (rule : MetaBindRule)
    → (resolve proto dst_port (from_binds binds) ≡ some rule)
      ↔ ((b : MetaBind) × (i : ℕ) × FirstFor proto dst_port binds i b × IsRuleOf i b rule)
unfolding from_binds
resolve-from_binds_iff proto dst_port binds rule = (
  λ h.
      let (b, j, first, same) = resolve-rules_from proto dst_port 0 binds rule h in
      let at_j : rule ≡ rule_of j b = same ∙ ap (λ x. rule_of x b) (omega arith) in
      (b, j, first, subst (IsRuleOf j b) (sym at_j) (rule_of-IsRuleOf j b)),
  λ (b, i, first, is_rule).
      let (before, later, e, n, others, p, q) = first in
      rw e (
        rules_from-resolve proto dst_port 0 before later b others p q
        ∙ ap some
            (ap (λ x. rule_of x b) (omega (arith, n)) ∙ sym (IsRuleOf-rule_of i b rule is_rule))),
)
