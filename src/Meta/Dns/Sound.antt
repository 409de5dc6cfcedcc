-- ===== src/Meta/Dns/Sound.antt =====
-- src/meta.rs: what dns_qname returns, and the labels of the query.
use Prim.Native.Nat.{bit_and}
use sov_vault.Base.{
  ℕ, zero, suc, ◌+◌, ◌≤◌, ◌<◌, ◌≡◌, ◌∙◌, ◌↔◌, refl, sym, ap, Bool, true, false, not, ◌||◌,
  split_at?, List, [], ◌∷◌, ◌++◌, Option, none, some, arith, length, length-append, ltb, ◌==◌,
  if◌then◌else◌, Bool-cases, inl, inr, append_assoc, Option-cases,
}
use sov_vault.Meta.{is_dns_header}
use sov_vault.Meta.Reads.{split_at?-none, split_at?-parts, byte_at-some, slice-some}
use sov_vault.Meta.Extract.{slice, byte_at, scan_labels, dns_qname, ◌>>=◌}
use sov_vault.Meta.Dns.{
  dns_qname-query, joined_nil, labels_bytes, AreLabels, dotted, joined, with_dot,
}

bind-some {ℓ κ} :
    {A : Type ℓ} {B : Type κ} (m : Option A) {f : A → Option (Option B)} {k : B}
    → m >>= f ≡ some (some k)
    → (a : A) × (m ≡ some a) × (f a ≡ some (some k))
bind-some none h = absurd (ground arith)
bind-some (some a) h = (a, refl, h)

-- A guard that ends with nothing found was not met.
guard-some {ℓ} :
    {B : Type ℓ} (c : Bool) {y : Option (Option B)} {k : B}
    → (if c then some none else y) ≡ some (some k)
    → (c ≡ false) × (y ≡ some (some k))
guard-some true h = absurd (ground arith)
guard-some false h = (refl, h)

-- The labels from `rem` on, and what is out after them.
abbrev Reads : List ℕ → List ℕ → List ℕ → Type 0
Reads rem out k =
    (ls : List (List ℕ)) × (rest : List ℕ) × (rem ≡ labels_bytes ls ++ rest)
    × AreLabels ls
    × (k ≡ joined out ls)

out_of :
    (out k : List ℕ)
    → some (if length out == 0 then none else some out) ≡ some (some k)
    → (k ≡ out) × (0 < length out)
out_of out k h = ground arith

scan_labels-some :
    (fuel : ℕ) (payload : List ℕ) (o : ℕ) (out pre rem k : List ℕ)
    → payload ≡ pre ++ rem
    → o ≡ length pre
    → length out ≤ 255
    → scan_labels fuel payload o out ≡ some (some k)
    → Reads rem out k × (0 < length k) × (length k ≤ 255)
unfolding scan_labels
scan_labels-some zero payload o out pre rem k e p b h = absurd (ground arith)
scan_labels-some (suc fuel) payload o out pre rem k e p b h =
    let (l, e1, s1) = bind-some (byte_at o payload) h in
    let (after, e2) = byte_at-some o payload pre rem e p l e1 in
    elim (Bool-cases (l == 0)) [
      | inl end ↦
          let (same, full) = out_of out k (rw end at s1) in
          let none_left : rem ≡ 0 ∷ after = e2 ∙ ap (λ x. x ∷ after) (ground arith) in
          (([], after, none_left, record {}, same), rw same full, rw same b)
      | inr more ↦
          let (c1, s2) = guard-some (bit_and l 0xC0 == 0xC0) (rw more at s1) in
          let (c2, s3) = guard-some (ltb 63 l) s2 in
          let (label, e3, s4) = bind-some (slice (o + 1) l payload) s3 in
          let out' = with_dot out ++ label in
          let (c4, s5) = guard-some (ltb 255 (length out')) s4 in
          let here : payload ≡ (pre ++ l ∷ []) ++ after =
            e ∙ ap (λ x. pre ++ x) e2 ∙ sym (append_assoc pre (l ∷ []) after) in
          let next : o + 1 ≡ length (pre ++ l ∷ []) = omega (arith, length-append pre (l ∷ [])) in
          let (rest, e4, n) =
            slice-some (o + 1) payload (pre ++ l ∷ []) after here next l label e3 in
          let ih =
            scan_labels-some fuel payload (o + 1 + l) out' ((pre ++ l ∷ []) ++ label) rest k
              (here
                ∙ ap (λ x. (pre ++ l ∷ []) ++ x) e4
                ∙ sym (append_assoc (pre ++ l ∷ []) label rest))
              (omega (arith, length-append (pre ++ l ∷ []) label, next, n)) (ground arith) s5 in
          let (ls, tail, e5, are, ke) = ih.0 in
          (
            (
              label ∷ ls,
              tail,
              e2
                  ∙ ap (λ x. l ∷ x)
                      (e4
                        ∙ ap (λ x. label ++ x) e5
                        ∙ sym (append_assoc label (labels_bytes ls) tail))
                  ∙ ap (λ x. x ∷ ((label ++ labels_bytes ls) ++ tail)) (sym n),
              (ground arith, ground arith, are),
              ke,
            ),
            ih.1,
            ih.2,
          )
    ]

-- A name with dots as the query writes it behind its header: labels of 1 to 63 bytes, then a zero.
abbrev pub Asks : List ℕ → List ℕ → Type 0
Asks payload k =
    (header : List ℕ) × (ls : List (List ℕ)) × (rest : List ℕ) × (payload
      ≡ header ++ (labels_bytes ls ++ rest))
    × (length header ≡ 12)
    × AreLabels ls
    × (0 < length ls)
    × (k ≡ dotted ls)
    × (length k ≤ 255)

Reads-joined :
    (rem k : List ℕ)
    → Reads rem [] k
    → 0 < length k
    → (ls : List (List ℕ)) × (rest : List ℕ) × (rem ≡ labels_bytes ls ++ rest)
      × AreLabels ls
      × (0 < length ls)
      × (k ≡ dotted ls)
Reads-joined rem k ([], rest, e, h, same) p = let q = rw same at p in absurd (omega arith)
Reads-joined rem k (l ∷ ls, rest, e, h, same) p =
    (l ∷ ls, rest, e, h, omega arith, same ∙ joined_nil (l ∷ ls) h (omega arith))

dns_qname-Asks :
    (payload k : List ℕ)
    → dns_qname payload ≡ some (some k)
    → (is_dns_header payload ≡ true) × Asks payload k
unfolding dns_qname
dns_qname-Asks payload k h =
    let (c, scanned) = guard-some (not (is_dns_header payload) || ltb (length payload) 12) h in
    elim (Option-cases (split_at? 12 payload)) [
      | inl e ↦ absurd (ground (arith, split_at?-none 12 payload e))
      | inr ((header, rem), e) ↦
          let (parts, n) = split_at?-parts 12 payload header rem e in
          let found =
            scan_labels-some (length payload) payload 12 [] header rem k parts (sym n) (omega arith)
              scanned in
          let (ls, rest, e2, are, some_label, same) = Reads-joined rem k found.0 found.1 in
          (
            ground arith,
            (header, ls, rest, parts ∙ ap (λ x. header ++ x) e2, n, are, some_label, same, found.2),
          )
    ]

-- The code returns a name from a payload exactly when its header is that of DNS and, behind the 12
-- bytes of the header, the payload has labels of 1 to 63 bytes each, at least one, and a zero
-- byte, and the name is these labels with dots between them, at most 255 bytes long.
pub dns_qname_iff :
    (payload k : List ℕ)
    → (dns_qname payload ≡ some (some k)) ↔ ((is_dns_header payload ≡ true) × Asks payload k)
dns_qname_iff payload k = (
  dns_qname-Asks payload k,
  λ (head, asked).
      let (header, ls, rest, e, n, are, some_label, same, b) = asked in
      rw (e, same) (dns_qname-query header ls rest n (rw e at head) are some_label (rw same at b)),
)
