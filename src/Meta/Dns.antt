-- ===== src/Meta/Dns.antt =====
-- src/meta.rs: dns_qname on the name of a query that is written as RFC 1035 has it.
pub mod Sound
use Prim.Native.Nat.{bit_and}
use sov_vault.Base.{
  ℕ, zero, suc, ◌+◌, ◌≤◌, ◌<◌, ◌≡◌, ◌∙◌, refl, sym, ap, subst, Bool, true, false, not, ◌&&◌, ◌||◌,
  List, [], ◌∷◌, ◌++◌, Option, none, some, arith, length, length-append, ltb, leb, ◌==◌,
  if◌then◌else◌, Bool-cases, inl, inr, append_assoc, append-nil,
}
use sov_vault.Meta.{is_dns_header}
use sov_vault.Meta.Reads.{byte_at-append, slice-append}
use sov_vault.Meta.Extract.{slice, byte_at, scan_labels, dns_qname, ◌>>=◌}

-- The labels of a name as a query has them.
abbrev pub labels_bytes : List (List ℕ) → List ℕ
labels_bytes [] = 0 ∷ []
labels_bytes (l ∷ ls) = length l ∷ (l ++ labels_bytes ls)

-- The name with dots.
abbrev pub dotted : List (List ℕ) → List ℕ
dotted [] = []
dotted (l ∷ []) = l
dotted (l ∷ m ∷ ls) = l ++ (b'.' ∷ dotted (m ∷ ls))

-- Labels have between one and 63 bytes.
abbrev pub AreLabels : List (List ℕ) → Type 0
AreLabels [] = Unit {0}
AreLabels (l ∷ ls) = (0 < length l) × (length l ≤ 63) × AreLabels ls

abbrev with_dot : List ℕ → List ℕ
with_dot out = if length out == 0 then [] else out ++ b'.' ∷ []

-- What is out after further labels.
abbrev joined : List ℕ → List (List ℕ) → List ℕ
joined out [] = out
joined out (l ∷ ls) = joined (with_dot out ++ l) ls

plain_below : ℕ → Bool
plain_below zero = true
plain_below (suc n) = not (bit_and n 0xC0 == 0xC0) && plain_below n

plain_below-at : (n l : ℕ) → plain_below n ≡ true → l < n → (bit_and l 0xC0 == 0xC0) ≡ false
unfolding plain_below
plain_below-at zero l h lt = absurd (omega arith)
plain_below-at (suc n) l h lt = ground (arith, plain_below-at n l)

-- A length of at most 63 is no compression pointer.
plain : (l : ℕ) → l ≤ 63 → (bit_and l 0xC0 == 0xC0) ≡ false
unfolding plain_below
plain l h = plain_below-at 64 l refl (omega arith)

length-joined : (out : List ℕ) (ls : List (List ℕ)) → length out ≤ length (joined out ls)
length-joined out [] = omega arith
length-joined out (l ∷ ls) =
    let ih = length-joined (with_dot out ++ l) ls in
    ground (arith, length-append (with_dot out) l, length-append out (b'.' ∷ []))

scan_labels-joined :
    (fuel : ℕ) (payload : List ℕ) (o : ℕ) (out pre rest : List ℕ) (ls : List (List ℕ))
    → length ls < fuel
    → payload ≡ pre ++ (labels_bytes ls ++ rest)
    → o ≡ length pre
    → AreLabels ls
    → length (joined out ls) ≤ 255
    → 0 < length (joined out ls)
    → scan_labels fuel payload o out ≡ some (some (joined out ls))
unfolding scan_labels
scan_labels-joined zero payload o out pre rest ls f e p h b n = absurd (omega arith)
scan_labels-joined (suc fuel) payload o out pre rest [] f e p h b n =
    let at : byte_at o payload ≡ some 0 = rw e (byte_at-append o pre rest 0 p) in ground (arith, at)
scan_labels-joined (suc fuel) payload o out pre rest (l ∷ ls) f e p h b n =
    let at : byte_at o payload ≡ some (length l) =
      rw e (byte_at-append o pre ((l ++ labels_bytes ls) ++ rest) (length l) p) in
    let label : slice (o + 1) (length l) payload ≡ some l = rw e (
      subst (λ (x : List ℕ). slice (o + 1) (length l) x ≡ some l) (sym split)
        (slice-append (o + 1) (length l) (pre ++ length l ∷ []) l (labels_bytes ls ++ rest) next
          refl)) in
    let ih =
      scan_labels-joined fuel payload (o + 1 + length l) (with_dot out ++ l)
        ((pre ++ length l ∷ []) ++ l) rest ls (omega arith)
        (e ∙ split ∙ sym (append_assoc (pre ++ length l ∷ []) l (labels_bytes ls ++ rest)))
        (omega (arith, length-append (pre ++ length l ∷ []) l, next)) h.2 b n in
    let small = length-joined (with_dot out ++ l) ls in
    rw (at, ◌>>=◌) (ground (arith, label, ih, plain (length l)))
  where
    next : o + 1 ≡ length (pre ++ length l ∷ [])
    next = omega (arith, length-append pre (length l ∷ []))

    split :
        pre ++ (labels_bytes (l ∷ ls) ++ rest)
        ≡ (pre ++ length l ∷ []) ++ (l ++ (labels_bytes ls ++ rest))
    split =
        ap (λ t. pre ++ (length l ∷ t)) (append_assoc l (labels_bytes ls) rest)
        ∙ sym (append_assoc pre (length l ∷ []) (l ++ (labels_bytes ls ++ rest)))

with_dot_lem : (out l : List ℕ) → 0 < length out → with_dot out ++ l ≡ out ++ (b'.' ∷ l)
with_dot_lem [] l p = absurd (omega arith)
with_dot_lem (x ∷ xs) l p = ground (arith, append_assoc (x ∷ xs) (b'.' ∷ []) l)

joined-dotted :
    (out l : List ℕ) (ls : List (List ℕ))
    → 0 < length out
    → joined out (l ∷ ls) ≡ out ++ (b'.' ∷ dotted (l ∷ ls))
joined-dotted out l [] p = with_dot_lem out l p
joined-dotted out l (m ∷ ms) p =
    let D : List ℕ = b'.' ∷ dotted (m ∷ ms) in
    let longer : 0 < length (with_dot out ++ l) =
      rw (with_dot_lem out l p) (omega (arith, length-append out (b'.' ∷ l))) in
    joined-dotted (with_dot out ++ l) m ms longer
    ∙ ap (λ x. x ++ D) (with_dot_lem out l p)
    ∙ append_assoc out (b'.' ∷ l) D

pub joined_nil : (ls : List (List ℕ)) → AreLabels ls → 0 < length ls → joined [] ls ≡ dotted ls
joined_nil [] h p = absurd (omega arith)
joined_nil (l ∷ []) h p = refl
joined_nil (l ∷ m ∷ ms) h p = joined-dotted l m ms h.0

length-dotted : (ls : List (List ℕ)) → AreLabels ls → 0 < length ls → 0 < length (dotted ls)
length-dotted [] h p = absurd (omega arith)
length-dotted (l ∷ []) h p = h.0
length-dotted (l ∷ m ∷ ms) h p = omega (arith, length-append l (b'.' ∷ dotted (m ∷ ms)), h.0)

length-labels_bytes : (ls : List (List ℕ)) → length ls < length (labels_bytes ls)
length-labels_bytes [] = omega arith
length-labels_bytes (l ∷ ls) =
    omega (arith, length-append l (labels_bytes ls), length-labels_bytes ls)

header_known :
    (payload : List ℕ)
    → is_dns_header payload ≡ true
    → 12 ≤ length payload
    → (not (is_dns_header payload) || ltb (length payload) 12) ≡ false
header_known payload h n = ground arith

module _ (header : List ℕ) (ls : List (List ℕ)) (rest : List ℕ) where
  pub dns_qname-query :
      length header ≡ 12
      → is_dns_header (header ++ (labels_bytes ls ++ rest)) ≡ true
      → AreLabels ls
      → 0 < length ls
      → length (dotted ls) ≤ 255
      → dns_qname (header ++ (labels_bytes ls ++ rest)) ≡ some (some (dotted ls))
  unfolding dns_qname
  dns_qname-query n head h p b =
      let payload = header ++ (labels_bytes ls ++ rest) in
      let e = joined_nil ls h p in
      let enough : length ls < length payload = omega (
        arith,
        length-append header (labels_bytes ls ++ rest),
        length-append (labels_bytes ls) rest,
        length-labels_bytes ls,
      ) in
      let scanned =
        scan_labels-joined (length payload) payload 12 [] header rest ls enough refl (sym n) h
          (rw e b) (rw e (length-dotted ls h p)) in
      let all : length payload ≡ length header + length (labels_bytes ls ++ rest) =
        length-append header (labels_bytes ls ++ rest) in
      let known : (not (is_dns_header payload) || ltb (length payload) 12) ≡ false =
        header_known payload head (omega (arith, all)) in
      rw (dns_qname, known) (scanned ∙ ap (λ x. some (some x)) e)
