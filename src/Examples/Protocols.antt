-- ===== src/Examples/Protocols.antt =====
-- Runs of the protocol registry of src/meta.rs on concrete payloads.
use sov_vault.Base.{
  ℕ, ◌+◌, ◌-◌, ◌*◌, ◌/◌, ◌≤◌, ◌<◌, ◌^◌, ◌≡◌, ◌↔◌, refl, true, inr, List, [], ◌∷◌, ◌++◌, none, some,
  arith, length, ltb,
}
use sov_vault.Store.Assoc.{assoc}
use sov_vault.Matcher.Types.{IndexedRecord}
use sov_vault.Matcher.Rows.{Matcher}
use sov_vault.Matcher.Ingest.{open_q, ingest}
use sov_vault.Meta.{ProtocolKind, Floats, is_dns_header}
use sov_vault.Meta.Dns.{labels_bytes}
use sov_vault.Meta.Dns.Sound.{Asks, dns_qname_iff}
use sov_vault.Meta.Extract.{dns_qname, tls_sni}
use sov_vault.Meta.Line.{FirstFor, IsRuleOf, resolve-from_binds_iff}
use sov_vault.Meta.Panic.{kind_bound, ingest-registry, open_q_iff}
use sov_vault.Meta.Registry.{MetaBind, MetaBindRule, resolve, from_binds, registry}
use sov_vault.Meta.Sni.Hello.{ClientHello, FitsHello, hello_bytes, tls_sni-host}
use sov_vault.Examples.Matching.{masks, response, conn, tables}

-- Whole numbers in place of floating-point ones.
abbrev floats : Floats
floats = record {
  of_int = λ x. x;
  sub = λ x y. x - y;
  mul = λ x y. x * y;
  div = λ x y. x / y;
  log2 = λ x. x;
  gt = λ x y. ltb y x;
}

-- The query for a.bc.
abbrev query : List ℕ
query =
    (7 ∷ 7 ∷ 1 ∷ 0 ∷ 0 ∷ 1 ∷ 0 ∷ 0 ∷ 0 ∷ 0 ∷ 0 ∷ 0 ∷ [])
    ++ (labels_bytes ((97 ∷ []) ∷ (98 ∷ 99 ∷ []) ∷ []) ++ (0 ∷ 1 ∷ 0 ∷ 1 ∷ []))

dns_qname_iff_example :
    (dns_qname query ≡ some (some (97 ∷ 46 ∷ 98 ∷ 99 ∷ [])))
    ↔ ((is_dns_header query ≡ true) × Asks query (97 ∷ 46 ∷ 98 ∷ 99 ∷ []))
dns_qname_iff_example = dns_qname_iff query (97 ∷ 46 ∷ 98 ∷ 99 ∷ [])

-- A ClientHello for the host ab with another extension before its name.
abbrev hello : ClientHello
hello = record {
  minor = 3;
  random =
      0 ∷ 1 ∷ 2 ∷ 3 ∷ 4 ∷ 5 ∷ 6 ∷ 7 ∷ 8 ∷ 9 ∷ 10 ∷ 11 ∷ 12 ∷ 13 ∷ 14 ∷ 15 ∷ 16 ∷ 17 ∷ 18 ∷ 19 ∷ 20
      ∷ 21 ∷ 22 ∷ 23 ∷ 24 ∷ 25 ∷ 26 ∷ 27 ∷ 28 ∷ 29 ∷ 30 ∷ 31 ∷ [];
  session = 1 ∷ [];
  ciphers = 0x13 ∷ 1 ∷ [];
  compression = 0 ∷ [];
  before = record { etype = 0x17; ext = [] } ∷ [];
  list_hi = 0;
  list_lo = 5;
  host = 97 ∷ 98 ∷ [];
  more = [];
  tail = [];
}

hello-FitsHello : FitsHello hello
unfolding sov_vault.Bytes.to_be_bytes
hello-FitsHello = record {
  random = refl;
  session = omega arith;
  ciphers = omega arith;
  compression = omega arith;
  before = (omega arith, omega arith, omega arith, record {});
  host = omega arith;
  extensions = omega arith;
}

hello-length : length (hello_bytes hello) ≡ 0 * 2 ^ 16 + 0 * 2 ^ 8 + 59
unfolding sov_vault.Bytes.to_be_bytes
hello-length = refl

tls_sni-host_example :
    tls_sni (22 ∷ 3 ∷ 1 ∷ 0 ∷ 63 ∷ 1 ∷ 0 ∷ 0 ∷ 59 ∷ (hello_bytes hello ++ []))
    ≡ some (some (97 ∷ 98 ∷ []))
tls_sni-host_example = tls_sni-host hello 22 3 1 0 63 1 0 0 59 [] hello-FitsHello hello-length

abbrev binds : List MetaBind
binds =
    record { name = 97 ∷ []; proto = 17; dst_port = 53; fingerprint = []; extractor = [] }
    ∷ record { name = 98 ∷ []; proto = 6; dst_port = 443; fingerprint = []; extractor = [] }
    ∷ []

abbrev rule : MetaBindRule
rule = record {
  id = sov_vault.Connection.Signed.pos 2;
  name = 98 ∷ [];
  proto = 6;
  dst_port = 443;
  fingerprint = none;
  extractor = none;
}

resolve-from_binds_iff_example :
    (resolve 6 443 (from_binds binds) ≡ some rule)
    ↔ ((b : MetaBind) × (i : ℕ) × FirstFor 6 443 binds i b × IsRuleOf i b rule)
resolve-from_binds_iff_example = resolve-from_binds_iff 6 443 binds rule

-- The packets of a client: a request line, and the head of a TLS record.
abbrev request : IndexedRecord
request = record {
  dev_id = 1;
  file_id = 2;
  offset = 128;
  rec = record response {
    tcp_flags = 2;
    payload = 71 ∷ 69 ∷ 84 ∷ 32 ∷ 47 ∷ 32 ∷ 72 ∷ 84 ∷ 84 ∷ 80 ∷ 13 ∷ 10 ∷ [];
  };
}

abbrev short_record : IndexedRecord
short_record = record request {
  rec = record response { payload = 22 ∷ 3 ∷ 1 ∷ 0 ∷ 5 ∷ []; dst_port = 443 };
}

ingest-registry_example :
    (m' : Matcher assoc) × (ingest assoc masks
        (some (registry floats (from_binds binds)))
        request
        tables
      ≡ some m')
ingest-registry_example =
    ingest-registry floats (from_binds binds) assoc masks request tables (inr (omega arith))

open_q_iff_example :
    (open_q assoc masks
        (some (registry floats (from_binds binds)))
        77
        short_record
        101
        106
        (conn, tables)
      ≡ none)
    ↔ ((kind_bound floats (from_binds binds) (22 ∷ 3 ∷ 1 ∷ 0 ∷ 5 ∷ []) 6 443 ≡ ProtocolKind.tls)
        × (5 ≤ 5)
        × (5 < 9))
open_q_iff_example =
    open_q_iff floats (from_binds binds) assoc masks 77 short_record 101 106 conn tables refl
