-- ===== src/Db/Values.antt =====
-- src/db.rs: the values of the fixed-length tables and their big-endian codecs.
use sov_vault.Base.{
  ℕ, ◌^◌, ◌<◌, ◌≡◌, List, [], ◌∷◌, Option, none, some, length, length-append, ◌==◌, if◌then◌else◌,
}
use sov_vault.Bytes.{
  to_be_bytes, from_be_bytes, length-to_be_bytes, from-to_be_bytes, Reader, ◌>>=◌, pure, take_uint,
  take-put_uint, value_of, all_of, concat,
}

pub record RecordSummary : Type 0 where
  pub proto : ℕ
  pub flags : ℕ
  pub src_ip : ℕ
  pub dst_ip : ℕ
  pub sport : ℕ
  pub dport : ℕ
  pub len : ℕ

-- The ranges of the fields' types.
pub record FitsSummary (s : RecordSummary) : Type 0 where
  pub proto : s.proto < 2 ^ 8
  pub flags : s.flags < 2 ^ 8
  pub src_ip : s.src_ip < 2 ^ 32
  pub dst_ip : s.dst_ip < 2 ^ 32
  pub sport : s.sport < 2 ^ 16
  pub dport : s.dport < 2 ^ 16
  pub len : s.len < 2 ^ 32

unfoldable pub v_record_summary_encode : RecordSummary → List ℕ
v_record_summary_encode s =
    concat
      (to_be_bytes 1 s.proto
        ∷ to_be_bytes 1 s.flags
        ∷ to_be_bytes 4 s.src_ip
        ∷ to_be_bytes 4 s.dst_ip
        ∷ to_be_bytes 2 s.sport
        ∷ to_be_bytes 2 s.dport
        ∷ to_be_bytes 4 s.len
        ∷ [])
      []

read_summary : Reader RecordSummary
read_summary = do
  proto ← take_uint 1
  flags ← take_uint 1
  src_ip ← take_uint 4
  dst_ip ← take_uint 4
  sport ← take_uint 2
  dport ← take_uint 2
  len ← take_uint 4
  pure (record {
    proto = proto;
    flags = flags;
    src_ip = src_ip;
    dst_ip = dst_ip;
    sport = sport;
    dport = dport;
    len = len;
  })

unfoldable pub v_record_summary_decode : List ℕ → Option RecordSummary
unfolding read_summary
v_record_summary_decode b = if length b == 18 then value_of read_summary b else none

length-summary : (s : RecordSummary) → length (v_record_summary_encode s) ≡ 18
unfolding v_record_summary_encode
length-summary s = simp (length-append, length-to_be_bytes)

read_summary_lem :
    (s : RecordSummary) → FitsSummary s → read_summary (v_record_summary_encode s) ≡ some (s, [])
unfolding read_summary v_record_summary_encode
read_summary_lem s h = simp (
  ◌>>=◌,
  take-put_uint 1 s.proto _ h.proto,
  take-put_uint 1 s.flags _ h.flags,
  take-put_uint 4 s.src_ip _ h.src_ip,
  take-put_uint 4 s.dst_ip _ h.dst_ip,
  take-put_uint 2 s.sport _ h.sport,
  take-put_uint 2 s.dport _ h.dport,
  take-put_uint 4 s.len _ h.len,
)

pub summary_roundtrip :
    (s : RecordSummary)
    → FitsSummary s
    → v_record_summary_decode (v_record_summary_encode s) ≡ some s
unfolding v_record_summary_decode
summary_roundtrip s h = rw (length-summary s) (rw (read_summary_lem s h, value_of))

-- QR_PENDING: q_first_idx | q_ts | q_len.
unfoldable pub v_qr_pending_encode : ℕ → ℕ → ℕ → List ℕ
v_qr_pending_encode q_first_idx q_ts q_len =
    concat (to_be_bytes 8 q_first_idx ∷ to_be_bytes 8 q_ts ∷ to_be_bytes 4 q_len ∷ []) []

read_pending : Reader (ℕ × ℕ × ℕ)
read_pending = do
  q_first_idx ← take_uint 8
  q_ts ← take_uint 8
  q_len ← take_uint 4
  pure (q_first_idx, q_ts, q_len)

unfoldable pub v_qr_pending_decode : List ℕ → Option (ℕ × ℕ × ℕ)
unfolding read_pending
v_qr_pending_decode b = if length b == 20 then value_of read_pending b else none

length-pending : (i t n : ℕ) → length (v_qr_pending_encode i t n) ≡ 20
unfolding v_qr_pending_encode
length-pending i t n = simp (length-append, length-to_be_bytes)

pub pending_roundtrip :
    (i t n : ℕ)
    → i < 2 ^ 64
    → t < 2 ^ 64
    → n < 2 ^ 32
    → v_qr_pending_decode (v_qr_pending_encode i t n) ≡ some (i, t, n)
unfolding v_qr_pending_decode read_pending
pending_roundtrip i t n hi ht hn = rw (length-pending i t n) (
    unfold v_qr_pending_encode in
    simp (◌>>=◌, take-put_uint 8 i _ hi, take-put_uint 8 t _ ht, take-put_uint 4 n _ hn, value_of))

-- The secondary indexes and PACKET_QR hold the locator alone.
unfoldable pub v_secondary_encode : ℕ → List ℕ
v_secondary_encode q_first_idx = to_be_bytes 8 q_first_idx

unfoldable pub v_secondary_decode : List ℕ → Option ℕ
v_secondary_decode b = if length b == 8 then some (from_be_bytes b) else none

-- PENDING_TTL: q_first_idx | abs_q_end in 48 bits.
unfoldable pub v_pending_ttl_encode : ℕ → ℕ → List ℕ
v_pending_ttl_encode q_first_idx abs_q_end =
    concat (to_be_bytes 8 q_first_idx ∷ to_be_bytes 6 abs_q_end ∷ []) []

read_ttl : Reader (ℕ × ℕ)
read_ttl = do q_first_idx ← take_uint 8; abs_q_end ← take_uint 6; pure (q_first_idx, abs_q_end)

unfoldable pub v_pending_ttl_decode : List ℕ → Option (ℕ × ℕ)
unfolding read_ttl
v_pending_ttl_decode b = all_of read_ttl b

pub ttl_roundtrip :
    (i e : ℕ)
    → i < 2 ^ 64
    → e < 2 ^ 48
    → v_pending_ttl_decode (v_pending_ttl_encode i e) ≡ some (i, e)
unfolding v_pending_ttl_decode read_ttl v_pending_ttl_encode
ttl_roundtrip i e hi he = simp (◌>>=◌, take-put_uint 8 i _ hi, take-put_uint 6 e _ he, all_of)

pub secondary_roundtrip : (i : ℕ) → i < 2 ^ 64 → v_secondary_decode (v_secondary_encode i) ≡ some i
unfolding v_secondary_decode v_secondary_encode
secondary_roundtrip i h = rw (length-to_be_bytes 8 i) (rw (from-to_be_bytes 8 i h))

-- A record summary, a row of QR_PENDING, a row of PENDING_TTL and a locator of the secondary
-- indexes come back from their bytes, where locators and times fit 64 bits, lengths 32 bits, ends
-- 48 bits and the summary's fields their types.
pub values_roundtrip :
    (s : RecordSummary) (i t n e : ℕ)
    → FitsSummary s
    → i < 2 ^ 64
    → t < 2 ^ 64
    → n < 2 ^ 32
    → e < 2 ^ 48
    → (v_record_summary_decode (v_record_summary_encode s) ≡ some s)
      × (v_qr_pending_decode (v_qr_pending_encode i t n) ≡ some (i, t, n))
      × (v_pending_ttl_decode (v_pending_ttl_encode i e) ≡ some (i, e))
      × (v_secondary_decode (v_secondary_encode i) ≡ some i)
values_roundtrip s i t n e hs hi ht hn he = (
  summary_roundtrip s hs,
  pending_roundtrip i t n hi ht hn,
  ttl_roundtrip i e hi he,
  secondary_roundtrip i hi,
)
