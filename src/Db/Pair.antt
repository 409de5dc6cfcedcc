-- ===== src/Db/Pair.antt =====
-- src/db.rs: QrStatus and QrPairValue, the row of QR_PAIR, with its variable-length codec.
use sov_vault.Base.{
  ℕ, ◌^◌, ◌<◌, ◌≡◌, refl, List, [], ◌∷◌, Option, none, some, arith, length, ◌==◌, if◌then◌else◌,
}
use sov_vault.Bytes.{
  to_be_bytes, Reader, ◌>>=◌, pure, take_uint, take_bytes, take_u64s, put_u64s, AllBelow,
  take-put_uint, take-put_bytes, take-put_u64s, all_of, concat,
}

pub data QrStatus : Type 0 where
  pending matched timeout unmatched rst_abort aborted_resource : QrStatus

-- `status as u8`.
unfoldable pub to_u8 : QrStatus → ℕ
to_u8 pending = 0
to_u8 matched = 1
to_u8 timeout = 2
to_u8 unmatched = 3
to_u8 rst_abort = 4
to_u8 aborted_resource = 5

unfoldable pub from_u8 : ℕ → Option QrStatus
from_u8 v =
    if v == 0
    then some pending
    else if v == 1
    then some matched
    else if v == 2
    then some timeout
    else if v == 3
    then some unmatched
    else if v == 4
    then some rst_abort
    else if v == 5
    then some aborted_resource
    else none

pub from_u8-to_u8 : (s : QrStatus) → from_u8 (to_u8 s) ≡ some s
unfolding from_u8 to_u8
from_u8-to_u8 s = ground arith

pub record QrPairValue : Type 0 where
  pub status : ℕ
  pub conn_hash : ℕ
  pub q_ts : ℕ
  pub r_ts : ℕ
  pub latency_ms : ℕ
  pub q_len : ℕ
  pub r_len : ℕ
  pub abs_q_seq : ℕ
  pub abs_q_end : ℕ
  pub pseudo : ℕ
  pub q_idx : List ℕ
  pub r_idx : List ℕ
  pub req_key : List ℕ
  pub resp_key : List ℕ

-- The ranges of the fields' types, and of the counts that the row stores.
pub record FitsPair (p : QrPairValue) : Type 0 where
  pub status : p.status < 2 ^ 8
  pub conn_hash : p.conn_hash < 2 ^ 64
  pub q_ts : p.q_ts < 2 ^ 64
  pub r_ts : p.r_ts < 2 ^ 64
  pub latency_ms : p.latency_ms < 2 ^ 64
  pub q_len : p.q_len < 2 ^ 32
  pub r_len : p.r_len < 2 ^ 32
  pub abs_q_seq : p.abs_q_seq < 2 ^ 64
  pub abs_q_end : p.abs_q_end < 2 ^ 64
  pub pseudo : p.pseudo < 2 ^ 8
  pub q_cnt : length p.q_idx < 2 ^ 16
  pub r_cnt : length p.r_idx < 2 ^ 16
  pub q_idx : AllBelow (2 ^ 64) p.q_idx
  pub r_idx : AllBelow (2 ^ 64) p.r_idx
  pub req_key : length p.req_key < 2 ^ 32
  pub resp_key : length p.resp_key < 2 ^ 32

-- `len() as u16` keeps the low two bytes, as `to_be_bytes 2` does.
unfoldable pub encode : QrPairValue → List ℕ
encode p =
    concat
      (to_be_bytes 1 p.status
        ∷ to_be_bytes 8 p.conn_hash
        ∷ to_be_bytes 8 p.q_ts
        ∷ to_be_bytes 8 p.r_ts
        ∷ to_be_bytes 8 p.latency_ms
        ∷ to_be_bytes 4 p.q_len
        ∷ to_be_bytes 4 p.r_len
        ∷ to_be_bytes 8 p.abs_q_seq
        ∷ to_be_bytes 8 p.abs_q_end
        ∷ to_be_bytes 1 p.pseudo
        ∷ to_be_bytes 2 (length p.q_idx)
        ∷ to_be_bytes 2 (length p.r_idx)
        ∷ put_u64s p.q_idx
        ∷ put_u64s p.r_idx
        ∷ to_be_bytes 4 (length p.req_key)
        ∷ p.req_key
        ∷ to_be_bytes 4 (length p.resp_key)
        ∷ p.resp_key
        ∷ [])
      []

read_pair : Reader QrPairValue
read_pair = do
  status ← take_uint 1
  conn_hash ← take_uint 8
  q_ts ← take_uint 8
  r_ts ← take_uint 8
  latency_ms ← take_uint 8
  q_len ← take_uint 4
  r_len ← take_uint 4
  abs_q_seq ← take_uint 8
  abs_q_end ← take_uint 8
  pseudo ← take_uint 1
  q_cnt ← take_uint 2
  r_cnt ← take_uint 2
  q_idx ← take_u64s q_cnt
  r_idx ← take_u64s r_cnt
  req_len ← take_uint 4
  req_key ← take_bytes req_len
  resp_len ← take_uint 4
  resp_key ← take_bytes resp_len
  pure (record {
    status = status;
    conn_hash = conn_hash;
    q_ts = q_ts;
    r_ts = r_ts;
    latency_ms = latency_ms;
    q_len = q_len;
    r_len = r_len;
    abs_q_seq = abs_q_seq;
    abs_q_end = abs_q_end;
    pseudo = pseudo;
    q_idx = q_idx;
    r_idx = r_idx;
    req_key = req_key;
    resp_key = resp_key;
  })

unfoldable pub decode : List ℕ → Option QrPairValue
unfolding read_pair
decode b = all_of read_pair b

read_pair_lem : (p : QrPairValue) → FitsPair p → read_pair (encode p) ≡ some (p, [])
unfolding read_pair encode
read_pair_lem p h = simp (
  ◌>>=◌,
  take-put_uint 1 p.status _ h.status,
  take-put_uint 8 p.conn_hash _ h.conn_hash,
  take-put_uint 8 p.q_ts _ h.q_ts,
  take-put_uint 8 p.r_ts _ h.r_ts,
  take-put_uint 8 p.latency_ms _ h.latency_ms,
  take-put_uint 4 p.q_len _ h.q_len,
  take-put_uint 4 p.r_len _ h.r_len,
  take-put_uint 8 p.abs_q_seq _ h.abs_q_seq,
  take-put_uint 8 p.abs_q_end _ h.abs_q_end,
  take-put_uint 1 p.pseudo _ h.pseudo,
  take-put_uint 2 (length p.q_idx) _ h.q_cnt,
  take-put_uint 2 (length p.r_idx) _ h.r_cnt,
  take-put_u64s p.q_idx _ h.q_idx,
  take-put_u64s p.r_idx _ h.r_idx,
  take-put_uint 4 (length p.req_key) _ h.req_key,
  take-put_bytes p.req_key _ (length p.req_key) refl,
  take-put_uint 4 (length p.resp_key) _ h.resp_key,
  take-put_bytes p.resp_key _ (length p.resp_key) refl,
)

-- A row of QR_PAIR whose fields are in the range of their types, with fewer than 65536 locators on
-- each side, comes back from its bytes.
pub decode-encode : (p : QrPairValue) → FitsPair p → decode (encode p) ≡ some p
unfolding decode
decode-encode p h = rw (read_pair_lem p h, all_of)
