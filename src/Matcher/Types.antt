-- ===== src/Matcher/Types.antt =====
-- src/qr.rs: the data of the matching engine. The packet is the record of sov_probe, with the fields
-- that the source reads; the masks of its TCP flags are parameters.
use Prim.Native.Nat.{bit_and}
use sov_vault.Base.{
  ℕ, zero, suc, ◌+◌, ◌-◌, ◌^◌, Bool, not, List, [], ◌∷◌, Option, none, some, min, ◌==◌,
}
use sov_vault.Bytes.{to_be_bytes}
use sov_vault.Connection.Signed.{ℤ, of_i64_bits}
use sov_vault.Id

pub record WalRecord : Type 0 where
  pub timestamp_ns : ℕ
  pub flags : ℕ
  pub tcp_flags : ℕ
  pub tcp_seq : ℕ
  pub tcp_ack : ℕ
  pub src_ip : List ℕ
  pub dst_ip : List ℕ
  pub src_port : ℕ
  pub dst_port : ℕ
  pub proto : ℕ
  pub window_size : ℕ
  pub orig_payload_len : ℕ
  pub payload : List ℕ

-- The masks `TCP_SYN`, `TCP_ACK`, `TCP_RST`, `TCP_FIN` and `FLAG_DEGRADED` of sov_probe.
pub record Masks : Type 0 where
  pub syn : ℕ
  pub ack : ℕ
  pub rst : ℕ
  pub fin : ℕ
  pub degraded : ℕ

-- `flags & mask != 0`.
unfoldable pub has_flag : ℕ → ℕ → Bool
has_flag flags mask = not (bit_and flags mask == 0)

pub record IndexedRecord : Type 0 where
  pub dev_id : ℕ
  pub file_id : ℕ
  pub offset : ℕ
  pub rec : WalRecord

-- `IndexedRecord::idx`.
unfoldable pub idx : IndexedRecord → ℕ
idx r = Id.encode r.file_id r.offset

pub data Dir : Type 0 where
  c2s s2c : Dir

-- The text of an event's detail is formatted from these.
pub data Detail : Type 0 where
  gen_flip : (epoch : ℕ) → Detail
  rst_cascade_of : (inc : ℕ) → Detail
  epoch_rebirth_syn : (pending : ℕ) → Detail
  epoch_rebirth_jump : (pending : ℕ) → Detail
  rst_cascade_total : (pending : ℕ) → Detail
  qr_timeout_ms : (ms : ℕ) → Detail

pub data AnomKind : Type 0 where
  epoch_rebirth conn_rst qr_timeout qr_unmatched qr_rst_abort : AnomKind

-- The number under which the ledger stores a kind.
unfoldable pub code : AnomKind → ℕ
code epoch_rebirth = 10
code conn_rst = 11
code qr_timeout = 12
code qr_unmatched = 13
code qr_rst_abort = 14

-- `dev_id` and `segment_seq` of an event of the engine are always none.
pub record AnomalyEvent : Type 0 where
  pub ts : ℤ
  pub kind : AnomKind
  pub conn_hash : List ℕ
  pub qr_id : Option ℤ
  pub detail : Detail

unfoldable pub event : ℕ → AnomKind → ℕ → Option ℕ → Detail → AnomalyEvent
event ts kind h qr_id detail = record {
  ts = of_i64_bits ts;
  kind = kind;
  conn_hash = to_be_bytes 8 h;
  qr_id = elim qr_id [ none ↦ none | some i ↦ some (of_i64_bits i) ];
  detail = detail;
}

pub record PendingHit : Type 0 where
  pub key : List ℕ
  pub q_first_idx : ℕ
  pub q_ts : ℕ

abbrev pub u48_max : ℕ
u48_max = 0x0000_ffff_ffff_ffff

abbrev pub u64_max : ℕ
u64_max = 2 ^ 64 - 1

abbrev pub ack_lead_cap : ℕ
ack_lead_cap = 2 ^ 26

abbrev pub epoch_jump_threshold : ℕ
epoch_jump_threshold = 2 ^ 30

-- `saturating_add` of u64 and of u32; `-` is `saturating_sub`.
abbrev pub saturating_add64 : ℕ → ℕ → ℕ
saturating_add64 a b = min (a + b) u64_max

abbrev pub saturating_add32 : ℕ → ℕ → ℕ
saturating_add32 a b = min (a + b) (2 ^ 32 - 1)

-- `payload[..payload.len().min(32)]`.
unfoldable pub take : ℕ → List ℕ → List ℕ
take zero xs = []
take (suc n) [] = []
take (suc n) (x ∷ xs) = x ∷ take n xs

unfoldable pub req_key_of : WalRecord → List ℕ
unfolding take
req_key_of rec = take 32 rec.payload

-- What the engine asks of the protocol registry (src/meta.rs): the binding of a first payload, the
-- key of a later one, and the fingerprint of a payload; `none` is a panic. Meta.Registry fills it.
pub record Binding : Type 0 where
  pub meta_bind_id : ℤ
  pub protocol_hint : ℕ
  pub key : List ℕ
  pub pseudo : Bool

pub record Fingerprint : Type 0 where
  pub magic_prefix : List ℕ
  pub entropy : ℕ
  pub has_fixed_header : Bool

pub record MetaRegistry : Type 0 where
  pub bind_and_extract : List ℕ → ℕ → ℕ → Option Binding
  pub extract_key : List ℕ → ℕ → Option (List ℕ × Bool)
  pub fingerprint : List ℕ → Fingerprint
  -- `ProtocolKind::Unknown as u8`.
  pub unknown : ℕ

pub record ExtMetaEvent : Type 0 where
  pub conn_hash : ℕ
  pub protocol_hint : ℕ
  pub dst_port : ℕ
  pub print : Fingerprint

pub record ConnArchiveEvent : Type 0 where
  pub conn_hash : ℕ
  pub first_ts : ℕ
  pub last_ts : ℕ
  pub state : ℕ
