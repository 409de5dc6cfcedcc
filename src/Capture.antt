-- ===== src/Capture.antt =====
-- src/export.rs: the filter of packets, the reader that finds a packet's record by its locator, and
-- the sink that writes a PCAP file. The writer of pcap_file, the decoder of sov_probe and the opening
-- of a file are parameters; `none` is an error, which ends the export.
pub mod Cache
pub mod Replay
pub mod Tally
use Prim.Native.Nat.{bit_and}
use sov_vault.Base.{
  ℕ, ◌+◌, ◌/◌, ◌%◌, ◌^◌, Bool, true, false, not, ◌&&◌, List, [], ◌∷◌, ◌++◌, Option, none, some,
  length, split_at?, ◌==◌, if◌then◌else◌,
}
use sov_vault.Bytes.{to_be_bytes, from_be_bytes}
use sov_vault.Db.Values.{RecordSummary}
use sov_vault.Id
use sov_vault.Map
use sov_vault.Map.{nat_eq}
use sov_vault.Matcher.Types.{WalRecord, has_flag}
use sov_vault.Query.{RecordRow}
use sov_vault.Reassembly.Steps.{◌>>=◌}

abbrev pub l2_eth : ℕ
l2_eth = 14

abbrev pub l3_ipv4 : ℕ
l3_ipv4 = 20

abbrev pub l4_tcp : ℕ
l4_tcp = 20

abbrev pub l4_udp : ℕ
l4_udp = 8

pub record PcapStats : Type 0 where
  pub packets : ℕ
  pub filtered : ℕ
  pub unresolved : ℕ
  pub incl_bytes : ℕ
  pub orig_bytes : ℕ

pub record BpfFilter : Type 0 where
  pub proto : Option ℕ
  pub src_ip : Option ℕ
  pub dst_ip : Option ℕ
  pub sport : Option ℕ
  pub dport : Option ℕ
  pub flags_any : Option ℕ
  pub flags_all : Option ℕ

-- `if let Some(x) = wanted { if x != found { return false; } }`.
unfoldable pub agrees : Option ℕ → ℕ → Bool
agrees none found = true
agrees (some x) found = x == found

unfoldable pub matches_summary : BpfFilter → RecordSummary → Bool
unfolding agrees
matches_summary f s =
    agrees f.proto s.proto
    && agrees f.src_ip s.src_ip
    && agrees f.dst_ip s.dst_ip
    && agrees f.sport s.sport
    && agrees f.dport s.dport

unfoldable pub has_any : Option ℕ → ℕ → Bool
unfolding has_flag
has_any none flags = true
has_any (some any) flags = has_flag flags any

unfoldable pub has_all : Option ℕ → ℕ → Bool
has_all none flags = true
has_all (some all) flags = bit_and flags all == all

unfoldable pub matches_record : BpfFilter → WalRecord → Bool
unfolding has_any has_all
matches_record f rec = has_any f.flags_any rec.tcp_flags && has_all f.flags_all rec.tcp_flags

-- Ethernet II with the fixed addresses and the type of IPv4.
abbrev pub ethernet : List ℕ
ethernet = 2 ∷ 0 ∷ 0 ∷ 0 ∷ 0 ∷ 2 ∷ 2 ∷ 0 ∷ 0 ∷ 0 ∷ 0 ∷ 1 ∷ 8 ∷ 0 ∷ []

-- `if rec.proto == 6 { L4_TCP } else { L4_UDP }`.
unfoldable pub l4_head : WalRecord → ℕ
l4_head rec = if rec.proto == 6 then l4_tcp else l4_udp

unfoldable pub ipv4 : WalRecord → List ℕ
unfolding l4_head
ipv4 rec =
    let total = l3_ipv4 + (l4_head rec + length rec.payload) in
    0x45 ∷ 0x00 ∷ total / 256 % 256 ∷ total % 256 ∷ []
    ++ 0x00 ∷ 0x01 ∷ 0x40 ∷ 0x00 ∷ 0x40 ∷ rec.proto % 256 ∷ 0x00 ∷ 0x00 ∷ []
    ++ rec.src_ip
    ++ rec.dst_ip

unfoldable pub ports : WalRecord → List ℕ
ports rec =
    rec.src_port / 256 % 256
    ∷ rec.src_port % 256
    ∷ rec.dst_port / 256 % 256
    ∷ rec.dst_port % 256
    ∷ []

unfoldable pub tcp : WalRecord → List ℕ
unfolding ports
tcp rec =
    ports rec
    ++ to_be_bytes 4 rec.tcp_seq
    ++ to_be_bytes 4 rec.tcp_ack
    ++ 0x50
      ∷ rec.tcp_flags
      ∷ rec.window_size / 256 % 256
      ∷ rec.window_size % 256
      ∷ 0
      ∷ 0
      ∷ 0
      ∷ 0
      ∷ []

unfoldable pub udp : WalRecord → List ℕ
unfolding ports
udp rec = ports rec ++ to_be_bytes 2 ((8 + length rec.payload) % 2 ^ 16) ++ 0 ∷ 0 ∷ []

unfoldable pub synthesize : WalRecord → List ℕ
unfolding ipv4 tcp udp
synthesize rec =
    ethernet ++ ipv4 rec ++ (if rec.proto == 6 then tcp rec else udp rec) ++ rec.payload

-- The packet that the writer of pcap_file gets: time, length on the line, and bytes.
pub record PcapPacket : Type 0 where
  pub timestamp : ℕ
  pub orig_len : ℕ
  pub bytes : List ℕ

unfoldable pub orig_of : WalRecord → ℕ
unfolding l4_head
orig_of rec = (l2_eth + l3_ipv4 + l4_head rec + rec.orig_payload_len) % 2 ^ 32

unfoldable pub packet_of : WalRecord → PcapPacket
unfolding synthesize orig_of
packet_of rec = record {
  timestamp = rec.timestamp_ns;
  orig_len = orig_of rec;
  bytes = synthesize rec;
}

-- An open file is its bytes.
pub record WalResolver (P : Type 0) : Type 0 where
  pub paths : List (ℕ × Option P)
  pub handles : List (ℕ × List ℕ)

unfoldable pub resolver : {P : Type 0} → WalResolver P
resolver = record { paths = []; handles = [] }

pub record PcapSink (P W : Type 0) : Type 0 where
  pub writer : W
  pub wal : WalResolver P
  pub stats : PcapStats

-- `files` has the column `path` of the ledger's table by `file_id`.
module _ {P W : Type 0} (files : List (ℕ × P)) (open_file : P → Option (List ℕ))
    (try_decode : List ℕ → Option WalRecord) (write_packet : PcapPacket → W → Option W) where
  -- `Ledger::file_path`.
  unfoldable pub file_path : ℕ → Option P
  unfolding Map.get
  file_path file_id = Map.get file_id files

  unfoldable pub path : ℕ → WalResolver P → Option P × WalResolver P
  unfolding file_path Map.get Map.insert
  path file_id r = elim (Map.get file_id r.paths) [
    | some p ↦ (p, r)
    | none ↦ let p = file_path file_id in (p, record r { paths = Map.insert file_id p r.paths })
  ]

  -- A file that the ledger does not know is read as /dev/null, which has no bytes.
  unfoldable pub open_path : Option P → Option (List ℕ)
  open_path none = some []
  open_path (some p) = open_file p

  unfoldable pub handle : ℕ → WalResolver P → Option (List ℕ × WalResolver P)
  unfolding path open_path Map.get Map.insert
  handle file_id r = elim (Map.get file_id r.handles) [
    | some f ↦ some (f, r)
    | none ↦
        let found = path file_id r in
        do
          f ← open_path found.0
          some (f, record (found.1) { handles = Map.insert file_id f ((found.1).handles) })
  ]

  -- The reads of `load`: 64 bytes of header, the length at 56, the payload. A read of a file is
  -- short at its end only.
  unfoldable pub read_record : ℕ → List ℕ → Option WalRecord
  read_record offset f = do
    at ← split_at? offset f
    (hdr, behind) ← split_at? 64 (at.1)
    (front, size) ← split_at? 56 hdr
    (len, more) ← split_at? 4 size
    (payload, rest) ← split_at? (from_be_bytes len) behind
    try_decode (hdr ++ payload)

  unfoldable pub load : ℕ → WalResolver P → Option (Option WalRecord × WalResolver P)
  unfolding Id.decode handle read_record
  load packet_idx r =
      let at = Id.decode packet_idx in do (f, r') ← handle (at.0) r; some (read_record (at.1) f, r')

  -- The counters are of type u64.
  unfoldable pub add64 : ℕ → ℕ → ℕ
  add64 a b = (a + b) % 2 ^ 64

  unfoldable pub count_filtered : PcapSink P W → PcapSink P W
  unfolding add64
  count_filtered s = record s {
    stats = record (s.stats) { filtered = add64 ((s.stats).filtered) 1 };
  }

  unfoldable pub count_unresolved : PcapSink P W → PcapSink P W
  unfolding add64
  count_unresolved s = record s {
    stats = record (s.stats) { unresolved = add64 ((s.stats).unresolved) 1 };
  }

  unfoldable pub write : WalRecord → PcapSink P W → Option (PcapSink P W)
  unfolding add64 packet_of
  write rec s =
      let p = packet_of rec in
      do
        w ← write_packet p s.writer
        some (record s {
          writer = w;
          stats = record (s.stats) {
            packets = add64 ((s.stats).packets) 1;
            incl_bytes = add64 ((s.stats).incl_bytes) (length p.bytes);
            orig_bytes = add64 ((s.stats).orig_bytes) p.orig_len;
          };
        })

  -- `record` behind the read.
  unfoldable pub keep_record : BpfFilter → Option WalRecord → PcapSink P W → Option (PcapSink P W)
  unfolding matches_record count_unresolved count_filtered write
  keep_record filter none s = some (count_unresolved s)
  keep_record filter (some rec) s =
      if matches_record filter rec then write rec s else some (count_filtered s)

  unfoldable pub record_row : BpfFilter → RecordRow → PcapSink P W → Option (PcapSink P W)
  unfolding matches_summary load keep_record count_filtered
  record_row filter row s =
      if matches_summary filter row.summary
      then (do (rec, r) ← load row.packet_idx s.wal; keep_record filter rec (record s { wal = r }))
      else some (count_filtered s)

  -- What the replay feeds to the sink, one row after the other.
  unfoldable pub record_all : BpfFilter → List RecordRow → PcapSink P W → Option (PcapSink P W)
  unfolding record_row
  record_all filter [] s = some s
  record_all filter (row ∷ rows) s = do s' ← record_row filter row s; record_all filter rows s'

  unfoldable pub export_rows : BpfFilter → List RecordRow → W → Option (W × PcapStats)
  unfolding record_all resolver
  export_rows filter rows w = do
    s ← record_all filter rows (record {
      writer = w;
      wal = resolver;
      stats = record { packets = 0; filtered = 0; unresolved = 0; incl_bytes = 0; orig_bytes = 0 };
    })
    some (s.writer, s.stats)
