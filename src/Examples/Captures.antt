-- ===== src/Examples/Captures.antt =====
-- Runs of src/export.rs: three rows, of which the filter drops one, the ledger does not know the file
-- of another, and the third is written.
use sov_vault.Base.{ℕ, zero, suc, ◌*◌, ◌^◌, ◌≡◌, refl, List, [], ◌∷◌, ◌++◌, Option, none, some}
use sov_vault.Bytes
use sov_vault.Db.Values.{RecordSummary}
use sov_vault.Matcher.Types.{WalRecord}
use sov_vault.Query.{RecordRow}
use sov_vault.Capture.{BpfFilter, PcapPacket, PcapStats, export_rows}
use sov_vault.Capture.Tally.{outcome, no_stats}
use sov_vault.Capture.Tally.Outcome.{export_rows-outcome}

abbrev captured : WalRecord
captured = record {
  timestamp_ns = 5_000_000;
  flags = 0;
  tcp_flags = 16;
  tcp_seq = 900;
  tcp_ack = 101;
  src_ip = 10 ∷ 0 ∷ 0 ∷ 2 ∷ [];
  dst_ip = 10 ∷ 0 ∷ 0 ∷ 1 ∷ [];
  src_port = 80;
  dst_port = 12345;
  proto = 6;
  window_size = 512;
  orig_payload_len = 40;
  payload = 79 ∷ 75 ∷ [];
}

abbrev summary : ℕ → RecordSummary
summary port = record {
  proto = 6;
  flags = 16;
  src_ip = 0x0a00_0002;
  dst_ip = 0x0a00_0001;
  sport = port;
  dport = 12345;
  len = 40;
}

abbrev rows : List RecordRow
rows =
    record { ts_ns = 1; packet_idx = 2 * 2 ^ 32; summary = summary 443 }
    ∷ record { ts_ns = 2; packet_idx = 3 * 2 ^ 32; summary = summary 80 }
    ∷ record { ts_ns = 5_000_000; packet_idx = 2 * 2 ^ 32; summary = summary 80 }
    ∷ []

abbrev from_web : BpfFilter
from_web = record {
  proto = some 6;
  src_ip = none;
  dst_ip = none;
  sport = some 80;
  dport = none;
  flags_any = some 18;
  flags_all = none;
}

abbrev zero_bytes : ℕ → List ℕ → List ℕ
zero_bytes zero xs = xs
zero_bytes (suc n) xs = 0 ∷ zero_bytes n xs

-- File 2 has a header whose last field but one says two bytes, and these.
abbrev open_file : ℕ → Option (List ℕ)
open_file p = some (zero_bytes 59 (2 ∷ 0 ∷ 0 ∷ 0 ∷ 0 ∷ 79 ∷ 75 ∷ []))

abbrev try_decode : List ℕ → Option WalRecord
try_decode bytes = some captured

abbrev write_packet : PcapPacket → List PcapPacket → Option (List PcapPacket)
write_packet p w = some (w ++ p ∷ [])

counters : Option (List PcapPacket × PcapStats) → Option PcapStats
counters none = none
counters (some (w, st)) = some st

one_of_each :
    counters (export_rows ((2, 7) ∷ []) open_file try_decode write_packet from_web rows [])
    ≡ some (record { packets = 1; filtered = 1; unresolved = 1; incl_bytes = 56; orig_bytes = 94 })
unfolding counters export_rows Bytes.from_be_bytes Bytes.to_be_bytes
one_of_each = refl

export_rows-outcome_example :
    export_rows ((2, 7) ∷ []) open_file try_decode write_packet from_web rows []
    ≡ outcome ((2, 7) ∷ []) open_file try_decode write_packet from_web rows [] no_stats
export_rows-outcome_example =
    export_rows-outcome ((2, 7) ∷ []) open_file try_decode write_packet from_web rows []
