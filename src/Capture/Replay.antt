-- ===== src/Capture/Replay.antt =====
-- src/export.rs: the export of a PCAP file, from the replay of the records to the counters.
use sov_vault.Base.{ℕ, List, Option}
use sov_vault.Matcher.Types.{WalRecord}
use sov_vault.Query.Open.{DbRegistry, replay_scan}
use sov_vault.Query.Prune.{EpochBoundary}
use sov_vault.Query.Scan.{Scans}
use sov_vault.Reassembly.Steps.{◌>>=◌}
use sov_vault.Store.{Lmdb}
use sov_vault.Capture.{BpfFilter, PcapPacket, PcapStats, export_rows}

-- The replay feeds the sink row by row: an error of either ends the export.
module _ (db : Lmdb) (scans : Scans db) {P W : Type 0} (files : List (ℕ × P))
    (open_file : P → Option (List ℕ)) (try_decode : List ℕ → Option WalRecord)
    (write_packet : PcapPacket → W → Option W) where
  unfoldable pub export_pcap :
      DbRegistry db
      → List EpochBoundary
      → BpfFilter
      → Option ℕ
      → Option ℕ
      → W
      → Option (W × PcapStats)
  unfolding replay_scan export_rows
  export_pcap reg rows filter start_ts end_ts out = do
    fed ← replay_scan db scans reg rows start_ts end_ts
    export_rows files open_file try_decode write_packet filter fed out
