-- ===== src/Ttl/Deadlines.antt =====
-- `scan_pending_ttl`: which rows of PENDING_TTL it ends.
use sov_vault.Base.{ℕ, Bool, false, ◌&&◌, List, Option, none, some, leb}
use sov_vault.Store.{Lmdb}
use sov_vault.Ttl.{Scan, conn_of, deadline, timeout_ns, short_ns}
use sov_vault.Ttl.Expiry.{decodes}

-- Whether the row of PENDING_TTL of a request is removed: it decodes, and its deadline has passed.
abbrev pub ends : ℕ → ℕ → Option (List ℕ) → Bool
ends deadline now none = false
ends deadline now (some v) = decodes v && leb deadline now

module _ (db : Lmdb) where
  open db use {get, range, range_iff}

  -- The deadline of the request that was opened at `q_ts` on the connection `h`.
  abbrev pub deadline_at : ℕ → ℕ → Scan db → ℕ → ℕ → ℕ
  deadline_at qr_timeout_secs fin_short_timeout_secs s q_ts h =
      deadline (timeout_ns qr_timeout_secs) (short_ns qr_timeout_secs fin_short_timeout_secs)
        (conn_of db h s).fin_seen q_ts
