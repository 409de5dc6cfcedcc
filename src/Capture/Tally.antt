-- ===== src/Capture/Tally.antt =====
-- src/export.rs: what the sink should write and count, as sums over the rows that it was fed.
pub mod Outcome
use sov_vault.Base.{
  ℕ, ◌+◌, ◌%◌, ◌^◌, ◌<◌, ◌≡◌, ◌⊎◌, ◌∙◌, refl, sym, ap, inl, inr, Bool, true, false, List, [], ◌∷◌,
  Option, none, some, length, arith, Option-cases, Bool-cases, if◌then◌else◌,
}
use sov_vault.Matcher.Types.{WalRecord}
use sov_vault.Query.{RecordRow}
use sov_vault.Reassembly.Steps.{◌>>=◌}
use sov_vault.Capture.{
  PcapStats, BpfFilter, matches_summary, matches_record, orig_of, packet_of, synthesize,
  WalResolver, PcapPacket, PcapSink, load, add64, count_filtered, count_unresolved, write,
  keep_record, record_row, record_all, export_rows, resolver,
}
use sov_vault.Capture.Cache.{read_back, IsCached, resolver-IsCached, load-IsCached}

-- What becomes of a row.
pub data Verdict : Type 0 where
  dropped lost : Verdict
  kept : WalRecord → Verdict

abbrev pub is_kept : Verdict → ℕ
is_kept dropped = 0
is_kept lost = 0
is_kept (kept rec) = 1

abbrev pub is_dropped : Verdict → ℕ
is_dropped dropped = 1
is_dropped lost = 0
is_dropped (kept rec) = 0

abbrev pub is_lost : Verdict → ℕ
is_lost dropped = 0
is_lost lost = 1
is_lost (kept rec) = 0

unfoldable pub incl : Verdict → ℕ
incl dropped = 0
incl lost = 0
incl (kept rec) = length (synthesize rec)

unfoldable pub orig : Verdict → ℕ
orig dropped = 0
orig lost = 0
orig (kept rec) = orig_of rec

abbrev pub total : (Verdict → ℕ) → List Verdict → ℕ
total f [] = 0
total f (v ∷ vs) = f v + total f vs

unfoldable pub tally_on : PcapStats → List Verdict → PcapStats
tally_on st vs = record {
  packets = (st.packets + total is_kept vs) % 2 ^ 64;
  filtered = (st.filtered + total is_dropped vs) % 2 ^ 64;
  unresolved = (st.unresolved + total is_lost vs) % 2 ^ 64;
  incl_bytes = (st.incl_bytes + total incl vs) % 2 ^ 64;
  orig_bytes = (st.orig_bytes + total orig vs) % 2 ^ 64;
}

abbrev pub no_stats : PcapStats
no_stats = record { packets = 0; filtered = 0; unresolved = 0; incl_bytes = 0; orig_bytes = 0 }

pub record FitsStats (st : PcapStats) : Type 0 where
  pub packets : st.packets < 2 ^ 64
  pub filtered : st.filtered < 2 ^ 64
  pub unresolved : st.unresolved < 2 ^ 64
  pub incl_bytes : st.incl_bytes < 2 ^ 64
  pub orig_bytes : st.orig_bytes < 2 ^ 64

abbrev pub one : Verdict → List Verdict
one v = v ∷ []

add_mod : (a b c : ℕ) → ((a + (b + 0)) % 2 ^ 64 + c) % 2 ^ 64 ≡ (a + (b + c)) % 2 ^ 64
add_mod a b c = omega arith

pub small : (a : ℕ) → a < 2 ^ 64 → (a + 0) % 2 ^ 64 ≡ a
small a h = omega arith

pub tally_on-FitsStats : (st : PcapStats) (vs : List Verdict) → FitsStats (tally_on st vs)
unfolding tally_on
tally_on-FitsStats st vs = record {
  packets = omega arith;
  filtered = omega arith;
  unresolved = omega arith;
  incl_bytes = omega arith;
  orig_bytes = omega arith;
}

pub tally_on-nil : (st : PcapStats) → FitsStats st → tally_on st [] ≡ st
unfolding tally_on
tally_on-nil st f =
    rw
      (
        tally_on,
        small st.packets f.packets,
        small st.filtered f.filtered,
        small st.unresolved f.unresolved,
        small st.incl_bytes f.incl_bytes,
        small st.orig_bytes f.orig_bytes,
      )
      refl

pub kept_stats :
    (st : PcapStats) (x y : ℕ)
    → FitsStats st
    → record st {
      packets = (st.packets + 1) % 2 ^ 64;
      incl_bytes = (st.incl_bytes + x) % 2 ^ 64;
      orig_bytes = (st.orig_bytes + y) % 2 ^ 64;
    }
      ≡ record {
        packets = (st.packets + 1) % 2 ^ 64;
        filtered = (st.filtered + 0) % 2 ^ 64;
        unresolved = (st.unresolved + 0) % 2 ^ 64;
        incl_bytes = (st.incl_bytes + (x + 0)) % 2 ^ 64;
        orig_bytes = (st.orig_bytes + (y + 0)) % 2 ^ 64;
      }
kept_stats st x y f =
    let nx : x + 0 ≡ x = omega arith in
    let ny : y + 0 ≡ y = omega arith in
    rw (nx, ny, small st.filtered f.filtered, small st.unresolved f.unresolved) refl

pub tally_on-one :
    (st : PcapStats) (v : Verdict) (vs : List Verdict)
    → tally_on (tally_on st (one v)) vs ≡ tally_on st (v ∷ vs)
unfolding tally_on
tally_on-one st v vs =
    rw
      (
        tally_on,
        add_mod st.packets (is_kept v) (total is_kept vs),
        add_mod st.filtered (is_dropped v) (total is_dropped vs),
        add_mod st.unresolved (is_lost v) (total is_lost vs),
        add_mod st.incl_bytes (incl v) (total incl vs),
        add_mod st.orig_bytes (orig v) (total orig vs),
      )
      refl

module _ {P W : Type 0} (files : List (ℕ × P)) (open_file : P → Option (List ℕ))
    (try_decode : List ℕ → Option WalRecord) (write_packet : PcapPacket → W → Option W)
    (filter : BpfFilter) where
  unfoldable pub judge : Option WalRecord → Verdict
  judge none = lost
  judge (some rec) = if matches_record filter rec then kept rec else dropped

  unfoldable pub verdict : RecordRow → Option Verdict
  unfolding judge
  verdict row =
      if matches_summary filter row.summary
      then (do
        rec ← read_back files open_file try_decode write_packet row.packet_idx
        some (judge rec))
      else some dropped

  unfoldable pub verdicts : List RecordRow → Option (List Verdict)
  unfolding verdict
  verdicts [] = some []
  verdicts (row ∷ rows) = do v ← verdict row; vs ← verdicts rows; some (v ∷ vs)

  unfoldable pub put : Verdict → W → Option W
  put dropped w = some w
  put lost w = some w
  put (kept rec) w = write_packet (packet_of rec) w

  unfoldable pub put_all : List Verdict → W → Option W
  unfolding put
  put_all [] w = some w
  put_all (v ∷ vs) w = do w' ← put v w; put_all vs w'

  -- The writer after the packets of the kept rows, in order, and the counters.
  unfoldable pub outcome : List RecordRow → W → PcapStats → Option (W × PcapStats)
  unfolding verdicts put_all tally_on
  outcome rows w st = do vs ← verdicts rows; w' ← put_all vs w; some (w', tally_on st vs)
