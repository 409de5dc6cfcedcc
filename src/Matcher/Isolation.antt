-- ===== src/Matcher/Isolation.antt =====
-- src/qr.rs: an acknowledgement, a reset and a new generation, as QR_PENDING shows them.
use sov_vault.Base.{
  ℕ, ◌≡◌, ◌∙◌, ◌<◌, ◌^◌, Bool, true, ◌&&◌, List, Option, none, some, min, arith, if◌then◌else◌, leb,
  ◌==◌,
}
use sov_vault.Connection.State.{ConnState}
use sov_vault.Db.Keys.{k_qr_pending, k_qr_pending_prefix}
use sov_vault.Db.Keys.Order.{in_range, in_range-k_qr_pending}
use sov_vault.Db.Pair.{QrStatus}
use sov_vault.Map.{nat_eq}
use sov_vault.Store.{Lmdb}
use sov_vault.Matcher.Types.{
  WalRecord, Masks, IndexedRecord, Dir, AnomKind, event, gen_flip, rst_cascade_of, u48_max,
  saturating_add64,
}
use sov_vault.Matcher.Rows.{Matcher, scan_pending_upto}
use sov_vault.Matcher.Terminal.{consume_r, rst_cascade, flip_known}
use sov_vault.Matcher.Pending.{decodes, hit_at-scan, pending-consume_hits, pending-abort_hits}

-- The row of QR_PENDING of a request of generation `i₀` of connection `h₀` that ends by `limit`.
abbrev pub due : ℕ → ℕ → ℕ → ℕ → ℕ → ℕ → Bool
due h₀ i₀ limit h i e = (h == h₀) && (i == i₀) && leb e limit

-- The row of such a request after a scan up to `limit` whose hits are all cleared.
module _ (db : Lmdb) where
  abbrev pub swept : ℕ → ℕ → ℕ → ℕ → ℕ → ℕ → Matcher db → Option (List ℕ)
  swept h₀ i₀ limit h i e m =
      let row = db.get m.live_qr_pending (k_qr_pending h i e) in
      if due h₀ i₀ limit h i e && decodes row then none else row

module _ (db : Lmdb) (h i e : ℕ) (h_fits : h < 2 ^ 64) (i_fits : i < 2 ^ 16)
    (e_fits : e < 2 ^ 48) where
  open db use {get}

  in_range-due :
      (h₀ i₀ limit : ℕ)
      → h₀ < 2 ^ 64
      → i₀ < 2 ^ 16
      → limit < 2 ^ 48
      → in_range (k_qr_pending_prefix h₀ i₀) (k_qr_pending h₀ i₀ limit) (k_qr_pending h i e)
        ≡ due h₀ i₀ limit h i e
  in_range-due h₀ i₀ limit hh hi hl =
      ground (arith, in_range-k_qr_pending h i e h_fits i_fits e_fits h₀ i₀ limit hh hi hl)

  -- For hashes, generations and ends within their key fields: an acknowledgement removes from
  -- QR_PENDING the decodable row of a request exactly when it belongs to the same connection and
  -- generation and ends within the acknowledgement plus tolerance; every other such row stays.
  pub consume_r-pending :
      (h₀ : ℕ) (r : IndexedRecord) (abs_ack : ℕ) (st : ConnState) (m : Matcher db)
      → h₀ < 2 ^ 64
      → st.incarnation < 2 ^ 16
      → get (consume_r db h₀ r abs_ack (st, m)).1.live_qr_pending (k_qr_pending h i e)
        ≡ swept db h₀ st.incarnation (min (saturating_add64 abs_ack m.ack_tol) u48_max) h i e m
  unfolding consume_r
  consume_r-pending h₀ r abs_ack st m hh hi =
      let limit = saturating_add64 abs_ack m.ack_tol in
      let key = k_qr_pending h i e in
      pending-consume_hits db h₀ r true (scan_pending_upto db m h₀ st.incarnation limit) st m key
      ∙ rw (
        hit_at-scan db m h₀ st.incarnation limit key,
        in_range-due h₀ st.incarnation (min limit u48_max) hh hi (omega arith),
      )

  -- For hashes, generations and ends within their key fields: a reset removes from QR_PENDING
  -- exactly the decodable rows of the connection's current generation and leaves each other row.
  pub rst_cascade-pending :
      (h₀ : ℕ) (rec : WalRecord) (st : ConnState) (m : Matcher db)
      → h₀ < 2 ^ 64
      → st.incarnation < 2 ^ 16
      → get (rst_cascade db h₀ rec (st, m)).1.live_qr_pending (k_qr_pending h i e)
        ≡ swept db h₀ st.incarnation u48_max h i e m
  unfolding rst_cascade
  rst_cascade-pending h₀ rec st m hh hi =
      let key = k_qr_pending h i e in
      pending-abort_hits db h₀ QrStatus.rst_abort
        (λ hit.
          event rec.timestamp_ns AnomKind.qr_rst_abort h₀ (some hit.q_first_idx)
            (rst_cascade_of st.incarnation))
        (scan_pending_upto db m h₀ st.incarnation u48_max) m key
      ∙ rw (
        hit_at-scan db m h₀ st.incarnation u48_max key,
        in_range-due h₀ st.incarnation u48_max hh hi (omega arith),
      )

  -- For hashes, generations and ends within their key fields: opening a new generation removes
  -- from QR_PENDING exactly the decodable rows of the connection's old generation and leaves each
  -- other row.
  pub flip_known-pending :
      (masks : Masks) (h₀ : ℕ) (rec : WalRecord) (dir : Dir) (syn_idx : ℕ) (st : ConnState)
      (m : Matcher db)
      → h₀ < 2 ^ 64
      → st.incarnation < 2 ^ 16
      → get (flip_known db masks h₀ rec dir syn_idx st m).live_qr_pending (k_qr_pending h i e)
        ≡ swept db h₀ st.incarnation u48_max h i e m
  unfolding flip_known
  flip_known-pending masks h₀ rec dir syn_idx st m hh hi =
      let key = k_qr_pending h i e in
      pending-abort_hits db h₀ QrStatus.unmatched
        (λ hit.
          event rec.timestamp_ns AnomKind.qr_unmatched h₀ (some hit.q_first_idx)
            (gen_flip st.incarnation))
        (scan_pending_upto db m h₀ st.incarnation u48_max) m key
      ∙ rw (
        hit_at-scan db m h₀ st.incarnation u48_max key,
        in_range-due h₀ st.incarnation u48_max hh hi (omega arith),
      )
