-- ===== src/Ttl/Window.antt =====
-- `scan_pending_ttl` and the rows of requests.
use sov_vault.Base.{
  ℕ, ◌+◌, ◌-◌, ◌^◌, ◌<◌, ◌≡◌, refl, false, List, [], ◌∷◌, ◌++◌, some, arith, length, ◌==◌,
  Option-cases, inl, inr,
}
use sov_vault.Bytes.{to_be_bytes, take-put_uint, take_uint-some}
use sov_vault.Db.Keys.{k_pending_ttl}
use sov_vault.Db.Keys.Order.{ttl_lo, ttl_hi}
use sov_vault.Db.Values.{v_pending_ttl_decode}
use sov_vault.Store.{Lmdb, Row, Has}
use sov_vault.Ttl.{
  TtlHit, Scan, halves, ttl_hits, evaluate_all, timeout_ns, short_ns, write_back, scan_pending_ttl,
}
use sov_vault.Ttl.Pairs.{Changes, evaluate_all-Changes, write_back-tables}

halves-some : (k : List ℕ) → length k ≡ 16 → (p : ℕ × ℕ) × (halves k ≡ some p)
unfolding halves
halves-some k h =
    let (a, rest, e, l) = take_uint-some 8 8 k (omega arith) in
    let (b, rest', e', _) = take_uint-some 8 0 rest (omega arith) in
    ((a, b), rw (halves, e, e') refl)

pub halves-k_pending_ttl :
    (q_ts h : ℕ) → q_ts < 2 ^ 64 → h < 2 ^ 64 → halves (k_pending_ttl q_ts h) ≡ some (q_ts, h)
unfolding halves k_pending_ttl
halves-k_pending_ttl q_ts h ts_fits h_fits =
    rw
      (
        halves,
        k_pending_ttl,
        take-put_uint 8 q_ts (to_be_bytes 8 h ++ []) ts_fits,
        take-put_uint 8 h [] h_fits,
      )
      refl

-- The keys of the rows have 16 bytes.
abbrev KeysFit : List Row → Type 0
KeysFit [] = Unit {0}
KeysFit ((k, v) ∷ rows) = (length k ≡ 16) × KeysFit rows

ttl_hits-total :
    (rows : List Row) → KeysFit rows → (hits : List TtlHit) × (ttl_hits rows ≡ some hits)
unfolding ttl_hits
ttl_hits-total [] f = ([], refl)
ttl_hits-total ((k, v) ∷ rows) f =
    let (hits, e) = ttl_hits-total rows f.1 in
    let (p, h) = halves-some k f.0 in
    elim (Option-cases (v_pending_ttl_decode v)) [
      | inl n ↦ (hits, rw (ttl_hits, n) e)
      | inr ((q, q_end), d) ↦ (
        record { key = k; q_ts = p.0; conn = p.1; q_first_idx = q } ∷ hits,
        rw (ttl_hits, d, h, e) refl,
      )
    ]

module _ (db : Lmdb) where
  open db use {get, range, range_iff}

  -- The keys of PENDING_TTL have 16 bytes.
  abbrev pub Keyed : Scan db → Type 0
  Keyed s = (k v : List ℕ) → get s.live_pending_ttl k ≡ some v → length k ≡ 16

  rows-KeysFit :
      (s : Scan db) (lo hi : List ℕ) (rows : List Row)
      → Keyed s
      → ((k v : List ℕ) → Has (k, v) rows → Has (k, v) (range s.live_pending_ttl lo hi))
      → KeysFit rows
  rows-KeysFit s lo hi [] f m = tt
  rows-KeysFit s lo hi ((k, v) ∷ rows) f m = (
    f k v ((range_iff s.live_pending_ttl lo hi k v).0 (m k v (inl refl))).0,
    rows-KeysFit s lo hi rows f (λ j w h. m j w (inr h)),
  )

  -- The tables as the scan leaves them.
  unfoldable pub Ran : ℕ → ℕ → ℕ → Scan db → Type 0
  Ran now qr_timeout_secs fin_short_timeout_secs s =
      let short = short_ns qr_timeout_secs fin_short_timeout_secs in
      let rows = range s.live_pending_ttl ttl_lo (ttl_hi (now - short)) in
      let counted : Scan db = record s {
        stats = record s.stats { scanned = s.stats.scanned + length rows };
      } in
      (hits : List TtlHit) × (ttl_hits rows ≡ some hits)
      × (s' : Scan db) × (scan_pending_ttl db now qr_timeout_secs fin_short_timeout_secs s
          ≡ some s')
      × (let done = evaluate_all db now (timeout_ns qr_timeout_secs) short hits counted in
          s' ≡ write_back db done.conn_cache done)

  pub scan-runs :
      (now timeout fin_short : ℕ) (s : Scan db)
      → 0 < timeout
      → Keyed s
      → Ran now timeout fin_short s
  unfolding scan_pending_ttl Ran
  scan-runs now timeout fin_short s on f =
      let short = short_ns timeout fin_short in
      let rows = range s.live_pending_ttl ttl_lo (ttl_hi (now - short)) in
      let (hits, e) =
        ttl_hits-total rows (rows-KeysFit s ttl_lo (ttl_hi (now - short)) rows f (λ k v h. h)) in
      let off : (timeout == 0) ≡ false = ground arith in
      (hits, e, _, rw (scan_pending_ttl, off, e) refl, refl)

  -- Let the timeout be above zero and the keys of PENDING_TTL have 16 bytes. The scan returns, and
  -- at each key one of three things holds of the two tables of requests: both rows are as before;
  -- or the epoch table has a row, which stays, and the live one has none afterwards; or the epoch
  -- table had none, the live row was pending, and afterwards the epoch table has that row with the
  -- status timeout and the live one none.
  pub scan_pending_ttl-pairs :
      (now timeout fin_short : ℕ) (s : Scan db)
      → 0 < timeout
      → Keyed s
      → (s' : Scan db) × (scan_pending_ttl db now timeout fin_short s ≡ some s')
        × ((key : List ℕ) → Changes db s s' key)
  unfolding Ran
  scan_pending_ttl-pairs now timeout fin_short s on f =
      let short = short_ns timeout fin_short in
      let rows = range s.live_pending_ttl ttl_lo (ttl_hi (now - short)) in
      let (hits, _, s', runs, shape) = scan-runs now timeout fin_short s on f in
      let counted : Scan db = record s {
        stats = record s.stats { scanned = s.stats.scanned + length rows };
      } in
      let done = evaluate_all db now (timeout_ns timeout) short hits counted in
      let same = write_back-tables db done.conn_cache done in
      (
        s',
        runs,
        λ key.
            rw (shape, same.0, same.1)
              (evaluate_all-Changes db now (timeout_ns timeout) short hits counted key),
      )
