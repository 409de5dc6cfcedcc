-- ===== src/Db/Keys/Order.antt =====
-- src/db.rs and the range scans of src/qr.rs and src/anomaly.rs: which rows a range of keys selects.
use Prim.Native.Nat.{compare, Ordering}
use sov_vault.Base.{
  ℕ, ◌-◌, ◌^◌, ◌≤◌, ◌<◌, ◌≡◌, ◌↔◌, ◌∙◌, Bool, true, false, List, [], ◌∷◌, ◌++◌, arith,
}
use sov_vault.Bytes.{to_be_bytes}
use sov_vault.Bytes.Lex.{lex, compare_bytes, compare-field}
use sov_vault.Db.Keys.{k_qr_pending, k_qr_pending_prefix, k_pending_ttl}

abbrev pub within : Ordering → Ordering → Bool
within Ordering.gt _ = false
within _ Ordering.gt = false
within _ _ = true

-- `Bound::Included(lo)` and `Bound::Included(hi)`.
unfoldable pub in_range : List ℕ → List ℕ → List ℕ → Bool
in_range lo hi k = within (compare_bytes lo k) (compare_bytes k hi)

-- `lo` and `hi` of `count_live_pending` and `cleanup_pending`: a connection's whole block.
unfoldable pub block_lo : ℕ → List ℕ
block_lo h = to_be_bytes 8 h ++ 0 ∷ 0 ∷ 0 ∷ 0 ∷ 0 ∷ 0 ∷ 0 ∷ 0 ∷ []

unfoldable pub block_hi : ℕ → List ℕ
block_hi h = to_be_bytes 8 h ++ 0xff ∷ 0xff ∷ 0xff ∷ 0xff ∷ 0xff ∷ 0xff ∷ 0xff ∷ 0xff ∷ []

module _ (h i e : ℕ) (h_fits : h < 2 ^ 64) (i_fits : i < 2 ^ 16) (e_fits : e < 2 ^ 48) where
  prefix-key :
      (h₀ i₀ : ℕ)
      → h₀ < 2 ^ 64
      → i₀ < 2 ^ 16
      → compare_bytes (k_qr_pending_prefix h₀ i₀) (k_qr_pending h i e)
        ≡ lex (compare h₀ h) (lex (compare i₀ i) Ordering.lt)
  unfolding k_qr_pending_prefix k_qr_pending compare_bytes to_be_bytes
  prefix-key h₀ i₀ hh₀ hi₀ =
      compare-field 8 h₀ h (to_be_bytes 2 i₀ ++ []) (to_be_bytes 2 i ++ (to_be_bytes 6 e ++ [])) hh₀
        h_fits
      ∙ rw (compare-field 2 i₀ i [] (to_be_bytes 6 e ++ []) hi₀ i_fits)

  key-key :
      (h₀ i₀ e₀ : ℕ)
      → h₀ < 2 ^ 64
      → i₀ < 2 ^ 16
      → e₀ < 2 ^ 48
      → compare_bytes (k_qr_pending h i e) (k_qr_pending h₀ i₀ e₀)
        ≡ lex (compare h h₀) (lex (compare i i₀) (lex (compare e e₀) Ordering.eq))
  unfolding k_qr_pending compare_bytes
  key-key h₀ i₀ e₀ hh₀ hi₀ he₀ =
      compare-field 8 h h₀ (to_be_bytes 2 i ++ (to_be_bytes 6 e ++ []))
        (to_be_bytes 2 i₀ ++ (to_be_bytes 6 e₀ ++ [])) h_fits hh₀
      ∙ rw (
        compare-field 2 i i₀ (to_be_bytes 6 e ++ []) (to_be_bytes 6 e₀ ++ []) i_fits hi₀,
        compare-field 6 e e₀ [] [] e_fits he₀,
      )

  -- For fields within their widths, the range scanned for a generation of a connection up to a
  -- limit holds the key of a request exactly when connection and generation agree and the request
  -- ends by the limit.
  pub in_range-k_qr_pending :
      (h₀ i₀ limit : ℕ)
      → h₀ < 2 ^ 64
      → i₀ < 2 ^ 16
      → limit < 2 ^ 48
      → (in_range (k_qr_pending_prefix h₀ i₀) (k_qr_pending h₀ i₀ limit) (k_qr_pending h i e)
          ≡ true)
        ↔ ((h ≡ h₀) × (i ≡ i₀) × (e ≤ limit))
  unfolding in_range
  in_range-k_qr_pending h₀ i₀ limit hh₀ hi₀ hl =
      rw (in_range, prefix-key h₀ i₀ hh₀ hi₀, key-key h₀ i₀ limit hh₀ hi₀ hl) (ground arith)

  zeros-key :
      (h₀ : ℕ)
      → h₀ < 2 ^ 64
      → compare_bytes (block_lo h₀) (k_qr_pending h i e)
        ≡ lex (compare h₀ h) (lex (compare 0 i) (lex (compare 0 e) Ordering.eq))
  unfolding block_lo k_qr_pending compare_bytes to_be_bytes
  zeros-key h₀ hh₀ =
      compare-field 8 h₀ h (to_be_bytes 2 0 ++ (to_be_bytes 6 0 ++ []))
        (to_be_bytes 2 i ++ (to_be_bytes 6 e ++ [])) hh₀ h_fits
      ∙ rw (
        compare-field 2 0 i (to_be_bytes 6 0 ++ []) (to_be_bytes 6 e ++ []) (omega arith) i_fits,
        compare-field 6 0 e [] [] (omega arith) e_fits,
      )

  key-ones :
      (h₀ : ℕ)
      → h₀ < 2 ^ 64
      → compare_bytes (k_qr_pending h i e) (block_hi h₀)
        ≡ lex
            (compare h h₀)
            (lex (compare i (2 ^ 16 - 1)) (lex (compare e (2 ^ 48 - 1)) Ordering.eq))
  unfolding block_hi k_qr_pending compare_bytes to_be_bytes
  key-ones h₀ hh₀ =
      compare-field 8 h h₀ (to_be_bytes 2 i ++ (to_be_bytes 6 e ++ []))
        (to_be_bytes 2 (2 ^ 16 - 1) ++ (to_be_bytes 6 (2 ^ 48 - 1) ++ [])) h_fits hh₀
      ∙ rw (
        compare-field 2 i (2 ^ 16 - 1) (to_be_bytes 6 e ++ []) (to_be_bytes 6 (2 ^ 48 - 1) ++ [])
            i_fits (omega arith),
        compare-field 6 e (2 ^ 48 - 1) [] [] e_fits (omega arith),
      )

  -- For fields within their widths, the block of keys scanned for a connection holds the key of a
  -- request exactly when it is that connection's, of any generation.
  pub in_range-block :
      (h₀ : ℕ)
      → h₀ < 2 ^ 64
      → (in_range (block_lo h₀) (block_hi h₀) (k_qr_pending h i e) ≡ true) ↔ (h ≡ h₀)
  unfolding in_range
  in_range-block h₀ hh₀ = rw (in_range, zeros-key h₀ hh₀, key-ones h₀ hh₀) (ground arith)

-- `lo` and `hi` of the TTL scan: every row opened at `t` or earlier.
unfoldable pub ttl_lo : List ℕ
ttl_lo = 0 ∷ 0 ∷ 0 ∷ 0 ∷ 0 ∷ 0 ∷ 0 ∷ 0 ∷ 0 ∷ 0 ∷ 0 ∷ 0 ∷ 0 ∷ 0 ∷ 0 ∷ 0 ∷ []

unfoldable pub ttl_hi : ℕ → List ℕ
ttl_hi t = to_be_bytes 8 t ++ 0xff ∷ 0xff ∷ 0xff ∷ 0xff ∷ 0xff ∷ 0xff ∷ 0xff ∷ 0xff ∷ []

module _ (q_ts h : ℕ) (ts_fits : q_ts < 2 ^ 64) (h_fits : h < 2 ^ 64) where
  lo-ttl :
      compare_bytes ttl_lo (k_pending_ttl q_ts h)
      ≡ lex (compare 0 q_ts) (lex (compare 0 h) Ordering.eq)
  unfolding ttl_lo k_pending_ttl compare_bytes to_be_bytes
  lo-ttl =
      compare-field 8 0 q_ts (to_be_bytes 8 0 ++ []) (to_be_bytes 8 h ++ []) (omega arith) ts_fits
      ∙ rw (compare-field 8 0 h [] [] (omega arith) h_fits)

  ttl-hi :
      (t : ℕ)
      → t < 2 ^ 64
      → compare_bytes (k_pending_ttl q_ts h) (ttl_hi t)
        ≡ lex (compare q_ts t) (lex (compare h (2 ^ 64 - 1)) Ordering.eq)
  unfolding ttl_hi k_pending_ttl compare_bytes to_be_bytes
  ttl-hi t ht =
      compare-field 8 q_ts t (to_be_bytes 8 h ++ []) (to_be_bytes 8 (2 ^ 64 - 1) ++ []) ts_fits ht
      ∙ rw (compare-field 8 h (2 ^ 64 - 1) [] [] h_fits (omega arith))

  -- For fields of 64 bits, the range of the TTL scan up to a time holds the key of a row exactly
  -- when the row was opened at that time or earlier, whatever its connection.
  pub in_range-k_pending_ttl :
      (t : ℕ) → t < 2 ^ 64 → (in_range ttl_lo (ttl_hi t) (k_pending_ttl q_ts h) ≡ true) ↔ (q_ts ≤ t)
  unfolding in_range
  in_range-k_pending_ttl t ht = rw (in_range, lo-ttl, ttl-hi t ht) (ground arith)
