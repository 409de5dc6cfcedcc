-- ===== src/Examples/Streams.antt =====
-- Runs of the translator of src/qr.rs on concrete packets.
use sov_vault.Base.{ℕ, ◌≡◌, max, ◌^◌, ◌%◌, refl, false, List, [], ◌∷◌, arith}
use sov_vault.Stream.{SeqStream, abs_of, feed_packet}
use sov_vault.Stream.Track.{
  head_at, feed_all, new_bytes, furthest, fresh_bytes, feed_all_exact, abs_of_exact,
}
use sov_vault.Stream.First.{feed_packet-first_again}

-- The second packet crosses 2^32, the third is the first one again, the fourth leaves a hole.
abbrev packets : List (ℕ × ℕ)
packets = (4294967290, 4) ∷ (4294967294, 10) ∷ (4294967290, 4) ∷ (4294967310, 5) ∷ []

feed_all_exact_example :
    (feed_all (head_at 4294967290) packets ≡ head_at (furthest 4294967290 packets))
    × (new_bytes (head_at 4294967290) packets ≡ fresh_bytes 4294967290 packets)
feed_all_exact_example = feed_all_exact 4294967290 packets (omega arith) (omega arith)

abs_of_exact_example : abs_of (head_at 4294967290) (4294967300 % 2 ^ 32) ≡ max 4294967290 4294967300
abs_of_exact_example =
    abs_of_exact (head_at 4294967290) 4294967300 (record { active = refl; low_half = refl })
      (record { not_ahead = omega arith; not_behind = omega arith }) (omega arith)

abbrev idle : SeqStream
idle = record { last_raw = 0; last_abs = 0; active = false }

feed_packet-first_again_example :
    ((feed_packet idle 100 20).1 ≡ 100)
    × ((feed_packet idle 100 20).2 ≡ 20)
    × ((feed_packet (feed_packet idle 100 20).0 100 20).1 ≡ 100)
    × ((feed_packet (feed_packet idle 100 20).0 100 20).2 ≡ 20)
feed_packet-first_again_example =
    feed_packet-first_again idle 100 20 refl (omega arith) (omega arith) (omega arith)
