-- ===== src/Stream/First.antt =====
-- What the translator does with the packet that starts a stream.
use sov_vault.Base.{ℕ, ◌^◌, ◌<◌, ◌≡◌, false, arith}
use sov_vault.Stream.{SeqStream, feed_packet}

-- When the packet that starts an inactive stream carries between 1 and 2^31 - 1 bytes at a raw
-- number below 2^32 and arrives twice, both copies are reported as new bytes at the same place.
pub feed_packet-first_again :
    (s : SeqStream) (seq len : ℕ)
    → s.active ≡ false
    → seq < 2 ^ 32
    → 0 < len
    → len < 2 ^ 31
    → ((feed_packet s seq len).1 ≡ seq)
      × ((feed_packet s seq len).2 ≡ len)
      × ((feed_packet (feed_packet s seq len).0 seq len).1 ≡ seq)
      × ((feed_packet (feed_packet s seq len).0 seq len).2 ≡ len)
unfolding feed_packet
feed_packet-first_again s seq len off hs pos short =
    (ground arith, ground arith, ground arith, ground arith)

-- A third copy is recognised: after the second one the head stands at the end of the data.
pub feed_packet-third_copy :
    (s : SeqStream) (seq len : ℕ)
    → s.active ≡ false
    → seq < 2 ^ 32
    → len < 2 ^ 31
    → (feed_packet (feed_packet (feed_packet s seq len).0 seq len).0 seq len).2 ≡ 0
unfolding feed_packet
feed_packet-third_copy s seq len off hs short = ground arith
