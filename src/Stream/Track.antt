-- ===== src/Stream/Track.antt =====
-- The translator, and the sender's own, unbounded sequence numbers.
use sov_vault.Base.{ℕ, ◌+◌, ◌-◌, ◌%◌, ◌^◌, ◌<◌, ◌≡◌, refl, ap, max, true, List, [], ◌∷◌, arith}
use sov_vault.Stream.{SeqStream, abs_of, feed_packet}

-- The stream stands at the absolute number `last_abs`, of which `last_raw` is the low half.
pub record Tracks (s : SeqStream) : Type 0 where
  pub active : s.active ≡ true
  pub low_half : s.last_raw ≡ s.last_abs % 2 ^ 32

-- The sender's number `p` is within half the 32-bit space of the stream's head.
pub record Near (s : SeqStream) (p : ℕ) : Type 0 where
  pub not_ahead : p < s.last_abs + 2 ^ 31
  pub not_behind : s.last_abs < p + 2 ^ 31

-- The stream that stands at `e`.
abbrev pub head_at : ℕ → SeqStream
head_at e = record { last_raw = e % 2 ^ 32; last_abs = e; active = true }

-- A packet that the sender put at `p` is placed there, whatever wrapped on the way: the head moves to
-- the end of the packet if that is further, and what counts as new is the part past the old head.
pub feed_packet_exact :
    (s : SeqStream) (p len : ℕ)
    → Tracks s
    → Near s p
    → len < 2 ^ 31
    → p + len < 2 ^ 64
    → s.last_abs < 2 ^ 64
    → feed_packet s (p % 2 ^ 32) len
      ≡ (head_at (max s.last_abs (p + len)), max s.last_abs p, p + len - max s.last_abs p)
unfolding feed_packet
feed_packet_exact s p len t n hl hp hs = ground arith

-- A stream that stands at a number below which the low half is its raw number, and an acknowledged
-- number below 2^64 within 2^31 of it: the translation is the acknowledged number, but never below
-- the head.
pub abs_of_exact :
    (s : SeqStream) (p : ℕ)
    → Tracks s
    → Near s p
    → p < 2 ^ 64
    → abs_of s (p % 2 ^ 32) ≡ max s.last_abs p
unfolding abs_of
abs_of_exact s p t n hp = ground arith

-- Packets as the sender numbers them: position and length.
pub feed_all : SeqStream → List (ℕ × ℕ) → SeqStream
feed_all s [] = s
feed_all s ((p, len) ∷ ps) = feed_all (feed_packet s (p % 2 ^ 32) len).0 ps

-- How many bytes the stream reports as new over such a run.
pub new_bytes : SeqStream → List (ℕ × ℕ) → ℕ
new_bytes s [] = 0
new_bytes s ((p, len) ∷ ps) =
    (feed_packet s (p % 2 ^ 32) len).2 + new_bytes (feed_packet s (p % 2 ^ 32) len).0 ps

-- The furthest end among the packets, from `e` on.
abbrev pub furthest : ℕ → List (ℕ × ℕ) → ℕ
furthest e [] = e
furthest e ((p, len) ∷ ps) = furthest (max e (p + len)) ps

-- Every packet is near the furthest end that was reached before it.
abbrev pub InWindow : ℕ → List (ℕ × ℕ) → Type 0
InWindow e [] = Unit {0}
InWindow e ((p, len) ∷ ps) =
    (p < e + 2 ^ 31)
    × (e < p + 2 ^ 31)
    × (len < 2 ^ 31)
    × (p + len < 2 ^ 64)
    × InWindow (max e (p + len)) ps

-- The bytes of the packets that no earlier packet reached past, holes before them left out.
abbrev pub fresh_bytes : ℕ → List (ℕ × ℕ) → ℕ
fresh_bytes e [] = 0
fresh_bytes e ((p, len) ∷ ps) = (p + len - max e p) + fresh_bytes (max e (p + len)) ps

-- From a head at e below 2^64, over packets that each lie within 2^31 of the head of their time,
-- are shorter than 2^31 and end below 2^64, the translator's head is the furthest end reached,
-- with its low half as the raw number, and the bytes it reports as new are those past everything
-- before them.
pub feed_all_exact :
    (e : ℕ) (ps : List (ℕ × ℕ))
    → e < 2 ^ 64
    → InWindow e ps
    → (feed_all (head_at e) ps ≡ head_at (furthest e ps))
      × (new_bytes (head_at e) ps ≡ fresh_bytes e ps)
unfolding feed_all new_bytes
feed_all_exact e [] he w = (refl, refl)
feed_all_exact e ((p, len) ∷ ps) he w =
    let step =
      feed_packet_exact (head_at e) p len (record { active = refl; low_half = refl })
        (record { not_ahead = w.0; not_behind = w.1 }) w.2 w.3 he in
    let ih = feed_all_exact (max e (p + len)) ps (omega arith) w.4 in
    rw step (ih.0, ap (λ (n : ℕ). (p + len - max e p) + n) ih.1)
