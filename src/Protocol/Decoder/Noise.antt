-- ===== src/Protocol/Decoder/Noise.antt =====
-- The decoder on packets with other bytes around them.
use teensy_io.Base.{ℕ, zero, suc, ◌<◌, List, [], ◌∷◌, ◌++◌, map, ◌≡◌, ◌≢◌, refl, ap, ◌∙◌}
use teensy_io.Base.{arith, length, length-append, All}
use teensy_io.Protocol.Errors.{Result, ok, ◌>>=◌}
use teensy_io.Protocol.Packet.{Packet, IsPacket, encode_packet, start_byte}
use teensy_io.Protocol.Decoder.{Round, index_from, round, feed_loop, feed}
use teensy_io.Protocol.Decoder.Rounds.{round-noise}
use teensy_io.Protocol.Decoder.RoundTrip.{wire, encode_packet-wire, round-wire}
use teensy_io.Protocol.Decoder.Loop.{feed_loop-packet, feed_loop-packets, feed_loop-done, before}

-- Bytes none of which is the start byte.
abbrev pub Quiet : List ℕ → Type 0
Quiet = All (λ b. b ≢ start_byte)

-- A packet, and the bytes before it.
abbrev pub Fits : List ℕ × Packet → Type 0
Fits (noise, p) = Quiet noise × IsPacket p

abbrev pub packets : List (List ℕ × Packet) → List Packet
packets = map (λ item. item.1)

-- The encodings of packets, each behind the bytes before it, and other bytes at the end.
unfoldable pub encode_noisy : List (List ℕ × Packet) → List ℕ → Result (List ℕ)
encode_noisy [] tail = ok tail
encode_noisy ((noise, p) ∷ items) tail = do
  bytes ← encode_packet p
  more ← encode_noisy items tail
  ok (noise ++ (bytes ++ more))

abbrev noisy_wires : List (List ℕ × Packet) → List ℕ → List ℕ
noisy_wires [] tail = tail
noisy_wires ((noise, p) ∷ items) tail = noise ++ (wire p ++ noisy_wires items tail)

encode_noisy-wires :
    (items : List (List ℕ × Packet)) (tail : List ℕ)
    → All Fits items
    → encode_noisy items tail ≡ ok (noisy_wires items tail)
unfolding encode_noisy
encode_noisy-wires [] tail h = refl
encode_noisy-wires ((noise, p) ∷ items) tail ((_, valid), h) =
    rw (encode_packet-wire p valid.fits_payload, encode_noisy-wires items tail h) refl

round-Quiet : (noise rest : List ℕ) → Quiet noise → round (noise ++ rest) ≡ round rest
round-Quiet [] rest h = refl
round-Quiet (b ∷ noise) rest (other, h) =
    round-noise b (noise ++ rest) other ∙ round-Quiet noise rest h

round-Quiet_end : (noise : List ℕ) → Quiet noise → round noise ≡ Round.done []
round-Quiet_end [] h = unfold round index_from in refl
round-Quiet_end (b ∷ noise) (other, h) = round-noise b noise other ∙ round-Quiet_end noise h

feed_loop-noisy :
    (f : ℕ) (items : List (List ℕ × Packet)) (tail : List ℕ)
    → All Fits items
    → Quiet tail
    → length (noisy_wires items tail) < f
    → feed_loop f (noisy_wires items tail) [] ≡ (ok (packets items), [])
feed_loop-noisy zero items tail h q k = absurd (omega arith)
feed_loop-noisy (suc f) [] tail h q k = feed_loop-done f tail [] [] (round-Quiet_end tail q)
feed_loop-noisy (suc f) ((noise, p) ∷ items) tail ((quiet, valid), h) q k =
    let rest = noisy_wires items tail in
    feed_loop-packet f (noise ++ (wire p ++ rest)) [] rest p
      (round-Quiet noise (wire p ++ rest) quiet ∙ round-wire p rest valid)
    ∙ feed_loop-packets f rest (p ∷ [])
    ∙ ap (before (p ∷ [])) (
        feed_loop-noisy f items tail h q
          (omega (arith, length-append noise (wire p ++ rest), length-append (wire p) rest)))

-- A fresh decoder finds every packet between other bytes: if none of the bytes before, between and
-- behind the encodings is the start byte, it returns exactly the packets, in their order, and keeps
-- no byte.
pub feed-encode_noisy :
    (items : List (List ℕ × Packet)) (tail : List ℕ)
    → All Fits items
    → Quiet tail
    → (bytes : List ℕ) × (encode_noisy items tail ≡ ok bytes)
      × (feed [] bytes ≡ (ok (packets items), []))
unfolding feed
feed-encode_noisy items tail h q = (
  noisy_wires items tail,
  encode_noisy-wires items tail h,
  feed_loop-noisy (suc (length (noisy_wires items tail))) items tail h q (omega arith),
)
