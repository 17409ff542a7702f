-- ===== src/Protocol/Decoder/RoundTrip.antt =====
-- `feed` reads back what `encode_packet` wrote.
use teensy_io.Base.{
  ℕ, zero, suc, ◌*◌, ◌/◌, ◌%◌, ◌^◌, ◌≤◌, ◌<◌, List, [], ◌∷◌, ◌++◌, ◌≡◌, refl, ap, ◌∙◌,
}
use teensy_io.Base.{arith, length, length-append, bit_or, bit_and, All}
use teensy_io.Base.Bits.{bit_and_0xff, bit_or_fields}
use mathlib.Core.Path.{ap₂}
use teensy_io.Protocol.Commands.{type_code, packet_type-type_code}
use teensy_io.Protocol.Errors.{Result, ok, ◌>>=◌}
use teensy_io.Protocol.Crc.{crc16_ccitt}
use teensy_io.Protocol.Packet.{Packet, IsPacket, encode_packet}
use teensy_io.Protocol.Decoder.{Round, index_from, round, feed_loop, feed}
use teensy_io.Protocol.Decoder.Frames.{checked, frame, round-frame}
use teensy_io.Protocol.Decoder.Loop.{feed_loop-packet, feed_loop-packets, feed_loop-done, before}

-- The bytes of a packet that fits the wire.
abbrev pub wire : Packet → List ℕ
wire p =
    let s0 = bit_and p.seq 0xFF in
    let s1 = bit_and (p.seq / 2 ^ 8) 0xFF in
    let l0 = bit_and (length p.payload) 0xFF in
    let l1 = bit_and (length p.payload / 2 ^ 8) 0xFF in
    let sum = crc16_ccitt (checked (type_code p.type) s0 s1 l0 l1 p.payload) in
    frame (type_code p.type) s0 s1 l0 l1 p.payload (sum % 256) (sum / 256)

pub encode_packet-wire : (p : Packet) → length p.payload ≤ 128 → encode_packet p ≡ ok (wire p)
unfolding encode_packet
encode_packet-wire p h = ground arith

-- Two bytes that were split by masks come together again.
join_bytes : (n : ℕ) → n < 65536 → bit_or (bit_and n 0xFF) (bit_and (n / 2 ^ 8) 0xFF * 2 ^ 8) ≡ n
join_bytes n h =
    ap₂ (λ a b. bit_or a (b * 2 ^ 8)) (bit_and_0xff n) (bit_and_0xff (n / 2 ^ 8))
    ∙ bit_or_fields 8 (n % 256) (n / 2 ^ 8 % 256) (omega arith)
    ∙ omega arith

pub round-wire :
    (p : Packet) (rest : List ℕ) → IsPacket p → round (wire p ++ rest) ≡ Round.packet p rest
round-wire p rest h =
    let s0 = bit_and p.seq 0xFF in
    let s1 = bit_and (p.seq / 2 ^ 8) 0xFF in
    let l0 = bit_and (length p.payload) 0xFF in
    let l1 = bit_and (length p.payload / 2 ^ 8) 0xFF in
    let sum = crc16_ccitt (checked (type_code p.type) s0 s1 l0 l1 p.payload) in
    round-frame (type_code p.type) s0 s1 l0 l1 p.payload (sum % 256) (sum / 256) rest p.type
      (packet_type-type_code p.type) (join_bytes (length p.payload) (omega arith)) h.fits_payload
      (omega arith)
    ∙ ap (λ n. Round.packet (record { type = p.type; seq = n; payload = p.payload }) rest)
        (join_bytes p.seq h.fits_seq)

-- The bytes of packets that were sent one after the other.
abbrev pub wires : List Packet → List ℕ
wires [] = []
wires (p ∷ ps) = wire p ++ wires ps

feed_loop-wires :
    (f : ℕ) (ps : List Packet)
    → All IsPacket ps
    → length (wires ps) < f
    → feed_loop f (wires ps) [] ≡ (ok ps, [])
feed_loop-wires zero ps h k = absurd (omega arith)
feed_loop-wires (suc f) [] h k = feed_loop-done f [] [] [] (unfold round index_from in refl)
feed_loop-wires (suc f) (p ∷ ps) h k =
    feed_loop-packet f (wires (p ∷ ps)) [] (wires ps) p (round-wire p (wires ps) h.0)
    ∙ feed_loop-packets f (wires ps) (p ∷ [])
    ∙ ap (before (p ∷ []))
        (feed_loop-wires f ps h.1 (omega (arith, length-append (wire p) (wires ps))))

-- What `encode_packet` does one packet after the other, joined.
pub encode_packets : List Packet → Result (List ℕ)
encode_packets [] = ok []
encode_packets (p ∷ ps) = do bytes ← encode_packet p; more ← encode_packets ps; ok (bytes ++ more)

encode_packets-wires : (ps : List Packet) → All IsPacket ps → encode_packets ps ≡ ok (wires ps)
unfolding encode_packets
encode_packets-wires [] h = refl
encode_packets-wires (p ∷ ps) h =
    rw (encode_packet-wire p h.0.fits_payload, encode_packets-wires ps h.1)

-- A fresh decoder that is fed the encodings of any packets that fit the wire returns those packets,
-- in their order, and keeps no byte. Each of the packets could be encoded.
pub feed-encode_packets :
    (ps : List Packet)
    → All IsPacket ps
    → (bytes : List ℕ) × (encode_packets ps ≡ ok bytes) × (feed [] bytes ≡ (ok ps, []))
unfolding feed
feed-encode_packets ps h = (
  wires ps,
  encode_packets-wires ps h,
  feed_loop-wires (suc (length (wires ps))) ps h (omega arith),
)
