-- ===== src/Tests/OnProtocol.antt =====
-- The protocol on concrete packets.
use teensy_io.Base.{ℕ, List, [], ◌∷◌, ◌++◌, take, drop, All, IsByte, arith, ◌≡◌, ◌≢◌, refl}
use mathlib.Core.List.{flatten}
use teensy_io.Protocol.Commands.{PacketType, type_code, packet_type}
use teensy_io.Protocol.Errors.{Error, ok, err, stuck}
use teensy_io.Protocol.Crc.{crc16_ccitt, crc_loop}
use teensy_io.Protocol.Crc.Detect.{crc16_ccitt_detects}
use teensy_io.Protocol.Packet.{Packet, IsPacket, to_bytes2}
use teensy_io.Protocol.Decoder.{feed}
use teensy_io.Protocol.Decoder.Loop.{feed-ne-stuck}
use teensy_io.Protocol.Decoder.RoundTrip.{wire, encode_packets, feed-encode_packets}
use teensy_io.Protocol.Decoder.Noise.{encode_noisy, feed-encode_noisy}
use teensy_io.Protocol.Decoder.Chunks.{feed_all, feed_all-flatten}
use teensy_io.Protocol.Decoder.Settled.{IsSettled, empty-IsSettled, feed-IsSettled}
use teensy_io.Protocol.Decoder.Carries.{Carries, feed-Carries}
use teensy_io.Protocol.Decoder.Faults.{feed-stays_wedged}

-- The checksum of the catalogue: "123456789" gives 0x29B1.
crc_check : crc16_ccitt (49 ∷ 50 ∷ 51 ∷ 52 ∷ 53 ∷ 54 ∷ 55 ∷ 56 ∷ 57 ∷ []) ≡ 0x29B1
unfolding crc16_ccitt crc_loop
crc_check = refl

abbrev ping : Packet
ping = record { type = PacketType.command; seq = 0x1234; payload = 1 ∷ [] }

abbrev pong : Packet
pong = record { type = PacketType.data_; seq = 0x1234; payload = 112 ∷ 111 ∷ 110 ∷ 103 ∷ [] }

ping-IsPacket : IsPacket ping
ping-IsPacket = record {
  fits_seq = omega arith;
  fits_payload = omega arith;
  all_bytes = (omega arith, tt);
}

pong-IsPacket : IsPacket pong
pong-IsPacket = record {
  fits_seq = omega arith;
  fits_payload = omega arith;
  all_bytes = (omega arith, (omega arith, (omega arith, (omega arith, tt))));
}

feed-encode_packets_example :
    (bytes : List ℕ) × (encode_packets (ping ∷ pong ∷ []) ≡ ok bytes)
    × (feed [] bytes ≡ (ok (ping ∷ pong ∷ []), []))
feed-encode_packets_example =
    feed-encode_packets (ping ∷ pong ∷ []) (ping-IsPacket, (pong-IsPacket, tt))

-- Two bytes of noise, and a packet.
abbrev noisy : List ℕ
noisy = 0 ∷ 7 ∷ wire ping

noisy_decodes : feed [] noisy ≡ (ok (ping ∷ []), [])
unfolding feed crc16_ccitt type_code packet_type
noisy_decodes = refl

-- The first five bytes of a packet, to be completed later.
begun_decodes : feed [] (take 5 (wire ping)) ≡ (ok [], take 5 (wire ping))
unfolding feed crc16_ccitt type_code packet_type
begun_decodes = refl

-- A frame with a right checksum whose type is 9, which is no `PacketType`.
abbrev unknown_header : List ℕ
unknown_header = 1 ∷ 9 ∷ 0 ∷ 0 ∷ 0 ∷ 0 ∷ []

abbrev unknown_frame : List ℕ
unknown_frame = 0xA5 ∷ (unknown_header ++ to_bytes2 (crc16_ccitt unknown_header))

unknown_raises : feed [] unknown_frame ≡ (err Error.value_error, unknown_frame)
unfolding feed crc16_ccitt packet_type
unknown_raises = refl

-- Both packets, with other bytes around them.
abbrev noisy_items : List (List ℕ × Packet)
noisy_items = (0 ∷ 7 ∷ [], ping) ∷ (255 ∷ [], pong) ∷ []

feed-encode_noisy_example :
    (bytes : List ℕ) × (encode_noisy noisy_items (1 ∷ 2 ∷ []) ≡ ok bytes)
    × (feed [] bytes ≡ (ok (ping ∷ pong ∷ []), []))
feed-encode_noisy_example =
    feed-encode_noisy noisy_items (1 ∷ 2 ∷ [])
      (((omega arith, (omega arith, tt)), ping-IsPacket), (((omega arith, tt), pong-IsPacket), tt))
      (omega arith, (omega arith, tt))

feed_all-flatten_example :
    (feed_all [] (take 3 noisy ∷ drop 3 noisy ∷ wire pong ∷ [])).0
    ≡ (feed [] (flatten (take 3 noisy ∷ drop 3 noisy ∷ wire pong ∷ []))).0
feed_all-flatten_example =
    feed_all-flatten (take 3 noisy ∷ drop 3 noisy ∷ wire pong ∷ []) [] empty-IsSettled

noisy-IsByte : All IsByte noisy
unfolding crc16_ccitt type_code
noisy-IsByte = ground arith

feed-Carries_example : Carries noisy (ping ∷ []) []
feed-Carries_example = feed-Carries [] noisy [] (ping ∷ []) noisy-IsByte noisy_decodes

crc16_ccitt_detects_example : crc16_ccitt (1 ∷ 7 ∷ 3 ∷ []) ≢ crc16_ccitt (1 ∷ 8 ∷ 3 ∷ [])
crc16_ccitt_detects_example =
    crc16_ccitt_detects (1 ∷ []) (3 ∷ []) 7 8 (omega arith, tt) (omega arith) (omega arith)
      (omega arith)

feed-ne-stuck_example : (feed noisy (wire pong)).0 ≢ stuck
feed-ne-stuck_example = feed-ne-stuck noisy (wire pong)

feed-IsSettled_example : IsSettled (take 5 (wire ping))
feed-IsSettled_example =
    feed-IsSettled [] (take 5 (wire ping)) (take 5 (wire ping)) [] begun_decodes

feed-stays_wedged_example :
    (Error.value_error ≡ Error.value_error)
    × (feed unknown_frame (wire ping) ≡ (err Error.value_error, unknown_frame ++ wire ping))
feed-stays_wedged_example =
    feed-stays_wedged [] unknown_frame (wire ping) unknown_frame Error.value_error unknown_raises
