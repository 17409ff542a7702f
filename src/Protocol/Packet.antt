-- ===== src/Protocol/Packet.antt =====
-- `Packet` and `encode_packet` of protocol/packet.py. `bytes` are lists of numbers below 256.
use teensy_io.Base.{ℕ, ◌/◌, ◌%◌, ◌^◌, ◌<◌, ◌≤◌, List, [], ◌∷◌, ◌++◌, bit_and}
use teensy_io.Base.{ltb, if◌then◌else◌, length, All, IsByte}
use teensy_io.Protocol.Commands.{PacketType, type_code}
use teensy_io.Protocol.Errors.{Error, Result, ok, err}
use teensy_io.Protocol.Crc.{crc16_ccitt}

abbrev pub start_byte : ℕ
start_byte = 0xA5

abbrev pub protocol_version : ℕ
protocol_version = 0x01

abbrev pub max_payload_size : ℕ
max_payload_size = 128

pub record Packet : Type 0 where
  pub type : PacketType
  pub seq : ℕ
  pub payload : List ℕ

-- What fits the wire format: a sequence number of two bytes and a payload of at most 128.
pub record IsPacket (p : Packet) : Type 0 where
  pub fits_seq : p.seq < 65536
  pub fits_payload : length p.payload ≤ 128
  pub all_bytes : All IsByte p.payload

-- `value.to_bytes(2, "little")` of a checksum
abbrev pub to_bytes2 : ℕ → List ℕ
to_bytes2 v = (v % 256) ∷ (v / 256) ∷ []

unfoldable pub header : Packet → List ℕ
header p =
    protocol_version
    ∷ type_code p.type
    ∷ bit_and p.seq 0xFF
    ∷ bit_and (p.seq / 2 ^ 8) 0xFF
    ∷ bit_and (length p.payload) 0xFF
    ∷ bit_and (length p.payload / 2 ^ 8) 0xFF
    ∷ []

unfoldable pub encode_packet : Packet → Result (List ℕ)
unfolding header
encode_packet p =
    if ltb max_payload_size (length p.payload)
    then err Error.protocol
    else ok (
        (start_byte ∷ [])
        ++ (header p ++ (p.payload ++ to_bytes2 (crc16_ccitt (header p ++ p.payload)))))
