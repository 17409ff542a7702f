-- ===== src/Protocol/Decoder.antt =====
-- `PacketDecoder` of protocol/packet.py. The buffer is the decoder's state.
pub mod Rounds
pub mod Loop
pub mod Faults
pub mod Frames
pub mod RoundTrip
pub mod Noise
pub mod Settled
pub mod Sound
pub mod Fields
pub mod Carries
pub mod Chunks
use teensy_io.Base.{ℕ, zero, suc, ◌+◌, ◌-◌, ◌*◌, ◌^◌, List, [], ◌∷◌, ◌++◌, Option, none, some}
use teensy_io.Base.{bit_or, ltb, ◌==◌, if◌then◌else◌, length, get_or, take, drop, slice}
use teensy_io.Protocol.Commands.{packet_type}
use teensy_io.Protocol.Errors.{Error, Result, ok, err, stuck}
use teensy_io.Protocol.Crc.{crc16_ccitt}
use teensy_io.Protocol.Packet.{Packet, start_byte, protocol_version, max_payload_size}

-- `buffer.index(value)`, counted from `i`; `none` stands for the `ValueError`.
unfoldable pub index_from : ℕ → ℕ → List ℕ → Option ℕ
index_from value i [] = none
index_from value i (b ∷ bs) = if b == value then some i else index_from value (suc i) bs

-- `int.from_bytes(data, "little")`
abbrev pub from_bytes : List ℕ → ℕ
from_bytes [] = 0
from_bytes (b ∷ bs) = b + 256 * from_bytes bs

-- How one round of the `while True` ends, with the buffer that it leaves.
pub data Round : Type 0 where
  done : List ℕ → Round
  again : List ℕ → Round
  packet : Packet → List ℕ → Round
  fault : List ℕ → Round

-- The frame has passed every test: `PacketType(frame[2])` raises before the frame is deleted.
unfoldable pub accept : List ℕ → List ℕ → Round
accept frame buffer = elim (packet_type (get_or frame 2 0)) [
  | none ↦ Round.fault buffer
  | some t ↦
      Round.packet
        (record {
          type = t;
          seq = bit_or (get_or frame 3 0) (get_or frame 4 0 * 2 ^ 8);
          payload = slice 7 (length frame - 2) frame;
        })
        (drop (length frame) buffer)
]

-- The checksum test on a frame that is wholly in the buffer.
unfoldable pub check_frame : List ℕ → List ℕ → Round
unfolding accept
check_frame frame buffer =
    if crc16_ccitt (slice 1 (length frame - 2) frame) == from_bytes (drop (length frame - 2) frame)
    then accept frame buffer
    else Round.again (drop 1 buffer)

-- The tests of a buffer that begins with the start byte.
unfoldable pub frame_at : List ℕ → Round
unfolding check_frame
frame_at buffer =
    if ltb (length buffer) 9
    then Round.done buffer
    else (if get_or buffer 1 0 == protocol_version
        then (let len = bit_or (get_or buffer 5 0) (get_or buffer 6 0 * 2 ^ 8) in
            if ltb max_payload_size len
            then Round.again (drop 1 buffer)
            else (if ltb (length buffer) (1 + 6 + len + 2)
                then Round.done buffer
                else check_frame (take (1 + 6 + len + 2) buffer) buffer))
        else Round.again (drop 1 buffer))

unfoldable pub round : List ℕ → Round
unfolding frame_at index_from
round buffer = elim (index_from start_byte 0 buffer) [
  | none ↦ Round.done []
  | some start_index ↦ frame_at (drop start_index buffer)
]

-- The loop, on fuel. A round that goes on has deleted a byte at least, so that the fuel which `feed`
-- gives is never used up. Packets that were found before a `ValueError` are lost with it.
unfoldable pub feed_loop : ℕ → List ℕ → List Packet → Result (List Packet) × List ℕ
unfolding round
feed_loop zero buffer packets = (stuck, buffer)
feed_loop (suc fuel) buffer packets = elim (round buffer) [
  | Round.done rest ↦ (ok packets, rest)
  | Round.again rest ↦ feed_loop fuel rest packets
  | Round.packet p rest ↦ feed_loop fuel rest (packets ++ (p ∷ []))
  | Round.fault rest ↦ (err Error.value_error, rest)
]

-- `feed` on the decoder with this buffer: what it returns or raises, and the new buffer.
unfoldable pub feed : List ℕ → List ℕ → Result (List Packet) × List ℕ
unfolding feed_loop
feed buffer data' = feed_loop (suc (length (buffer ++ data'))) (buffer ++ data') []
