-- ===== src/Protocol/Decoder/Frames.antt =====
-- The decoder on a whole frame, field by field.
use teensy_io.Base.{ℕ, suc, ◌+◌, ◌-◌, ◌*◌, ◌^◌, ◌≤◌, List, [], ◌∷◌, ◌++◌, ◌≡◌, refl, sym, ap, ◌∙◌}
use teensy_io.Base.{arith, length, length-append, take, drop, slice, bit_or, get_or, some}
use teensy_io.Base.{take-append_self, drop-append_self}
use mathlib.Core.Path.{subst, ap₂}
use teensy_io.Protocol.Commands.{PacketType, packet_type}
use teensy_io.Protocol.Crc.{crc16_ccitt}
use teensy_io.Protocol.Packet.{start_byte}
use teensy_io.Protocol.Decoder.{Round, from_bytes, accept, check_frame, frame_at, round}
use teensy_io.Protocol.Decoder.Rounds.{round-start}

-- A frame with the type `t`, the sequence number `s0 s1`, the length `l0 l1` and the checksum `c0 c1`.
module _ (t s0 s1 l0 l1 : ℕ) (payload : List ℕ) where
  abbrev pub checked : List ℕ
  checked = 1 ∷ t ∷ s0 ∷ s1 ∷ l0 ∷ l1 ∷ payload

module _ (t s0 s1 l0 l1 : ℕ) (payload : List ℕ) (c0 c1 : ℕ) where
  abbrev pub frame : List ℕ
  frame = start_byte ∷ 1 ∷ t ∷ s0 ∷ s1 ∷ l0 ∷ l1 ∷ (payload ++ (c0 ∷ c1 ∷ []))

accept_known :
    (whole buffer : List ℕ) (type : PacketType)
    → packet_type (get_or whole 2 0) ≡ some type
    → accept whole buffer
      ≡ Round.packet
          (record {
            type = type;
            seq = bit_or (get_or whole 3 0) (get_or whole 4 0 * 2 ^ 8);
            payload = slice 7 (length whole - 2) whole;
          })
          (drop (length whole) buffer)
unfolding accept
accept_known whole buffer type e = rw (e, accept)

check_frame_valid :
    (whole buffer : List ℕ)
    → crc16_ccitt (slice 1 (length whole - 2) whole) ≡ from_bytes (drop (length whole - 2) whole)
    → check_frame whole buffer ≡ accept whole buffer
unfolding check_frame
check_frame_valid whole buffer e = ground arith

-- The three slices that the decoder takes of a frame.
module _ (t s0 s1 l0 l1 : ℕ) (payload : List ℕ) (c0 c1 : ℕ) where
  abbrev pub whole : List ℕ
  whole = frame t s0 s1 l0 l1 payload c0 c1

  pub frame_body : slice 1 (length whole - 2) whole ≡ checked t s0 s1 l0 l1 payload
  frame_body =
      subst (λ n. take n (drop 1 whole) ≡ checked t s0 s1 l0 l1 payload) (sym size)
        (ap (λ xs. 1 ∷ t ∷ s0 ∷ s1 ∷ l0 ∷ l1 ∷ xs)
          (take-append_self (length payload) payload (c0 ∷ c1 ∷ []) refl))
    where
      size : length whole - 2 - 1 ≡ suc (suc (suc (suc (suc (suc (length payload))))))
      size = omega (arith, length-append payload (c0 ∷ c1 ∷ []))

  frame_payload : slice 7 (length whole - 2) whole ≡ payload
  frame_payload =
      take-append_self (length whole - 2 - 7) payload (c0 ∷ c1 ∷ [])
        (omega (arith, length-append payload (c0 ∷ c1 ∷ [])))

  pub frame_checksum : drop (length whole - 2) whole ≡ c0 ∷ c1 ∷ []
  frame_checksum =
      subst (λ n. drop n whole ≡ c0 ∷ c1 ∷ []) (sym size)
        (drop-append_self (length payload) payload (c0 ∷ c1 ∷ []) refl)
    where
      size : length whole - 2 ≡ suc (suc (suc (suc (suc (suc (suc (length payload)))))))
      size = omega (arith, length-append payload (c0 ∷ c1 ∷ []))

  accept-frame :
      (rest : List ℕ) (type : PacketType)
      → packet_type t ≡ some type
      → accept whole (whole ++ rest)
        ≡ Round.packet
            (record { type = type; seq = bit_or s0 (s1 * 2 ^ 8); payload = payload })
            rest
  accept-frame rest type e =
      accept_known whole (whole ++ rest) type e
      ∙ ap₂
          (λ xs. Round.packet (record { type = type; seq = bit_or s0 (s1 * 2 ^ 8); payload = xs }))
          frame_payload (drop-append_self (length whole) whole rest refl)

  pub check_frame-frame :
      (rest : List ℕ)
      → crc16_ccitt (checked t s0 s1 l0 l1 payload) ≡ c0 + 256 * (c1 + 256 * 0)
      → check_frame whole (whole ++ rest) ≡ accept whole (whole ++ rest)
  check_frame-frame rest e =
      check_frame_valid whole (whole ++ rest) (rw (frame_body, frame_checksum) e)

  pub frame_at-frame :
      (rest : List ℕ)
      → bit_or l0 (l1 * 2 ^ 8) ≡ length payload
      → length payload ≤ 128
      → frame_at (whole ++ rest) ≡ check_frame whole (whole ++ rest)
  unfolding frame_at
  frame_at-frame rest e h = ground (
    arith,
    length-append payload (c0 ∷ c1 ∷ []),
    length-append (payload ++ (c0 ∷ c1 ∷ [])) rest,
    take-append_self (1 + 6 + bit_or l0 (l1 * 2 ^ 8) + 2) whole rest,
  )

  -- A frame of a known type with the right checksum is one packet, whatever follows it.
  pub round-frame :
      (rest : List ℕ) (type : PacketType)
      → packet_type t ≡ some type
      → bit_or l0 (l1 * 2 ^ 8) ≡ length payload
      → length payload ≤ 128
      → crc16_ccitt (checked t s0 s1 l0 l1 payload) ≡ c0 + 256 * (c1 + 256 * 0)
      → round (whole ++ rest)
        ≡ Round.packet
            (record { type = type; seq = bit_or s0 (s1 * 2 ^ 8); payload = payload })
            rest
  round-frame rest type known len fits sum =
      round-start _
      ∙ frame_at-frame rest len fits
      ∙ check_frame-frame rest sum
      ∙ accept-frame rest type known
