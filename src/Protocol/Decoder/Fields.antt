-- ===== src/Protocol/Decoder/Fields.antt =====
-- The bytes of a frame as the fields of a packet.
use teensy_io.Base.{
  ℕ, zero, suc, ◌+◌, ◌*◌, ◌/◌, ◌^◌, ◌≤◌, ◌<◌, List, [], ◌∷◌, ◌++◌, ◌≡◌, refl, ap, ◌∙◌,
}
use teensy_io.Base.{arith, some, bit_and, length, bit_or}
use mathlib.Core.Path.{ap₂}
use teensy_io.Base.Bits.{bit_and_0xff, bit_or_fields}
use teensy_io.Protocol.Commands.{PacketType, packet_type, type_code-packet_type}
use teensy_io.Protocol.Crc.{crc16_ccitt}
use teensy_io.Protocol.Packet.{start_byte}
use teensy_io.Protocol.Decoder.RoundTrip.{wire}
use teensy_io.Protocol.Decoder.Frames.{frame, checked}

-- A list that is long enough is a payload, two bytes and a rest.
pub split_at :
    (n : ℕ) (more : List ℕ)
    → n + 2 ≤ length more
    → (payload : List ℕ) × (c0 : ℕ) × (c1 : ℕ) × (rest : List ℕ) × (more
        ≡ (payload ++ (c0 ∷ c1 ∷ [])) ++ rest)
      × (length payload ≡ n)
split_at zero (c0 ∷ c1 ∷ rest) h = ([], c0, c1, rest, refl, refl)
split_at zero [] h = absurd (omega arith)
split_at zero (c0 ∷ []) h = absurd (omega arith)
split_at (suc n) [] h = absurd (omega arith)
split_at (suc n) (b ∷ more) h =
    let (payload, c0, c1, rest, e, k) = split_at n more (omega arith) in
    (b ∷ payload, c0, c1, rest, ap (λ xs. b ∷ xs) e, ap suc k)

-- Such fields are what `encode_packet` writes for the packet that is made of them.
pub wire-fields :
    (t s0 s1 l0 l1 : ℕ) (payload : List ℕ) (c0 c1 : ℕ) (type : PacketType)
    → s0 < 256
    → s1 < 256
    → l0 < 256
    → l1 < 256
    → c0 < 256
    → packet_type t ≡ some type
    → bit_or l0 (l1 * 2 ^ 8) ≡ length payload
    → crc16_ccitt (checked t s0 s1 l0 l1 payload) ≡ c0 + 256 * (c1 + 256 * 0)
    → wire (record { type = type; seq = bit_or s0 (s1 * 2 ^ 8); payload = payload })
      ≡ frame t s0 s1 l0 l1 payload c0 c1
wire-fields t s0 s1 l0 l1 payload c0 c1 type hs0 hs1 hl0 hl1 hc0 known len sum =
    rw (type_code-packet_type t type known, low_seq, high_seq, ← len, low_len, high_len, sum)
      (ap₂ (λ a b. start_byte ∷ 1 ∷ t ∷ s0 ∷ s1 ∷ l0 ∷ l1 ∷ (payload ++ (a ∷ b ∷ []))) (omega arith)
        (omega arith))
  where
    low_seq : bit_and (bit_or s0 (s1 * 2 ^ 8)) 0xFF ≡ s0
    low_seq = bit_and_0xff (bit_or s0 (s1 * 2 ^ 8)) ∙ omega (arith, bit_or_fields 8 s0 s1 hs0)

    high_seq : bit_and (bit_or s0 (s1 * 2 ^ 8) / 2 ^ 8) 0xFF ≡ s1
    high_seq =
        bit_and_0xff (bit_or s0 (s1 * 2 ^ 8) / 2 ^ 8) ∙ omega (arith, bit_or_fields 8 s0 s1 hs0)

    low_len : bit_and (bit_or l0 (l1 * 2 ^ 8)) 0xFF ≡ l0
    low_len = bit_and_0xff (bit_or l0 (l1 * 2 ^ 8)) ∙ omega (arith, bit_or_fields 8 l0 l1 hl0)

    high_len : bit_and (bit_or l0 (l1 * 2 ^ 8) / 2 ^ 8) 0xFF ≡ l1
    high_len =
        bit_and_0xff (bit_or l0 (l1 * 2 ^ 8) / 2 ^ 8) ∙ omega (arith, bit_or_fields 8 l0 l1 hl0)
