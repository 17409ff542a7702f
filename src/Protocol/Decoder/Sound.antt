-- ===== src/Protocol/Decoder/Sound.antt =====
-- A round that returns a packet has found the encoding of that packet.
use teensy_io.Base.{ℕ, ◌+◌, ◌-◌, ◌*◌, ◌^◌, ◌≤◌, List, [], ◌∷◌, ◌++◌, ◌≡◌, sym, ap, ◌∙◌}
use teensy_io.Base.{arith, some, slice, All-append_parts, length, get_or, drop, bit_or, All}
use mathlib.Core.Path.{ap₂, subst}
use teensy_io.Base.Bits.{bit_or_fields}
use teensy_io.Protocol.Commands.{packet_type}
use teensy_io.Protocol.Crc.{crc16_ccitt}
use teensy_io.Base.{IsByte}
use teensy_io.Protocol.Packet.{Packet, IsPacket, start_byte}
use teensy_io.Protocol.Decoder.{Round, from_bytes, accept, check_frame, frame_at}
use teensy_io.Protocol.Decoder.Rounds.{round-start}
use teensy_io.Protocol.Decoder.RoundTrip.{wire}
use teensy_io.Protocol.Decoder.Fields.{split_at, wire-fields}
use teensy_io.Protocol.Decoder.Frames.{
  checked, whole, frame_body, frame_checksum, frame_at-frame, round-frame,
}

-- What has held where a round returns a packet.
accept-packet :
    (whole buffer : List ℕ) (p : Packet) (rest : List ℕ)
    → accept whole buffer ≡ Round.packet p rest
    → packet_type (get_or whole 2 0) ≡ some p.type
unfolding accept
accept-packet whole buffer p rest e = ground arith

check_frame-packet :
    (whole buffer : List ℕ) (p : Packet) (rest : List ℕ)
    → check_frame whole buffer ≡ Round.packet p rest
    → (packet_type (get_or whole 2 0) ≡ some p.type)
      × (crc16_ccitt (slice 1 (length whole - 2) whole)
          ≡ from_bytes (drop (length whole - 2) whole))
unfolding check_frame
check_frame-packet whole buffer p rest e = ground (arith, accept-packet whole buffer p rest)

frame_at-packet :
    (buffer : List ℕ) (p : Packet) (rest : List ℕ)
    → frame_at buffer ≡ Round.packet p rest
    → (get_or buffer 1 0 ≡ 1)
      × (bit_or (get_or buffer 5 0) (get_or buffer 6 0 * 2 ^ 8) ≤ 128)
      × (bit_or (get_or buffer 5 0) (get_or buffer 6 0 * 2 ^ 8) + 9 ≤ length buffer)
unfolding frame_at
frame_at-packet buffer p rest e = ground arith

fields_sound :
    (t s0 s1 l0 l1 : ℕ) (payload : List ℕ) (c0 c1 : ℕ) (tail : List ℕ) (p : Packet) (rest : List ℕ)
    → All IsByte (whole t s0 s1 l0 l1 payload c0 c1)
    → bit_or l0 (l1 * 2 ^ 8) ≡ length payload
    → length payload ≤ 128
    → frame_at (whole t s0 s1 l0 l1 payload c0 c1 ++ tail) ≡ Round.packet p rest
    → IsPacket p × (whole t s0 s1 l0 l1 payload c0 c1 ++ tail ≡ wire p ++ rest)
fields_sound t s0 s1 l0 l1 payload c0 c1 tail p rest h len fits e =
    let (_, (_, (_, (hs0, (hs1, (hl0, (hl1, more))))))) = h in
    let (bytes, (hc0, _)) = All-append_parts IsByte payload (c0 ∷ c1 ∷ []) more in
    let all = whole t s0 s1 l0 l1 payload c0 c1 in
    let found = sym (frame_at-frame t s0 s1 l0 l1 payload c0 c1 tail len fits) ∙ e in
    let (known, same_sum) = check_frame-packet all (all ++ tail) p rest found in
    let sum : crc16_ccitt (checked t s0 s1 l0 l1 payload) ≡ c0 + 256 * (c1 + 256 * 0) =
      ap crc16_ccitt (sym (frame_body t s0 s1 l0 l1 payload c0 c1))
      ∙ same_sum
      ∙ ap from_bytes (frame_checksum t s0 s1 l0 l1 payload c0 c1) in
    let made : Packet = record { type = p.type; seq = bit_or s0 (s1 * 2 ^ 8); payload = payload } in
    let (same, same_rest) = packet_parts (
      sym (round-frame t s0 s1 l0 l1 payload c0 c1 tail p.type known len fits sum)
      ∙ round-start _
      ∙ e) in
    let valid : IsPacket made = record {
      fits_seq = omega (arith, bit_or_fields 8 s0 s1 hs0);
      fits_payload = fits;
      all_bytes = bytes;
    } in
    (
      subst IsPacket same valid,
      ap₂ (λ xs ys. xs ++ ys)
          (sym (wire-fields t s0 s1 l0 l1 payload c0 c1 p.type hs0 hs1 hl0 hl1 hc0 known len sum)
            ∙ ap wire same)
          same_rest,
    )
  where
    packet_parts :
        {q q' : Packet} {r r' : List ℕ}
        → Round.packet q r ≡ Round.packet q' r'
        → (q ≡ q') × (r ≡ r')
    packet_parts x = (cc, cc)

pub frame_at_sound :
    (bs : List ℕ) (p : Packet) (rest : List ℕ)
    → All IsByte bs
    → frame_at (start_byte ∷ bs) ≡ Round.packet p rest
    → IsPacket p × (start_byte ∷ bs ≡ wire p ++ rest)
frame_at_sound (v ∷ t ∷ s0 ∷ s1 ∷ l0 ∷ l1 ∷ more) p rest h e =
    let (version, small, long) =
      frame_at-packet (start_byte ∷ v ∷ t ∷ s0 ∷ s1 ∷ l0 ∷ l1 ∷ more) p rest e in
    let (payload, c0, c1, tail, shape, size) =
      split_at (bit_or l0 (l1 * 2 ^ 8)) more (omega arith) in
    let all : start_byte ∷ v ∷ t ∷ s0 ∷ s1 ∷ l0 ∷ l1 ∷ more
        ≡ whole t s0 s1 l0 l1 payload c0 c1 ++ tail =
      ap₂ (λ x xs. start_byte ∷ x ∷ t ∷ s0 ∷ s1 ∷ l0 ∷ l1 ∷ xs) version shape in
    let bytes = subst (All IsByte) all (omega arith, h) in
    let (valid, parts) =
      fields_sound t s0 s1 l0 l1 payload c0 c1 tail p rest
        (All-append_parts IsByte (whole t s0 s1 l0 l1 payload c0 c1) tail bytes).0 (sym size)
        (omega arith) (subst (λ xs. frame_at xs ≡ Round.packet p rest) all e) in
    (valid, all ∙ parts)
frame_at_sound bs p rest h e = absurd (omega (arith, frame_at-packet (start_byte ∷ bs) p rest e))
