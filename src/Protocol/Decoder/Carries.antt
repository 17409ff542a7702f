-- ===== src/Protocol/Decoder/Carries.antt =====
-- The decoder invents nothing: each packet that it returns stood in the stream as a whole frame.
use teensy_io.Base.{ℕ, zero, suc, ◌+◌, ◌*◌, ◌^◌, List, [], ◌∷◌, ◌++◌, ◌≡◌, sym, ap, ◌∙◌}
use teensy_io.Base.{arith, length, All, All-append_parts, append_assoc, take, drop, bit_or, get_or}
use native.Mathlib.Decide.{ℕ_discrete}
use mathlib.Core.Path.{subst}
use teensy_io.Protocol.Errors.{Result, ok, err, stuck}
use teensy_io.Base.{IsByte}
use teensy_io.Protocol.Packet.{Packet, IsPacket, encode_packet, start_byte}
use teensy_io.Protocol.Decoder.{
  Round, accept, check_frame, frame_at, round, index_from, feed_loop, feed,
}
use teensy_io.Protocol.Decoder.Rounds.{round-noise, round-start}
use teensy_io.Protocol.Decoder.Settled.{frame_at-done}
use teensy_io.Protocol.Decoder.Loop.{Ends, Ends-round, feed_loop-done, feed_loop-again}
use teensy_io.Protocol.Decoder.Loop.{feed_loop-packet, feed_loop-packets, feed_loop-fault, before}
use teensy_io.Protocol.Decoder.RoundTrip.{wire, encode_packet-wire}
use teensy_io.Protocol.Decoder.Sound.{frame_at_sound}

-- `Carries stream ps rest`: the stream is the encodings of `ps`, in order and apart, with any bytes
-- before and between them, and then `rest`.
pub data Carries : List ℕ → List Packet → List ℕ → Type 0 where
  end : (front rest stream : List ℕ) → stream ≡ front ++ rest → Carries stream [] rest
  packet :
      (front bytes more rest stream : List ℕ) (p : Packet) (ps : List Packet)
      → IsPacket p
      → encode_packet p ≡ ok bytes
      → stream ≡ front ++ (bytes ++ more)
      → Carries more ps rest
      → Carries stream (p ∷ ps) rest

Carries-append :
    (front stream rest : List ℕ) (ps : List Packet)
    → Carries stream ps rest
    → Carries (front ++ stream) ps rest
Carries-append front stream rest ps (Carries.end start _ _ e) =
    Carries.end (front ++ start) _ _
      (ap (λ xs. front ++ xs) e ∙ sym (append_assoc front start rest))
Carries-append front stream rest ps (Carries.packet start bytes more _ _ p qs v e f c) =
    Carries.packet (front ++ start) bytes more _ _ p qs v e
      (ap (λ xs. front ++ xs) f ∙ sym (append_assoc front start (bytes ++ more))) c

check_frame-again :
    (whole buffer rest : List ℕ)
    → check_frame whole buffer ≡ Round.again rest
    → rest ≡ drop 1 buffer
unfolding check_frame accept
check_frame-again whole buffer rest e = ground arith

frame_at-again : (buffer rest : List ℕ) → frame_at buffer ≡ Round.again rest → rest ≡ drop 1 buffer
unfolding frame_at
frame_at-again buffer rest e =
    let len : ℕ = bit_or (get_or buffer 5 0) (get_or buffer 6 0 * 2 ^ 8) in
    ground (arith, check_frame-again (take (1 + 6 + len + 2) buffer) buffer rest)

-- What a round deletes stands in front of what it keeps.
abbrev Ahead : List ℕ → List ℕ → Type 0
Ahead buffer rest = (front : List ℕ) × (buffer ≡ front ++ rest)

Ahead-cons : (b : ℕ) (bs rest : List ℕ) → Ahead bs rest → Ahead (b ∷ bs) rest
Ahead-cons b bs rest (front, e) = (b ∷ front, ap (λ xs. b ∷ xs) e)

round-done : (buffer rest : List ℕ) → round buffer ≡ Round.done rest → Ahead buffer rest
round-done [] rest e = ([], unfold round index_from in cc e)
round-done (b ∷ bs) rest e = elim (ℕ_discrete b start_byte) [
  | yes q ↦
      let same = (frame_at-done (start_byte ∷ bs) rest (sym (round-start bs) ∙ (rw q at e))).0 in
      ([], ap (λ x. x ∷ bs) q ∙ sym same)
  | no q ↦ Ahead-cons b bs rest (round-done bs rest (sym (round-noise b bs q) ∙ e))
]

round-again : (buffer rest : List ℕ) → round buffer ≡ Round.again rest → Ahead buffer rest
round-again [] rest e = absurd (unfold round index_from in cc e)
round-again (b ∷ bs) rest e = elim (ℕ_discrete b start_byte) [
  | yes q ↦
      let same = frame_at-again (start_byte ∷ bs) rest (sym (round-start bs) ∙ (rw q at e)) in
      (b ∷ [], ap (λ xs. b ∷ xs) (sym same))
  | no q ↦ Ahead-cons b bs rest (round-again bs rest (sym (round-noise b bs q) ∙ e))
]

round-packet :
    (buffer rest : List ℕ) (p : Packet)
    → All IsByte buffer
    → round buffer ≡ Round.packet p rest
    → IsPacket p × Ahead buffer (wire p ++ rest)
round-packet [] rest p h e = absurd (unfold round index_from in cc e)
round-packet (b ∷ bs) rest p h e = elim (ℕ_discrete b start_byte) [
  | yes q ↦
      let (valid, parts) = frame_at_sound bs p rest h.1 (sym (round-start bs) ∙ (rw q at e)) in
      (valid, ([], ap (λ x. x ∷ bs) q ∙ parts))
  | no q ↦
      let (valid, parts) = round-packet bs rest p h.1 (sym (round-noise b bs q) ∙ e) in
      (valid, Ahead-cons b bs (wire p ++ rest) parts)
]

before-ok :
    (p : Packet) (x : Result (List Packet) × List ℕ) {ps : List Packet} {rest : List ℕ}
    → before (p ∷ []) x ≡ (ok ps, rest)
    → (qs : List Packet) × (x ≡ (ok qs, rest)) × (p ∷ qs ≡ ps)
before-ok p (ok qs, r) e = (qs, cc, cc)
before-ok p (err y, r) e = absurd (cc)
before-ok p (stuck, r) e = absurd (cc)

feed_loop-Carries :
    (f : ℕ) (buffer : List ℕ) (ps : List Packet) (rest : List ℕ)
    → All IsByte buffer
    → feed_loop f buffer [] ≡ (ok ps, rest)
    → Carries buffer ps rest
feed_loop-Carries zero buffer ps rest h e = absurd (unfold feed_loop in cc e)
feed_loop-Carries (suc f) buffer ps rest h e = elim (Ends-round buffer) [
  | Ends.done r q l ↦
      let (front, cut) = round-done buffer r q in
      let (none_found, same) = done_parts (sym (feed_loop-done f buffer [] r q) ∙ e) in
      subst (λ xs. Carries buffer xs rest) none_found
        (Carries.end front rest buffer (cut ∙ ap (λ xs. front ++ xs) same))
  | Ends.again r q l ↦
      let (front, cut) = round-again buffer r q in
      let bytes = (All-append_parts IsByte front r (subst (All IsByte) cut h)).1 in
      let ih = feed_loop-Carries f r ps rest bytes (sym (feed_loop-again f buffer [] r q) ∙ e) in
      subst (λ xs. Carries xs ps rest) (sym cut) (Carries-append front r rest ps ih)
  | Ends.packet p r q l ↦
      let (valid, (front, cut)) = round-packet buffer r p h q in
      let more = (All-append_parts IsByte front (wire p ++ r) (subst (All IsByte) cut h)).1 in
      let bytes = (All-append_parts IsByte (wire p) r more).1 in
      let (qs, found, shape) =
        before-ok p (feed_loop f r [])
          (sym (feed_loop-packet f buffer [] r p q ∙ feed_loop-packets f r (p ∷ [])) ∙ e) in
      subst (λ xs. Carries buffer xs rest) shape
        (Carries.packet front (wire p) r rest buffer p qs valid
          (encode_packet-wire p valid.fits_payload) cut (feed_loop-Carries f r qs rest bytes found))
  | Ends.fault r q l ↦ absurd (cc (sym (feed_loop-fault f buffer [] r q) ∙ e))
]
  where
    done_parts :
        {qs rs : List Packet} {r s : List ℕ}
        → ◌≡◌ {A = Result (List Packet) × List ℕ} (ok qs, r) (ok rs, s)
        → (qs ≡ rs) × (r ≡ s)
    done_parts x = (cc, cc)

-- Whatever bytes a decoder is fed, the packets that it returns stand in its buffer and the new data
-- as whole encodings, in their order and apart, and what it keeps is the end of that stream. Each of
-- them fits the wire.
pub feed-Carries :
    (buffer data' rest : List ℕ) (ps : List Packet)
    → All IsByte (buffer ++ data')
    → feed buffer data' ≡ (ok ps, rest)
    → Carries (buffer ++ data') ps rest
unfolding feed
feed-Carries buffer data' rest ps h e =
    feed_loop-Carries (suc (length (buffer ++ data'))) (buffer ++ data') ps rest h e
