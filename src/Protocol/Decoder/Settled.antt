-- ===== src/Protocol/Decoder/Settled.antt =====
-- What the decoder holds between calls: nothing, or the front of one frame.
use teensy_io.Base.{ℕ, zero, suc, ◌+◌, ◌*◌, ◌^◌, ◌<◌, List, [], ◌∷◌, ◌++◌, ◌≡◌, refl, sym, ◌∙◌}
use teensy_io.Base.{arith, append-nil, length, get_or, take, bit_or}
use native.Mathlib.Decide.{ℕ_discrete}
use teensy_io.Protocol.Errors.{ok}
use teensy_io.Protocol.Packet.{Packet, start_byte}
use teensy_io.Protocol.Decoder.{
  Round, accept, check_frame, frame_at, round, index_from, feed_loop, feed,
}
use teensy_io.Protocol.Decoder.Rounds.{round-noise, round-start}
use teensy_io.Protocol.Decoder.Loop.{Ends, Ends-round, feed_loop-done, feed_loop-again}
use teensy_io.Protocol.Decoder.Loop.{feed_loop-packet, feed_loop-fault}

-- A buffer on which the loop stops at once, with less than the longest frame of 137 bytes.
pub record IsSettled (buffer : List ℕ) : Type 0 where
  pub stops : round buffer ≡ Round.done buffer
  pub below_frame : length buffer < 137

pub empty-IsSettled : IsSettled []
unfolding round index_from
empty-IsSettled = record { stops = refl; below_frame = omega arith }

check_frame-done : (frame buffer rest : List ℕ) → ¬ (check_frame frame buffer ≡ Round.done rest)
unfolding check_frame accept
check_frame-done frame buffer rest e = ground arith

pub frame_at-done :
    (buffer rest : List ℕ)
    → frame_at buffer ≡ Round.done rest
    → (rest ≡ buffer) × (length buffer < 137)
unfolding frame_at
frame_at-done buffer rest e =
    let len : ℕ = bit_or (get_or buffer 5 0) (get_or buffer 6 0 * 2 ^ 8) in
    ground (arith, check_frame-done (take (1 + 6 + len + 2) buffer) buffer rest)

round-done-IsSettled : (buffer rest : List ℕ) → round buffer ≡ Round.done rest → IsSettled rest
round-done-IsSettled [] rest e = rw (← at_end rest e) empty-IsSettled
  where
    at_end : (rest : List ℕ) → round [] ≡ Round.done rest → [] ≡ rest
    at_end rest e = unfold round index_from in cc e
round-done-IsSettled (b ∷ bs) rest e = elim (ℕ_discrete b start_byte) [
  | yes q ↦
      let at_start = rw q at e in
      let (same, short) = frame_at-done (start_byte ∷ bs) rest (sym (round-start bs) ∙ at_start) in
      rw same (record { stops = rw same at at_start; below_frame = short })
  | no q ↦ round-done-IsSettled bs rest (sym (round-noise b bs q) ∙ e)
]

feed_loop-IsSettled :
    (f : ℕ) (buffer : List ℕ) (packets ps : List Packet) (rest : List ℕ)
    → feed_loop f buffer packets ≡ (ok ps, rest)
    → IsSettled rest
feed_loop-IsSettled zero buffer packets ps rest e = absurd (unfold feed_loop in cc e)
feed_loop-IsSettled (suc f) buffer packets ps rest e = elim (Ends-round buffer) [
  | Ends.done r q l ↦
      let same : r ≡ rest = cc (sym (feed_loop-done f buffer packets r q) ∙ e) in
      rw (← same) (round-done-IsSettled buffer r q)
  | Ends.again r q l ↦
      feed_loop-IsSettled f r packets ps rest (sym (feed_loop-again f buffer packets r q) ∙ e)
  | Ends.packet p r q l ↦
      feed_loop-IsSettled f r (packets ++ (p ∷ [])) ps rest
        (sym (feed_loop-packet f buffer packets r p q) ∙ e)
  | Ends.fault r q l ↦ absurd (cc (sym (feed_loop-fault f buffer packets r q) ∙ e))
]

-- After a call of `feed` that returns, the buffer holds at most 136 bytes, whatever was fed, and
-- a further call with no data changes nothing in it.
pub feed-IsSettled :
    (buffer data' rest : List ℕ) (ps : List Packet)
    → feed buffer data' ≡ (ok ps, rest)
    → IsSettled rest
unfolding feed
feed-IsSettled buffer data' rest ps e =
    feed_loop-IsSettled (suc (length (buffer ++ data'))) (buffer ++ data') [] ps rest e

pub feed-settled : (buffer : List ℕ) → IsSettled buffer → feed buffer [] ≡ (ok [], buffer)
unfolding feed
feed-settled buffer h = rw append-nil (feed_loop-done (length buffer) buffer [] buffer h.stops)
