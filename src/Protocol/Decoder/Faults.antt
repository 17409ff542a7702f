-- ===== src/Protocol/Decoder/Faults.antt =====
-- The decoder after `PacketType(n)` has raised on a frame of an unknown type.
use teensy_io.Base.{ℕ, zero, suc, ◌+◌, ◌<◌, List, [], ◌∷◌, ◌++◌, ◌≡◌, sym, ap, ◌∙◌}
use teensy_io.Base.{arith, length, length-append, append_assoc, take, ◌*◌, ◌^◌, get_or, bit_or}
use native.Mathlib.Decide.{ℕ_discrete}
use teensy_io.Protocol.Errors.{Error, Result, err}
use teensy_io.Protocol.Packet.{Packet, start_byte}
use teensy_io.Protocol.Decoder.{
  Round, accept, check_frame, frame_at, round, index_from, feed_loop, feed,
}
use teensy_io.Protocol.Decoder.Rounds.{after, round-append, round-noise, round-start}
use teensy_io.Protocol.Decoder.Loop.{Ends, Ends-round, feed_loop-done, feed_loop-again}
use teensy_io.Protocol.Decoder.Loop.{feed_loop-packet, feed_loop-fault}

-- A round that raises has deleted noise in front of the frame, and not the frame.
check_frame-fault :
    (frame buffer rest : List ℕ) → check_frame frame buffer ≡ Round.fault rest → rest ≡ buffer
unfolding check_frame accept
check_frame-fault frame buffer rest e = ground arith

frame_at-fault : (buffer rest : List ℕ) → frame_at buffer ≡ Round.fault rest → rest ≡ buffer
unfolding frame_at
frame_at-fault buffer rest e =
    let len : ℕ = bit_or (get_or buffer 5 0) (get_or buffer 6 0 * 2 ^ 8) in
    ground (arith, check_frame-fault (take (1 + 6 + len + 2) buffer) buffer rest)

round-fault :
    (buffer rest : List ℕ) → round buffer ≡ Round.fault rest → round rest ≡ Round.fault rest
round-fault [] rest e = absurd (unfold round index_from in cc e)
round-fault (b ∷ bs) rest e = elim (ℕ_discrete b start_byte) [
  | yes q ↦
      let at_start = rw q at e in
      let same = frame_at-fault (start_byte ∷ bs) rest (sym (round-start bs) ∙ at_start) in
      rw same (rw same at at_start)
  | no q ↦ round-fault bs rest (sym (round-noise b bs q) ∙ e)
]

feed_loop-append_fault :
    (f g : ℕ) (buffer more : List ℕ) (packets : List Packet) (x : Error) (rest : List ℕ)
    → length (buffer ++ more) < g
    → feed_loop f buffer packets ≡ (err x, rest)
    → (x ≡ Error.value_error)
      × (round rest ≡ Round.fault rest)
      × (feed_loop g (buffer ++ more) packets ≡ (err x, rest ++ more))
feed_loop-append_fault zero g buffer more packets x rest k e = absurd (unfold feed_loop in cc e)
feed_loop-append_fault (suc f) zero buffer more packets x rest k e = absurd (omega arith)
feed_loop-append_fault (suc f) (suc g) buffer more packets x rest k e = elim (Ends-round buffer) [
  | Ends.done r q l ↦ absurd (cc (sym (feed_loop-done f buffer packets r q) ∙ e))
  | Ends.again r q l ↦
      let (kind, stays, ih) =
        feed_loop-append_fault f g r more packets x rest
          (omega (arith, length-append r more, length-append buffer more))
          (sym (feed_loop-again f buffer packets r q) ∙ e) in
      (kind, stays, feed_loop-again g (buffer ++ more) packets (r ++ more) (at_round q) ∙ ih)
  | Ends.packet p r q l ↦
      let (kind, stays, ih) =
        feed_loop-append_fault f g r more (packets ++ (p ∷ [])) x rest
          (omega (arith, length-append r more, length-append buffer more))
          (sym (feed_loop-packet f buffer packets r p q) ∙ e) in
      (kind, stays, feed_loop-packet g (buffer ++ more) packets (r ++ more) p (at_round q) ∙ ih)
  | Ends.fault r q l ↦
      let (kind, same) = err_parts (sym (feed_loop-fault f buffer packets r q) ∙ e) in
      (
        sym kind,
        rw (← same) (round-fault buffer r q),
        feed_loop-fault g (buffer ++ more) packets (r ++ more) (at_round q) ∙ rw (kind, same),
      )
]
  where
    at_round : {r : Round} → round buffer ≡ r → round (buffer ++ more) ≡ after more r
    at_round q = round-append buffer more ∙ ap (after more) q

    err_parts :
        {u v : Error} {r s : List ℕ}
        → ◌≡◌ {A = Result (List Packet) × List ℕ} (err u, r) (err v, s)
        → (u ≡ v) × (r ≡ s)
    err_parts p = (cc, cc)

-- A raise on the first part of a stream is a raise on the whole of it.
pub feed-append_fault :
    (buffer data' more rest : List ℕ) (x : Error)
    → feed buffer data' ≡ (err x, rest)
    → feed buffer (data' ++ more) ≡ (err x, rest ++ more)
unfolding feed
feed-append_fault buffer data' more rest x e =
    rw (← append_assoc buffer data' more)
      (feed_loop-append_fault (suc (length (buffer ++ data')))
        (suc (length ((buffer ++ data') ++ more))) (buffer ++ data') more [] x rest (omega arith)
        e).2

-- Once `feed` has raised, every later call raises the same `ValueError`, whatever it is given, and
-- keeps all its bytes: the frame that raised stays at the front of a buffer that only grows.
pub feed-stays_wedged :
    (buffer data' more rest : List ℕ) (x : Error)
    → feed buffer data' ≡ (err x, rest)
    → (x ≡ Error.value_error) × (feed rest more ≡ (err Error.value_error, rest ++ more))
unfolding feed
feed-stays_wedged buffer data' more rest x e =
    let (kind, stays, _) =
      feed_loop-append_fault (suc (length (buffer ++ data')))
        (suc (length ((buffer ++ data') ++ more))) (buffer ++ data') more [] x rest (omega arith)
        e in
    (
      kind,
      feed_loop-fault (length (rest ++ more)) (rest ++ more) [] (rest ++ more)
          (round-append rest more ∙ ap (after more) stays),
    )
