-- ===== src/Protocol/Decoder/Rounds.antt =====
-- One round of the decoder's loop: what it deletes, and that it does not look past what it has.
use teensy_io.Base.{
  ℕ, suc, ◌+◌, ◌*◌, ◌^◌, ◌≤◌, ◌<◌, List, [], ◌∷◌, ◌++◌, ◌≡◌, ◌≢◌, refl, sym, ap, ◌∙◌, arith,
}
use teensy_io.Base.{bit_or, length, get_or, take, length-append, length-drop}
use teensy_io.Base.{take-append, drop-append, get_or-append, length-take}
use mathlib.Core.Option
use native.Mathlib.Decide.{ℕ_discrete}
use teensy_io.Protocol.Packet.{start_byte}
use teensy_io.Protocol.Decoder.{Round, accept, check_frame, frame_at, round, index_from}

-- What a round leaves when it goes on is shorter than what it had.
abbrev pub Shrinks : ℕ → Round → Type 0
Shrinks n (Round.done rest) = length rest ≤ n
Shrinks n (Round.again rest) = length rest < n
Shrinks n (Round.packet p rest) = length rest < n
Shrinks n (Round.fault rest) = length rest ≤ n

Shrinks-suc : (n : ℕ) (r : Round) → Shrinks n r → Shrinks (suc n) r
Shrinks-suc n (Round.done rest) h = omega arith
Shrinks-suc n (Round.again rest) h = omega arith
Shrinks-suc n (Round.packet p rest) h = omega arith
Shrinks-suc n (Round.fault rest) h = omega arith

accept-Shrinks :
    (frame buffer : List ℕ)
    → 0 < length buffer
    → 0 < length frame
    → Shrinks (length buffer) (accept frame buffer)
unfolding accept
accept-Shrinks frame buffer h g = ground (arith, length-drop (length frame) buffer)

check_frame-Shrinks :
    (frame buffer : List ℕ)
    → 0 < length buffer
    → 0 < length frame
    → Shrinks (length buffer) (check_frame frame buffer)
unfolding check_frame
check_frame-Shrinks frame buffer h g =
    ground (arith, length-drop 1 buffer, accept-Shrinks frame buffer h g)

frame_at-Shrinks : (buffer : List ℕ) → Shrinks (length buffer) (frame_at buffer)
unfolding frame_at
frame_at-Shrinks buffer =
    let len : ℕ = bit_or (get_or buffer 5 0) (get_or buffer 6 0 * 2 ^ 8) in
    ground (
      arith,
      length-drop 1 buffer,
      length-take (1 + 6 + len + 2) buffer,
      check_frame-Shrinks (take (1 + 6 + len + 2) buffer) buffer,
    )

-- Noise in front of the first start byte is passed over, one byte or many.
index_from-suc :
    (value i : ℕ) (bs : List ℕ)
    → index_from value (suc i) bs ≡ Option.map suc (index_from value i bs)
unfolding index_from
index_from-suc value i [] = refl
index_from-suc value i (b ∷ bs) = ground (arith, index_from-suc value (suc i) bs)

pub round-noise : (b : ℕ) (bs : List ℕ) → b ≢ start_byte → round (b ∷ bs) ≡ round bs
unfolding round index_from
round-noise b bs h = ground (arith, index_from-suc start_byte 0 bs)

pub round-start : (bs : List ℕ) → round (start_byte ∷ bs) ≡ frame_at (start_byte ∷ bs)
unfolding round index_from
round-start bs = refl

pub round-Shrinks : (buffer : List ℕ) → Shrinks (length buffer) (round buffer)
round-Shrinks [] = unfold round index_from in omega arith
round-Shrinks (b ∷ bs) = elim (ℕ_discrete b start_byte) [
  | yes e ↦ rw (e, round-start) (frame_at-Shrinks (start_byte ∷ bs))
  | no e ↦ rw (round-noise b bs e) (Shrinks-suc (length bs) (round bs) (round-Shrinks bs))
]

-- What a round on more input does, from what it does on the input so far.
abbrev pub after : List ℕ → Round → Round
after more (Round.done rest) = round (rest ++ more)
after more (Round.again rest) = Round.again (rest ++ more)
after more (Round.packet p rest) = Round.packet p (rest ++ more)
after more (Round.fault rest) = Round.fault (rest ++ more)

module _ (buffer more : List ℕ) where
  accept-append :
      (frame : List ℕ)
      → length frame ≤ length buffer
      → accept frame (buffer ++ more) ≡ after more (accept frame buffer)
  unfolding accept
  accept-append frame h = ground (arith, drop-append (length frame) buffer more h)

  check_frame-append :
      (frame : List ℕ)
      → 0 < length buffer
      → length frame ≤ length buffer
      → check_frame frame (buffer ++ more) ≡ after more (check_frame frame buffer)
  unfolding check_frame
  check_frame-append frame g h =
      ground (arith, accept-append frame h, drop-append 1 buffer more (omega arith))

  frame_at-append :
      frame_at (buffer ++ more) ≡ round (buffer ++ more)
      → frame_at (buffer ++ more) ≡ after more (frame_at buffer)
  unfolding frame_at
  frame_at-append start =
      let len : ℕ = bit_or (get_or buffer 5 0) (get_or buffer 6 0 * 2 ^ 8) in
      ground (
        arith,
        length-append buffer more,
        get_or-append buffer more 1 0,
        get_or-append buffer more 5 0,
        get_or-append buffer more 6 0,
        drop-append 1 buffer more,
        take-append (1 + 6 + len + 2) buffer more,
        length-take (1 + 6 + len + 2) buffer,
        check_frame-append (take (1 + 6 + len + 2) buffer),
      )

-- A round on a longer buffer is the round on its front, with the rest behind; and where the front
-- was too short for a decision, it is a round on what the front has left.
pub round-append : (buffer more : List ℕ) → round (buffer ++ more) ≡ after more (round buffer)
round-append [] more = unfold round index_from in refl
round-append (b ∷ bs) more = elim (ℕ_discrete b start_byte) [
  | yes e ↦ rw e (
      round-start (bs ++ more)
      ∙ frame_at-append (start_byte ∷ bs) more (sym (round-start (bs ++ more)))
      ∙ ap (after more) (sym (round-start bs)))
  | no e ↦
      round-noise b (bs ++ more) e
      ∙ round-append bs more
      ∙ ap (after more) (sym (round-noise b bs e))
]
