-- ===== src/Protocol/Decoder/Loop.antt =====
-- The decoder's loop ends, on any buffer; its rounds one by one, and what its fuel means.
use teensy_io.Base.{ℕ, zero, suc, ◌≤◌, ◌<◌, List, [], ◌∷◌, ◌++◌, ◌≡◌, ◌≢◌, refl, sym, ap, ◌∙◌}
use teensy_io.Base.{arith, length, append-nil, append_assoc}
use teensy_io.Protocol.Errors.{Error, Result, ok, err, stuck, map_result}
use teensy_io.Protocol.Packet.{Packet}
use teensy_io.Protocol.Decoder.{Round, round, feed_loop, feed}
use teensy_io.Protocol.Decoder.Rounds.{Shrinks, round-Shrinks}

-- A round's result, kept with its equation and with what it deleted.
pub data Ends (buffer : List ℕ) : Type 0 where
  done :
      (rest : List ℕ) → round buffer ≡ Round.done rest → length rest ≤ length buffer → Ends buffer
  again :
      (rest : List ℕ) → round buffer ≡ Round.again rest → length rest < length buffer → Ends buffer
  packet :
      (p : Packet) (rest : List ℕ)
      → round buffer ≡ Round.packet p rest
      → length rest < length buffer
      → Ends buffer
  fault :
      (rest : List ℕ) → round buffer ≡ Round.fault rest → length rest ≤ length buffer → Ends buffer

Ends-of : (buffer : List ℕ) (r : Round) → round buffer ≡ r → Shrinks (length buffer) r → Ends buffer
Ends-of buffer (Round.done rest) e h = Ends.done rest e h
Ends-of buffer (Round.again rest) e h = Ends.again rest e h
Ends-of buffer (Round.packet p rest) e h = Ends.packet p rest e h
Ends-of buffer (Round.fault rest) e h = Ends.fault rest e h

pub Ends-round : (buffer : List ℕ) → Ends buffer
Ends-round buffer = Ends-of buffer (round buffer) refl (round-Shrinks buffer)

-- One round of the loop, by how it ends.
module _ (f : ℕ) (buffer : List ℕ) (packets : List Packet) (rest : List ℕ) where
  pub feed_loop-done :
      round buffer ≡ Round.done rest → feed_loop (suc f) buffer packets ≡ (ok packets, rest)
  unfolding feed_loop
  feed_loop-done e = rw (e, feed_loop)

  pub feed_loop-again :
      round buffer ≡ Round.again rest → feed_loop (suc f) buffer packets ≡ feed_loop f rest packets
  unfolding feed_loop
  feed_loop-again e = rw (e, feed_loop)

  pub feed_loop-packet :
      (p : Packet)
      → round buffer ≡ Round.packet p rest
      → feed_loop (suc f) buffer packets ≡ feed_loop f rest (packets ++ (p ∷ []))
  unfolding feed_loop
  feed_loop-packet p e = rw (e, feed_loop)

  pub feed_loop-fault :
      round buffer ≡ Round.fault rest
      → feed_loop (suc f) buffer packets ≡ (err Error.value_error, rest)
  unfolding feed_loop
  feed_loop-fault e = rw (e, feed_loop)

-- Fuel above the buffer's length is enough, and more of it changes nothing.
pub feed_loop-fuel :
    (f g : ℕ) (buffer : List ℕ) (packets : List Packet)
    → length buffer < f
    → length buffer < g
    → feed_loop f buffer packets ≡ feed_loop g buffer packets
feed_loop-fuel zero g buffer packets h k = absurd (omega arith)
feed_loop-fuel (suc f) zero buffer packets h k = absurd (omega arith)
feed_loop-fuel (suc f) (suc g) buffer packets h k = elim (Ends-round buffer) [
  | Ends.done rest e l ↦
      feed_loop-done f buffer packets rest e ∙ sym (feed_loop-done g buffer packets rest e)
  | Ends.again rest e l ↦
      feed_loop-again f buffer packets rest e
      ∙ feed_loop-fuel f g rest packets (omega arith) (omega arith)
      ∙ sym (feed_loop-again g buffer packets rest e)
  | Ends.packet p rest e l ↦
      feed_loop-packet f buffer packets rest p e
      ∙ feed_loop-fuel f g rest (packets ++ (p ∷ [])) (omega arith) (omega arith)
      ∙ sym (feed_loop-packet g buffer packets rest p e)
  | Ends.fault rest e l ↦
      feed_loop-fault f buffer packets rest e ∙ sym (feed_loop-fault g buffer packets rest e)
]

feed_loop-ne-stuck :
    (f : ℕ) (buffer : List ℕ) (packets : List Packet)
    → length buffer < f
    → (feed_loop f buffer packets).0 ≢ stuck
feed_loop-ne-stuck zero buffer packets h = absurd (omega arith)
feed_loop-ne-stuck (suc f) buffer packets h = elim (Ends-round buffer) [
  | Ends.done rest e l ↦ rw (feed_loop-done f buffer packets rest e) (λ q. cc)
  | Ends.again rest e l ↦
      rw (feed_loop-again f buffer packets rest e) (feed_loop-ne-stuck f rest packets (omega arith))
  | Ends.packet p rest e l ↦
      rw (feed_loop-packet f buffer packets rest p e)
        (feed_loop-ne-stuck f rest (packets ++ (p ∷ [])) (omega arith))
  | Ends.fault rest e l ↦ rw (feed_loop-fault f buffer packets rest e) (λ q. cc)
]

-- The loop of `feed` ends on every buffer and every input: it returns or raises.
pub feed-ne-stuck : (buffer data' : List ℕ) → (feed buffer data').0 ≢ stuck
unfolding feed
feed-ne-stuck buffer data' =
    feed_loop-ne-stuck (suc (length (buffer ++ data'))) (buffer ++ data') [] (omega arith)

-- The packets found so far only stand in front of those still to be found.
abbrev pub before : List Packet → Result (List Packet) × List ℕ → Result (List Packet) × List ℕ
before ps (r, rest) = (map_result (λ qs. ps ++ qs) r, rest)

before-before :
    (ps qs : List Packet) (x : Result (List Packet) × List ℕ)
    → before (ps ++ qs) x ≡ before ps (before qs x)
before-before ps qs (ok rs, rest) = ap (λ t. (ok t, rest)) (append_assoc ps qs rs)
before-before ps qs (err e, rest) = refl
before-before ps qs (stuck, rest) = refl

pub feed_loop-packets :
    (f : ℕ) (buffer : List ℕ) (packets : List Packet)
    → feed_loop f buffer packets ≡ before packets (feed_loop f buffer [])
feed_loop-packets zero buffer packets = unfold feed_loop in refl
feed_loop-packets (suc f) buffer packets = elim (Ends-round buffer) [
  | Ends.done rest e l ↦
      rw (feed_loop-done f buffer packets rest e, feed_loop-done f buffer [] rest e, append-nil)
  | Ends.again rest e l ↦
      rw (feed_loop-again f buffer packets rest e, feed_loop-again f buffer [] rest e)
        (feed_loop-packets f rest packets)
  | Ends.packet p rest e l ↦
      feed_loop-packet f buffer packets rest p e
      ∙ feed_loop-packets f rest (packets ++ (p ∷ []))
      ∙ before-before packets (p ∷ []) (feed_loop f rest [])
      ∙ ap (before packets)
          (sym (feed_loop-packet f buffer [] rest p e ∙ feed_loop-packets f rest (p ∷ [])))
  | Ends.fault rest e l ↦
      rw (feed_loop-fault f buffer packets rest e, feed_loop-fault f buffer [] rest e)
]
