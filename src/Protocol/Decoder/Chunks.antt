-- ===== src/Protocol/Decoder/Chunks.antt =====
-- It does not matter how the stream is cut into reads.
use teensy_io.Base.{ℕ, zero, suc, ◌≤◌, ◌<◌, List, [], ◌∷◌, ◌++◌, ◌≡◌, refl, sym, ap, ◌∙◌}
use teensy_io.Base.{arith, length, length-append, append_assoc}
use mathlib.Core.List.{flatten}
use teensy_io.Protocol.Errors.{Result, ok, err, stuck, map_result}
use teensy_io.Protocol.Packet.{Packet}
use teensy_io.Protocol.Decoder.{Round, round, feed_loop, feed}
use teensy_io.Protocol.Decoder.Rounds.{after, round-append}
use teensy_io.Protocol.Decoder.Loop.{Ends, Ends-round, feed_loop-done, feed_loop-again}
use teensy_io.Protocol.Decoder.Loop.{feed_loop-packet, feed_loop-fault, feed_loop-fuel}
use teensy_io.Protocol.Decoder.Loop.{before, feed_loop-packets, feed-ne-stuck}
use teensy_io.Protocol.Decoder.Faults.{feed-append_fault}
use teensy_io.Protocol.Decoder.Settled.{IsSettled, feed-IsSettled, feed-settled}

feed_loop-same :
    (g : ℕ) (a b : List ℕ) (packets : List Packet)
    → round a ≡ round b
    → feed_loop (suc g) a packets ≡ feed_loop (suc g) b packets
unfolding feed_loop
feed_loop-same g a b packets e = rw (e, feed_loop)

ok_parts :
    {ps qs : List Packet} {r s : List ℕ}
    → ◌≡◌ {A = Result (List Packet) × List ℕ} (ok ps, r) (ok qs, s)
    → (ps ≡ qs) × (r ≡ s)
ok_parts e = (cc, cc)

-- On a longer buffer the loop comes to where it came to, and goes on from there.
feed_loop-append :
    (f g : ℕ) (buffer more : List ℕ) (packets ps : List Packet) (rest : List ℕ)
    → length buffer < f
    → length (buffer ++ more) < g
    → feed_loop f buffer packets ≡ (ok ps, rest)
    → (length rest ≤ length buffer)
      × (feed_loop g (buffer ++ more) packets
          ≡ feed_loop (suc (length (rest ++ more))) (rest ++ more) ps)
feed_loop-append zero g buffer more packets ps rest h k e = absurd (omega arith)
feed_loop-append (suc f) zero buffer more packets ps rest h k e = absurd (omega arith)
feed_loop-append (suc f) (suc g) buffer more packets ps rest h k e = elim (Ends-round buffer) [
  | Ends.done r q l ↦
      let (same_packets, same_rest) = ok_parts (sym (feed_loop-done f buffer packets r q) ∙ e) in
      (
        rw (← same_rest) l,
        rw (← same_packets, ← same_rest)
            (feed_loop-same g (buffer ++ more) (r ++ more) packets (at_round q)
              ∙ feed_loop-fuel (suc g) (suc (length (r ++ more))) (r ++ more) packets
                  (omega (arith, length-append r more, length-append buffer more)) (omega arith)),
      )
  | Ends.again r q l ↦
      let ih =
        feed_loop-append f g r more packets ps rest (omega arith)
          (omega (arith, length-append r more, length-append buffer more))
          (sym (feed_loop-again f buffer packets r q) ∙ e) in
      (omega arith, feed_loop-again g (buffer ++ more) packets (r ++ more) (at_round q) ∙ ih.1)
  | Ends.packet p r q l ↦
      let ih =
        feed_loop-append f g r more (packets ++ (p ∷ [])) ps rest (omega arith)
          (omega (arith, length-append r more, length-append buffer more))
          (sym (feed_loop-packet f buffer packets r p q) ∙ e) in
      (omega arith, feed_loop-packet g (buffer ++ more) packets (r ++ more) p (at_round q) ∙ ih.1)
  | Ends.fault r q l ↦ absurd (cc (sym (feed_loop-fault f buffer packets r q) ∙ e))
]
  where
    at_round : {r : Round} → round buffer ≡ r → round (buffer ++ more) ≡ after more r
    at_round q = round-append buffer more ∙ ap (after more) q

-- Whatever `feed` does on a stream in one piece, it does on the stream cut in two: the packets of
-- the first part are returned by the first call, and the second call goes on from the buffer left.
pub feed-append :
    (buffer data' more rest : List ℕ) (ps : List Packet)
    → feed buffer data' ≡ (ok ps, rest)
    → feed buffer (data' ++ more) ≡ before ps (feed rest more)
unfolding feed
feed-append buffer data' more rest ps e = rw (← append_assoc buffer data' more) (
    (feed_loop-append (suc (length (buffer ++ data'))) (suc (length ((buffer ++ data') ++ more)))
      (buffer ++ data') more [] ps rest (omega arith) (omega arith) e).1
    ∙ feed_loop-packets (suc (length (rest ++ more))) (rest ++ more) ps)

-- Successive calls of `feed` on one decoder, up to the first that raises: all that they return.
and_then :
    Result (List Packet) × List ℕ
    → (List ℕ → Result (List Packet) × List ℕ)
    → Result (List Packet) × List ℕ
and_then (ok ps, rest) next = before ps (next rest)
and_then (err x, rest) next = (err x, rest)
and_then (stuck, rest) next = (stuck, rest)

unfoldable pub feed_all : List ℕ → List (List ℕ) → Result (List Packet) × List ℕ
unfolding and_then
feed_all buffer [] = (ok [], buffer)
feed_all buffer (chunk ∷ chunks) = and_then (feed buffer chunk) (λ rest. feed_all rest chunks)

-- The stream in one piece and the stream in any chunks give the same packets or the same exception,
-- from a decoder that is fresh or that earlier calls have left.
pub feed_all-flatten :
    (chunks : List (List ℕ)) (buffer : List ℕ)
    → IsSettled buffer
    → (feed_all buffer chunks).0 ≡ (feed buffer (flatten chunks)).0
unfolding flatten and_then feed_all
feed_all-flatten [] buffer h = ap (λ x. x.0) (sym (feed-settled buffer h))
feed_all-flatten (chunk ∷ chunks) buffer h =
    first (feed buffer chunk) refl (λ rest settled. feed_all-flatten chunks rest settled)
  where
    first :
        (x : Result (List Packet) × List ℕ)
        → feed buffer chunk ≡ x
        → ((rest : List ℕ)
            → IsSettled rest
            → (feed_all rest chunks).0 ≡ (feed rest (flatten chunks)).0)
        → (and_then x (λ rest. feed_all rest chunks)).0 ≡ (feed buffer (chunk ++ flatten chunks)).0
    first (ok ps, rest) e ih =
        ap (map_result (λ qs. ps ++ qs)) (ih rest (feed-IsSettled buffer chunk rest ps e))
        ∙ ap (λ x. x.0) (sym (feed-append buffer chunk (flatten chunks) rest ps e))
    first (err x, rest) e ih =
        ap (λ y. y.0) (sym (feed-append_fault buffer chunk (flatten chunks) rest x e))
    first (stuck, rest) e ih = absurd (feed-ne-stuck buffer chunk (ap (λ x. x.0) e))
