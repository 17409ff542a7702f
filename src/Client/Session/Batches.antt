-- ===== src/Client/Session/Batches.antt =====
-- `with io.batch(): …`: the commands of a batch go out together, also when one of them raises.
use teensy_io.Base.{
  Option, none, some, ℕ, suc, ◌+◌, ◌-◌, ◌<◌, List, [], ◌∷◌, ◌++◌, append-nil, append_assoc, length,
  ◌==◌, ltb, leb, Bool, Bool-cases, true, false, inl, inr, if◌then◌else◌,
}
use teensy_io.Base.{◌≡◌, refl, sym, ap, ◌∙◌, arith}
use mathlib.Core.Path.{ap₂}
use teensy_io.Protocol.Commands.{CommandId}
use teensy_io.Protocol.Errors.{Error, Result, ok, err}
use teensy_io.Protocol.Exec.{bind_cong, bind_raise, Exec, pure, lift, ◌>>=◌, ◌>>◌}
use teensy_io.Protocol.Decoder.RoundTrip.{wire}
use teensy_io.Transport.{Transport}
use teensy_io.Client.Outbox.{Outbox, exceeds, queue_packet}
use teensy_io.Client.Outbox.Chunks.{total}
use teensy_io.Client.Session.{Session, command, batch, flush_session}
use teensy_io.Client.Session.Commands.{command_packet, command_queued, command_too_long}

-- A call of `_command`: the command, its payload, and whether a response is expected.
pub record Call : Type 0 where
  pub code : CommandId
  pub payload : List ℕ
  pub expect_response : Bool

-- What becomes of calls in a batch, told without the client: how they end, the packets they leave in the
-- queue, and how many sequence numbers they use up.
pub record Outcome : Type 0 where
  pub result : Result (Unit {0})
  pub packets : List (List ℕ)
  pub numbers : ℕ

-- Whether there is room for so many bytes.
unfoldable pub has_room : Option ℕ → ℕ → Bool
has_room none bytes = true
has_room (some limit) bytes = leb bytes limit

-- The calls up to the first whose payload is too long or which has no room, with `bytes` queued and the
-- next number `count`.
unfoldable pub outcome : Option ℕ → ℕ → ℕ → List Call → Outcome
unfolding has_room
outcome limit bytes count [] = record { result = ok tt; packets = []; numbers = 0 }
outcome limit bytes count (c ∷ cs) =
    let packet = wire (command_packet c.code c.payload count) in
    let rest = outcome limit (bytes + length packet) (count + 1) cs in
    if ltb (length c.payload) 128
    then (if has_room limit (bytes + length packet)
        then record {
          result = rest.result;
          packets = packet ∷ rest.packets;
          numbers = suc rest.numbers;
        }
        else record { result = err Error.queue_full; packets = []; numbers = 1 })
    else record { result = err Error.protocol; packets = []; numbers = 1 }

exceeds-has_room :
    (limit : Option ℕ) (bytes : ℕ) (b : Bool)
    → has_room limit bytes ≡ b
    → exceeds limit bytes ≡ (if b then false else true)
unfolding has_room
exceeds-has_room none bytes true e = refl
exceeds-has_room none bytes false e = absurd (cc)
exceeds-has_room (some limit) bytes true e = ground arith
exceeds-has_room (some limit) bytes false e = ground arith

-- A queue with more packets on it.
unfoldable pub with_packets : List (List ℕ) → Outbox → Outbox
with_packets packets o = record o {
  queued = o.queued ++ packets;
  queued_bytes = o.queued_bytes + total packets;
}

with_packets_none : (o : Outbox) → with_packets [] o ≡ o
unfolding with_packets
with_packets_none o =
    ap₂ {C = Outbox} (λ q n. record o { queued = q; queued_bytes = n }) (append-nil o.queued)
      (omega arith)

-- The queue after one more packet, as `_queue_packet` leaves it.
abbrev one_more : List ℕ → Outbox → Outbox
one_more packet o = record o {
  queued = o.queued ++ packet ∷ [];
  queued_bytes = o.queued_bytes + length packet;
}

with_packets-one_more :
    (packet : List ℕ) (ps : List (List ℕ)) (o : Outbox)
    → with_packets ps (one_more packet o) ≡ with_packets (packet ∷ ps) o
unfolding with_packets
with_packets-one_more packet ps o =
    ap₂ {C = Outbox} (λ q n. record o { queued = q; queued_bytes = n })
      (append_assoc o.queued (packet ∷ []) ps) (omega arith)

module _ {T : Type 0} (io : Transport T) where
  -- The body of the batch: the calls one after the other, their results passed over.
  unfoldable pub calls : List Call → Exec (Session T) (Unit {0})
  calls [] = pure tt
  calls (c ∷ cs) = command io c.code c.payload c.expect_response >>= λ _. calls cs

  -- What the calls of a batch in a session come to.
  abbrev pub outcome_in : Session T → List Call → Outcome
  outcome_in s cs = outcome s.outbox.queue_max_bytes s.outbox.queued_bytes s.seq cs

  abbrev pub after : Session T → Outcome → Session T
  after s x = record s { seq = s.seq + x.numbers; outbox = with_packets x.packets s.outbox }

  -- A call of the batch that fits, with room for it and without.
  module _ (c : Call) (s : Session T) (inside : 0 < s.outbox.batch_depth)
      (fits : length c.payload < 128) where
    abbrev packet : List ℕ
    packet = wire (command_packet c.code c.payload s.seq)

    abbrev room : Bool
    room = has_room s.outbox.queue_max_bytes (s.outbox.queued_bytes + length packet)

    command-room :
        room ≡ true
        → command io c.code c.payload c.expect_response s
          ≡ (ok [], record s { seq = s.seq + 1; outbox = one_more packet s.outbox })
    command-room h =
        let accepted : queue_packet packet s.outbox ≡ (ok tt, one_more packet s.outbox) =
          unfold queue_packet in
          rw
            (exceeds-has_room s.outbox.queue_max_bytes (s.outbox.queued_bytes + length packet) true
              h)
            refl in
        command_queued io c.code c.payload s c.expect_response fits inside ∙ rw accepted refl

    command-full :
        room ≡ false
        → command io c.code c.payload c.expect_response s
          ≡ (err Error.queue_full, record s { seq = s.seq + 1 })
    command-full h =
        let refused : queue_packet packet s.outbox ≡ (err Error.queue_full, s.outbox) =
          unfold queue_packet in
          rw
            (exceeds-has_room s.outbox.queue_max_bytes (s.outbox.queued_bytes + length packet) false
              h)
            refl in
        command_queued io c.code c.payload s c.expect_response fits inside ∙ rw refused refl

  -- A first call that raises ends the body.
  raised :
      (c : Call) (cs : List Call) (s : Session T) (x : Error)
      → command io c.code c.payload c.expect_response s ≡ (err x, record s { seq = s.seq + 1 })
      → calls (c ∷ cs) s ≡ (err x, after s (record { result = err x; packets = []; numbers = 1 }))
  unfolding calls
  raised c cs s x e =
      bind_raise (command io c.code c.payload c.expect_response) (λ _. calls cs) s x
        (ap (λ y. y.0) e)
      ∙ ap {B = Result (Unit {0}) × Session T} (λ y. (err x, y.1)) e
      ∙ ap {B = Result (Unit {0}) × Session T}
          (λ o. (err x, record s { seq = s.seq + 1; outbox = o }))
          (sym (with_packets_none s.outbox))

  calls-outcome :
      (cs : List Call) (s : Session T)
      → 0 < s.outbox.batch_depth
      → calls cs s ≡ ((outcome_in s cs).result, after s (outcome_in s cs))
  unfolding calls outcome
  calls-outcome [] s h =
      ap₂ {C = Result (Unit {0}) × Session T} (λ n o. (ok tt, record s { seq = n; outbox = o }))
        (omega arith) (sym (with_packets_none s.outbox))
  calls-outcome (c ∷ cs) s h =
      let packet : List ℕ = wire (command_packet c.code c.payload s.seq) in
      let s1 : Session T = record s { seq = s.seq + 1; outbox = one_more packet s.outbox } in
      let rest : Outcome = outcome_in s1 cs in
      elim (Bool-cases (ltb (length c.payload) 128)) [
        | inr long ↦ rw long (
            raised c cs s Error.protocol
              (command_too_long io c.code c.payload s c.expect_response (ground arith)))
        | inl fits ↦
            elim (Bool-cases
              (has_room s.outbox.queue_max_bytes (s.outbox.queued_bytes + length packet))) [
                | inr full ↦
                    rw (fits, full)
                      (raised c cs s Error.queue_full (command-full c s h (ground arith) full))
                | inl room ↦
                    rw (fits, room)
                      (bind_cong (command io c.code c.payload c.expect_response) (λ _. (ok [], s1))
                          (λ _. calls cs) (λ _. calls cs) s (command-room c s h (ground arith) room)
                          (λ _ _. refl)
                        ∙ calls-outcome cs s1 h
                        ∙ ap₂ {C = Result (Unit {0}) × Session T}
                            (λ n o. (rest.result, record s { seq = n; outbox = o })) (omega arith)
                            (with_packets-one_more packet rest.packets s.outbox))
              ]
      ]

  -- The session within one more batch, and the depth when it is left.
  abbrev entered : Session T → Session T
  entered s = record s { outbox = record s.outbox { batch_depth = s.outbox.batch_depth + 1 } }

  left : (depth : ℕ) → depth + 1 - 1 ≡ depth
  left depth = omega arith

  -- A batch that is entered outside any other, for all commands: they are put on the queue with
  -- successive numbers, behind what waited there, up to the first whose payload is too long, which
  -- raises `ProtocolError`, or which would pass `queue_max_bytes`, which raises `QueueFullError`.
  -- Nothing is written before the batch is left; then, also after such an exception, the depth is
  -- 0 again and one flush sends the whole queue. What the flush raises is raised, or else what the
  -- command raised.
  pub batch-calls :
      (cs : List Call) (s : Session T)
      → s.outbox.batch_depth ≡ 0
      → batch io (calls cs) s
        ≡ (flush_session io >> lift (outcome_in s cs).result) (after s (outcome_in s cs))
  unfolding batch with_packets
  batch-calls cs s outside =
      let outermost : (s.outbox.batch_depth == 0) ≡ true = ground arith in
      rw (calls-outcome cs (entered s) (omega arith), left s.outbox.batch_depth, outermost) refl

  -- A batch inside another has no effect of its own, for all commands, also when one of them raises: they
  -- are queued as the outer batch would queue them, and the end of the inner one neither writes nor
  -- leaves the outer one.
  pub batch-nested :
      (cs : List Call) (s : Session T)
      → 0 < s.outbox.batch_depth
      → batch io (calls cs) s ≡ calls cs s
  unfolding batch with_packets
  batch-nested cs s inside =
      let nested : (s.outbox.batch_depth == 0) ≡ false = ground arith in
      rw
        (
          calls-outcome cs (entered s) (omega arith),
          left s.outbox.batch_depth,
          nested,
          calls-outcome cs s inside,
        )
        refl
