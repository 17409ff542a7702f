-- ===== src/Tests/OnThreads.antt =====
-- The threads on concrete packets.
use teensy_io.Base.{ℕ, List, [], ◌∷◌, ◌++◌, map, arith, ◌≡◌, ◌==◌, refl, true, false}
use teensy_io.Base.{Bool-cases, inl, inr, if◌then◌else◌}
use teensy_io.Protocol.Errors.{ok}
use mathlib.Core.List.{flatten}
use teensy_io.Client.Outbox.{queue_packet}
use teensy_io.Client.Threads.{Role, Phase, Write, System, CommandStep, Step, Steps, enter}
use teensy_io.Client.Threads.Ordered.{IsOrdered, IsAlone, chunk_bytes}
use teensy_io.Client.Threads.Order.{Steps-IsOrdered}
use teensy_io.Client.Threads.Drained.{Only}
use teensy_io.Client.Threads.Progress.{flush_thread-drains}
use teensy_io.Tests.Loopback.{empty_outbox}

abbrev three : List ℕ
three = 1 ∷ 2 ∷ 3 ∷ []

-- The thread 1 is a flush thread, all others call the client.
abbrev roles : ℕ → Role
roles t = if t == 1 then Role.flusher else Role.caller

-- Every thread has been started, and nothing is queued yet.
abbrev at_start : System
at_start = record {
  outbox = empty_outbox;
  stop = false;
  phases = λ t. Phase.idle;
  writes = [];
  submitted = [];
}

start-IsOrdered : IsOrdered at_start
unfolding flatten chunk_bytes
start-IsOrdered = record {
  counted = record { counted = refl; nonempty = tt; within = refl };
  exclusive = λ t u a b. absurd (cc);
  ordered = λ t alone. refl;
}

-- The thread 0 queues a packet, and the thread 2 is about to send a command at once.
abbrev with_packet : System
with_packet = record at_start { outbox = (queue_packet three empty_outbox).1; submitted = three }

abbrev with_command : System
with_command = enter 2 (Phase.calling three true) with_packet

submits : Steps roles (λ t. Unit {0}) at_start with_command
submits =
    Steps.step {t = 0} tt
      (Step.commanding (CommandStep.submit at_start three refl refl (omega arith) accepted))
      (Steps.step {t = 2} tt (Step.commanding (CommandStep.call with_packet three true refl refl))
        (Steps.done with_command))
  where
    accepted : (queue_packet three empty_outbox).0 ≡ ok tt
    accepted = unfold queue_packet in refl

Steps-IsOrdered_example : IsOrdered with_command
Steps-IsOrdered_example = Steps-IsOrdered submits start-IsOrdered

nobody_else : IsAlone 1 with_command
nobody_else u other = elim (Bool-cases (u == 2)) [
  | inl two ↦ rw two refl
  | inr apart ↦ rw apart refl
]

flush_thread-drains_example :
    (s' : System) × Steps roles (Only 1) with_command s'
    × (s'.outbox.queued ≡ [])
    × (s'.phases 1 ≡ Phase.idle)
    × ((more : List (List ℕ)) × (s'.writes ≡ [] ++ map (Write.chunk true) more))
    × (chunk_bytes s'.writes ≡ three)
flush_thread-drains_example =
    flush_thread-drains roles 1 with_command (Steps-IsOrdered submits start-IsOrdered) refl refl
      refl nobody_else
