-- ===== src/Tests/OnOutbox.antt =====
-- The queue of commands on concrete packets.
use teensy_io.Base.{ℕ, ◌+◌, ◌≤◌, ◌<◌, List, [], ◌∷◌, ◌++◌, All, arith, ◌≡◌, ◌⊎◌, refl, true, false}
use mathlib.Core.List.{flatten}
use teensy_io.Protocol.Errors.{Error, ok, err}
use teensy_io.Client.Outbox.{Outbox, Sender, queue_packet, flush}
use teensy_io.Client.Outbox.Chunks.{total, IsChunk}
use teensy_io.Client.Outbox.Flush.{IsCounted, with_queue, send, flush-send}
use teensy_io.Client.Outbox.Queue.{queue_packet-IsCounted, flush_loses}
use teensy_io.Client.Session.{on_link}
use teensy_io.Client.Lifecycle.{Running, Joins, in_session, close}
use teensy_io.Client.Lifecycle.Closing.{close-flushes, on_sender, stopped}
use teensy_io.Protocol.Exec.{◌>>◌}
use teensy_io.Tests.Loopback.{Wire, loopback, broken, idle, empty_outbox, session_on}

-- Three packets of 10, 10 and 5 bytes, in chunks of 24.
abbrev ten : List ℕ
ten = 1 ∷ 2 ∷ 3 ∷ 4 ∷ 5 ∷ 6 ∷ 7 ∷ 8 ∷ 9 ∷ 10 ∷ []

abbrev five : List ℕ
five = 1 ∷ 2 ∷ 3 ∷ 4 ∷ 5 ∷ []

abbrev waiting : Outbox
waiting = record empty_outbox { queued = ten ∷ ten ∷ five ∷ []; queued_bytes = 25 }

waiting-IsCounted : IsCounted waiting
waiting-IsCounted = record {
  counted = refl;
  nonempty = (omega arith, (omega arith, (omega arith, tt)));
  within = refl;
}

abbrev sender : Sender Wire
sender = record { outbox = waiting; link = idle [] }

flush-send_example :
    (groups : List (List (List ℕ))) × (flatten groups ≡ waiting.queued)
    × All (IsChunk 24) groups
    × (flush loopback sender ≡ send loopback groups sender)
flush-send_example = flush-send loopback sender waiting-IsCounted

-- Two writes: the first two packets together, and the third.
two_writes : (flush loopback sender).1.link.sent ≡ (ten ++ ten) ∷ five ∷ []
unfolding flush
two_writes = refl

queue_packet-IsCounted_example :
    IsCounted (queue_packet five waiting).1
    × (((queue_packet five waiting).0 ≡ ok tt)
          × (total waiting.queued + 5 ≤ 64)
          × ((queue_packet five waiting).1.queued ≡ waiting.queued ++ five ∷ [])
        ⊎ ((queue_packet five waiting ≡ (err Error.queue_full, waiting))
            × (64 < total waiting.queued + 5)))
queue_packet-IsCounted_example = queue_packet-IsCounted five waiting waiting-IsCounted (omega arith)

flush_loses_example :
    (group rest : List (List ℕ)) × (waiting.queued ≡ group ++ rest)
    × IsChunk 24 group
    × ((flush broken sender).0 ≡ err (Error.transport_error 5))
    × ((flush broken sender).1.outbox ≡ with_queue waiting rest)
flush_loses_example =
    flush_loses broken sender (Error.transport_error 5) ten (ten ∷ five ∷ []) waiting-IsCounted refl
      (λ bytes. refl)

-- A client with both threads and three packets that wait. While it is joined, the flush thread gets one
-- packet written, and the heartbeat thread does nothing.
abbrev client : Running Wire
client = record {
  session = record (session_on []) {
    outbox = record waiting { queued = five ∷ waiting.queued; queued_bytes = 30 };
  };
  flush_stop = false;
  flush_thread = true;
  heartbeat_stop = false;
  heartbeat_thread = true;
}

abbrev one_written : Joins Wire
one_written = record {
  flush = λ s. record s { outbox = waiting; link = (loopback.write five s.link).1 };
  heartbeat = λ s. s;
}

close-flushes_example :
    (groups : List (List (List ℕ))) × (flatten groups ≡ waiting.queued)
    × All (IsChunk 24) groups
    × (close loopback one_written client
        ≡ (in_session (on_sender (send loopback groups))
              >> in_session (on_link loopback.close_link))
            (stopped one_written client))
close-flushes_example = close-flushes loopback one_written client waiting-IsCounted
