-- ===== src/Tests/OnInbox.antt =====
-- Frames and events on concrete packets.
use teensy_io.Base.{◌+◌, ℕ, [], ◌∷◌, ◌++◌, arith, ◌≡◌, refl, inr}
use teensy_io.Base.Int.{pos, negsuc}
use teensy_io.Protocol.Commands.{PacketType, ResourceKind, kind_code}
use teensy_io.Protocol.Errors.{ok}
use teensy_io.Protocol.Packet.{Packet}
use teensy_io.Client.Inbox.{BoundedQueue, handle_async_packet}
use teensy_io.Client.Inbox.Queues.{newest, excess, put_each, put_each-newest}
use teensy_io.Client.Inbox.Handler.{
  IsBounded, with_frame, with_event, handle_async_packet-IsBounded,
}
use teensy_io.Client.Inbox.Numbers.{word, to_bytes4, handle_telemetry_sent, handle_event_sent}
use teensy_io.Tests.Loopback.{empty_inbox}

abbrev short_queue : BoundedQueue ℕ
short_queue = record { items = 1 ∷ []; maxsize = 2 }

put_each-newest_example :
    put_each (2 ∷ 3 ∷ []) short_queue ≡ (ok tt, newest short_queue (2 ∷ 3 ∷ []), excess 2 (1 + 2))
put_each-newest_example = put_each-newest (2 ∷ 3 ∷ []) short_queue (inr (omega arith))

-- What stays are the two newest, and one is counted as dropped.
kept : newest short_queue (2 ∷ 3 ∷ []) ≡ record { items = 2 ∷ 3 ∷ []; maxsize = 2 }
kept = refl

empty_inbox-IsBounded : IsBounded empty_inbox
empty_inbox-IsBounded = record {
  telemetry_within = inr (omega arith);
  events_within = inr (omega arith);
}

abbrev telemetry : Packet
telemetry = record {
  type = PacketType.telemetry;
  seq = 0;
  payload = kind_code ResourceKind.encoder ∷ 3 ∷ (to_bytes4 (word (negsuc 41)) ++ []);
}

handle_async_packet-IsBounded_example :
    ((handle_async_packet telemetry empty_inbox).0 ≡ ok tt)
    × IsBounded (handle_async_packet telemetry empty_inbox).1
    × ((handle_async_packet telemetry empty_inbox).1.decoder ≡ empty_inbox.decoder)
handle_async_packet-IsBounded_example =
    handle_async_packet-IsBounded telemetry empty_inbox empty_inbox-IsBounded

handle_telemetry_sent_example : handle_async_packet telemetry empty_inbox ≡ (
  ok tt,
  with_frame
      (record { kind = ResourceKind.encoder; resource_id = 3; value = negsuc 41 })
      empty_inbox,
)
handle_telemetry_sent_example =
    handle_telemetry_sent ResourceKind.encoder 3 0 (negsuc 41) [] empty_inbox (omega arith)
      empty_inbox-IsBounded

abbrev edge : Packet
edge = record {
  type = PacketType.event;
  seq = 0;
  payload =
      kind_code ResourceKind.digital ∷ 7 ∷ (to_bytes4 (word (pos 1)) ++ (to_bytes4 70000 ++ []));
}

handle_event_sent_example : handle_async_packet edge empty_inbox ≡ (
  ok tt,
  with_event
      (record { kind = ResourceKind.digital; resource_id = 7; value = pos 1; timestamp_us = 70000 })
      empty_inbox,
)
handle_event_sent_example =
    handle_event_sent ResourceKind.digital 7 0 70000 (pos 1) [] empty_inbox (omega arith)
      empty_inbox-IsBounded
