-- ===== src/Bridge/Poll.antt =====
-- `_poll` and `publish_status` of the bridge.
use Prim.Native.String.{String}
use teensy_io.Base.{ℕ, zero, suc, true, false, none, some, List, [], ◌∷◌, ◌++◌, map}
use teensy_io.Base.{take, drop, ◌≡◌, refl, sym, ap, ◌∙◌, append_assoc, append-nil}
use teensy_io.Base.Floats.{Float}
use teensy_io.Base.Int.{ℤ, pos, negsuc}
use teensy_io.Protocol.Commands.{kind_code}
use teensy_io.Protocol.Errors.{Result, ok, err, stuck}
use teensy_io.Protocol.Exec.{Exec, modify, on, ◌>>=◌, ◌>>◌}
use teensy_io.Protocol.Frames.{TelemetryFrame, EdgeEvent}
use teensy_io.Transport.{Transport}
use teensy_io.Client.Inbox.{BoundedQueue, get_nowait}
use teensy_io.Client.Session.{Session, poll_async_packets}
use teensy_io.Bridge.{Bridge, Ref, TelemetryMessage, EventMessage, name_for}

-- `float(value)` of 32 bits is exact.
unfoldable pub float_value : ℤ → Float
float_value (pos n) = Float.finite false n 0
float_value (negsuc n) = Float.finite true (suc n) 0

unfoldable pub telemetry_message : List (Ref × String) → TelemetryFrame → TelemetryMessage
unfolding name_for float_value
telemetry_message names frame = record {
  name = name_for (frame.kind, pos frame.resource_id) names;
  kind = kind_code frame.kind;
  resource_id = frame.resource_id;
  value = frame.value;
  value_float = float_value frame.value;
}

unfoldable pub event_message : List (Ref × String) → EdgeEvent → EventMessage
unfolding name_for
event_message names event = record {
  name = name_for (event.kind, pos event.resource_id) names;
  kind = kind_code event.kind;
  resource_id = event.resource_id;
  value = event.value;
  firmware_timestamp_us = event.timestamp_us;
}

-- The loop of `_poll` over one queue: `left` is how many may still be published, and `published` is
-- what the publisher has.
unfoldable pub publish_loop :
    {A M : Type 0} → (A → M) → ℕ → BoundedQueue A → List M → BoundedQueue A × List M
unfolding get_nowait
publish_loop message zero queue published = (queue, published)
publish_loop message (suc left) queue published = elim (get_nowait queue) [
  | none ↦ (queue, published)
  | some (item, rest) ↦ publish_loop message left rest (published ++ message item ∷ [])
]

module _ {T : Type 0} where
  abbrev pub with_inbox_telemetry :
      BoundedQueue TelemetryFrame → Bridge (Session T) → Bridge (Session T)
  with_inbox_telemetry queue s = record s {
    board = record s.board {
      session = record s.board.session {
        inbox = record s.board.session.inbox { telemetry_queue = queue };
      };
    };
  }

  abbrev pub with_inbox_events : BoundedQueue EdgeEvent → Bridge (Session T) → Bridge (Session T)
  with_inbox_events queue s = record s {
    board = record s.board {
      session = record s.board.session {
        inbox = record s.board.session.inbox { event_queue = queue };
      };
    };
  }

  unfoldable pub publish_telemetry : Bridge (Session T) → Bridge (Session T)
  unfolding publish_loop telemetry_message
  publish_telemetry s =
      let (queue, published) =
        publish_loop (telemetry_message s.name_by_ref) s.max_publish_per_poll
          s.board.session.inbox.telemetry_queue s.telemetry_pub in
      record (with_inbox_telemetry queue s) { telemetry_pub = published }

  unfoldable pub publish_events : Bridge (Session T) → Bridge (Session T)
  unfolding publish_loop event_message
  publish_events s =
      let (queue, published) =
        publish_loop (event_message s.name_by_ref) s.max_publish_per_poll
          s.board.session.inbox.event_queue s.events_pub in
      record (with_inbox_events queue s) { events_pub = published }

module _ {T : Type 0} (io : Transport T) where
  unfoldable pub poll : Exec (Bridge (Session T)) (Unit {0})
  unfolding poll_async_packets publish_telemetry publish_events
  poll = do
    on (λ s. s.board.session) (λ s x. record s { board = record s.board { session = x } })
        (poll_async_packets io 0 none)
    modify publish_telemetry
    modify publish_events

  unfoldable pub publish_status : Bridge (Session T) → Bridge (Session T)
  publish_status s = record s {
    status_pub =
        s.status_pub
        ++ record {
          connected = io.is_open s.board.session.link;
          emergency_stop_active = false;
          telemetry_dropped = s.board.session.inbox.telemetry_dropped;
          events_dropped = s.board.session.inbox.events_dropped;
          firmware_version = s.version;
          message = "ok";
        }
          ∷ [];
  }

-- The loop publishes the oldest items, up to the limit, in their order, and leaves the others.
publish_loop-oldest :
    {A M : Type 0} (message : A → M) (left maxsize : ℕ) (items : List A) (published : List M)
    → publish_loop message left (record { items = items; maxsize = maxsize }) published ≡ (
      record { items = drop left items; maxsize = maxsize },
      published ++ map message (take left items),
    )
unfolding publish_loop get_nowait
publish_loop-oldest {A} message zero maxsize items published =
    ap {A = List _} (λ x. (record { items = items; maxsize = maxsize }, x))
      (sym (append-nil published))
publish_loop-oldest {A} message (suc left) maxsize [] published =
    ap {A = List _} (λ x. (record { items = []; maxsize = maxsize }, x))
      (sym (append-nil published))
publish_loop-oldest {A} message (suc left) maxsize (item ∷ rest) published =
    publish_loop-oldest message left maxsize rest (published ++ message item ∷ [])
    ∙ ap (λ x. (record { items = drop left rest; maxsize = maxsize }, x))
        (append_assoc published (message item ∷ []) (map message (take left rest)))

module _ {T : Type 0} where
  -- The session after a poll, when it is `received` after the reading: the oldest items of both queues
  -- are gone, as many as may be published at once.
  abbrev pub published_from : ℕ → Session T → Session T
  published_from limit received = record received {
    inbox = record received.inbox {
      telemetry_queue = record received.inbox.telemetry_queue {
        items = drop limit received.inbox.telemetry_queue.items;
      };
      event_queue = record received.inbox.event_queue {
        items = drop limit received.inbox.event_queue.items;
      };
    };
  }

  abbrev pub after_poll :
      Bridge (Session T) → Result ℕ × Session T → Result (Unit {0}) × Bridge (Session T)
  after_poll s (ok drained, received) = (
    ok tt,
    record s {
      board = record s.board { session = published_from s.max_publish_per_poll received };
      telemetry_pub =
          s.telemetry_pub
          ++ map (telemetry_message s.name_by_ref)
              (take s.max_publish_per_poll received.inbox.telemetry_queue.items);
      events_pub =
          s.events_pub
          ++ map (event_message s.name_by_ref)
              (take s.max_publish_per_poll received.inbox.event_queue.items);
    },
  )
  after_poll s (err e, received) =
      (err e, record s { board = record s.board { session = received } })
  after_poll s (stuck, received) =
      (stuck, record s { board = record s.board { session = received } })

  -- A poll first reads what the link has, and then publishes the oldest telemetry frames of the queue,
  -- `max_publish_per_poll` of them at most, in their order, and the same of the events. The others
  -- stay in their queues. If the reading raises, its exception is raised and nothing is published.
  pub poll-publishes :
      (io : Transport T) (s : Bridge (Session T))
      → poll io s ≡ after_poll s (poll_async_packets io 0 none s.board.session)
  unfolding poll publish_telemetry publish_events
  poll-publishes io s = then_publish (poll_async_packets io 0 none s.board.session)
    where
      then_publish :
          (x : Result ℕ × Session T)
          → ((λ (b : Bridge (Session T)).
                  (x.0, record b { board = record b.board { session = x.1 } }))
                >>= λ _. (modify publish_telemetry >> modify publish_events))
              s
            ≡ after_poll s x
      then_publish (ok drained, received) =
          rw
            (
              publish_loop-oldest (telemetry_message s.name_by_ref) s.max_publish_per_poll
                  received.inbox.telemetry_queue.maxsize received.inbox.telemetry_queue.items
                  s.telemetry_pub,
              publish_loop-oldest (event_message s.name_by_ref) s.max_publish_per_poll
                  received.inbox.event_queue.maxsize received.inbox.event_queue.items s.events_pub,
            )
            refl
      then_publish (err e, received) = refl
      then_publish (stuck, received) = refl
