-- ===== src/Client/Inbox.antt =====
-- Packets that answer no command: `_handle_async_packet`, `_put_bounded`, the unpacking of numbers.
pub mod Queues
pub mod Handler
pub mod Numbers
pub mod Ends
use teensy_io.Base.{ℕ, zero, suc, ◌+◌, ◌-◌, ◌^◌, Bool, true, false, ◌&&◌, Option, none, some}
use teensy_io.Base.{
  List, [], ◌∷◌, ◌++◌, map, length, ltb, leb, ◌==◌, if◌then◌else◌, take, slice, get_or,
}
use teensy_io.Base.Int.{ℤ, pos, negsuc}
use teensy_io.Protocol.Commands.{PacketType, ResourceKind, type_code, kind_code, resource_kind}
use teensy_io.Protocol.Errors.{Error, Result, ok, err, stuck, ◌>>=◌}
use teensy_io.Protocol.Frames.{TelemetryFrame, EdgeEvent}
use teensy_io.Protocol.Packet.{Packet}
use teensy_io.Protocol.Decoder.{from_bytes}

-- `queue.Queue` as the client uses it, without waiting; a `maxsize` of 0 is no limit.
pub record BoundedQueue (A : Type 0) : Type 0 where
  pub items : List A
  pub maxsize : ℕ

module _ {A : Type 0} where
  -- `none` stands for `queue.Full`
  unfoldable pub put_nowait : A → BoundedQueue A → Option (BoundedQueue A)
  put_nowait item q =
      if ltb 0 q.maxsize && leb q.maxsize (length q.items)
      then none
      else some (record q { items = q.items ++ (item ∷ []) })

  -- `none` stands for `queue.Empty`
  unfoldable pub get_nowait : BoundedQueue A → Option (A × BoundedQueue A)
  get_nowait q = elim q.items [ [] ↦ none | item ∷ rest ↦ some (item, record q { items = rest }) ]

  -- The queue after `try: target.get_nowait() except queue.Empty: pass`
  unfoldable pub drop_oldest : BoundedQueue A → BoundedQueue A
  unfolding get_nowait
  drop_oldest q = elim (get_nowait q) [ none ↦ q | some (_, q') ↦ q' ]

  -- What is raised, the queue, and the number by which `…_dropped` grows.
  unfoldable pub put_bounded : BoundedQueue A → A → Result (Unit {0}) × BoundedQueue A × ℕ
  unfolding put_nowait drop_oldest
  put_bounded q item = elim (put_nowait item q) [
    | some q' ↦ (ok tt, q', 0)
    | none ↦ elim (put_nowait item (drop_oldest q)) [
      | some q' ↦ (ok tt, q', 1)
      | none ↦ (err Error.queue_is_full, drop_oldest q, 1)
    ]
  ]

-- `struct.unpack("<I", payload[:4])` wants four bytes.
unfoldable pub unpack_u32 : List ℕ → Result ℕ
unpack_u32 payload =
    if length (take 4 payload) == 4
    then ok (from_bytes (take 4 payload))
    else err Error.struct_error

-- The number that a pattern of 32 bits stands for.
abbrev pub signed32 : ℕ → ℤ
signed32 w = if ltb w (2 ^ 31) then pos w else negsuc (2 ^ 32 - w - 1)

-- `struct.unpack("<i", payload[:4])`
unfoldable pub unpack_i32 : List ℕ → Result ℤ
unfolding unpack_u32
unpack_i32 payload = unpack_u32 payload >>= λ w. ok (signed32 w)

-- A call of a callback, which the client names by a number. What a callback does is not modelled:
-- it returns and does not touch the client.
pub data Delivery : Type 0 where
  telemetry_call : ℕ → TelemetryFrame → Delivery
  edge_call : ℕ → EdgeEvent → Delivery

-- The fields of `TeensyIO` for input.
pub record Inbox : Type 0 where
  pub decoder : List ℕ
  pub telemetry_queue : BoundedQueue TelemetryFrame
  pub event_queue : BoundedQueue EdgeEvent
  pub telemetry_dropped : ℕ
  pub events_dropped : ℕ
  pub telemetry_callbacks : List ℕ
  pub edge_callbacks : List ((ResourceKind × ℕ) × List ℕ)
  pub deliveries : List Delivery

-- `self._edge_callbacks.get((kind, resource_id), [])`
unfoldable pub callbacks_for : ResourceKind → ℕ → List ((ResourceKind × ℕ) × List ℕ) → List ℕ
callbacks_for kind id [] = []
callbacks_for kind id (((k, i), callbacks) ∷ rest) =
    if kind_code kind == kind_code k && id == i then callbacks else callbacks_for kind id rest

-- The callbacks run once the queue has the frame.
abbrev pub deliver : Result (Unit {0}) → List Delivery → Inbox → Result (Unit {0}) × Inbox
deliver (ok _) calls s = (ok tt, record s { deliveries = s.deliveries ++ calls })
deliver (err e) calls s = (err e, s)
deliver stuck calls s = (stuck, s)

unfoldable pub take_telemetry : TelemetryFrame → Inbox → Result (Unit {0}) × Inbox
unfolding put_bounded
take_telemetry frame s =
    let (r, queue, dropped) = put_bounded s.telemetry_queue frame in
    deliver r (map (λ c. Delivery.telemetry_call c frame) s.telemetry_callbacks)
      (record s { telemetry_queue = queue; telemetry_dropped = s.telemetry_dropped + dropped })

unfoldable pub take_event : EdgeEvent → Inbox → Result (Unit {0}) × Inbox
unfolding put_bounded callbacks_for
take_event event s =
    let (r, queue, dropped) = put_bounded s.event_queue event in
    deliver r
      (map (λ c. Delivery.edge_call c event)
        (callbacks_for event.kind event.resource_id s.edge_callbacks))
      (record s { event_queue = queue; events_dropped = s.events_dropped + dropped })

-- The frame and the event that a payload of the right length describes, if it names a known kind.
unfoldable pub telemetry_frame : List ℕ → ResourceKind → Result TelemetryFrame
unfolding unpack_i32
telemetry_frame payload kind = unpack_i32 (slice 2 6 payload) >>= λ value.
    ok (record { kind = kind; resource_id = get_or payload 1 0; value = value })

unfoldable pub edge_event : List ℕ → ResourceKind → Result EdgeEvent
unfolding unpack_i32
edge_event payload kind = do
  value ← unpack_i32 (slice 2 6 payload)
  timestamp ← unpack_u32 (slice 6 10 payload)
  ok (record {
    kind = kind;
    resource_id = get_or payload 1 0;
    value = value;
    timestamp_us = timestamp;
  })

-- An exception of the unpacking, or the rest of the handler on its result.
abbrev pub handle_with :
    {A : Type 0}
    → Result A
    → (A → Inbox → Result (Unit {0}) × Inbox)
    → Inbox
    → Result (Unit {0}) × Inbox
handle_with (ok a) rest s = rest a s
handle_with (err e) rest s = (err e, s)
handle_with stuck rest s = (stuck, s)

unfoldable pub handle_async_packet : Packet → Inbox → Result (Unit {0}) × Inbox
unfolding take_telemetry take_event telemetry_frame edge_event
handle_async_packet packet s =
    if type_code packet.type == type_code PacketType.telemetry && leb 6 (length packet.payload)
    then elim (resource_kind (get_or packet.payload 0 0)) [
      | none ↦ (ok tt, s)
      | some kind ↦ handle_with (telemetry_frame packet.payload kind) take_telemetry s
    ]
    else (if type_code packet.type == type_code PacketType.event && leb 10 (length packet.payload)
        then elim (resource_kind (get_or packet.payload 0 0)) [
          | none ↦ (ok tt, s)
          | some kind ↦ handle_with (edge_event packet.payload kind) take_event s
        ]
        else (ok tt, s))
