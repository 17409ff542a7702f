-- ===== src/Client/Inbox/Handler.antt =====
-- `_handle_async_packet`: it never raises, it keeps the limits, and it reads the numbers as sent.
use teensy_io.Base.{ℕ, ◌+◌, ◌-◌, ◌≤◌, List, [], ◌∷◌, ◌++◌, length, map}
use teensy_io.Base.{◌≡◌, refl, sym, arith, length-take, length-drop, take, drop, slice, get_or}
use teensy_io.Base.{none, some, Option-cases, inl, inr}
use mathlib.Core.Path.{subst}
use native.Mathlib.Decide.{dec_le}
use teensy_io.Protocol.Commands.{PacketType, ResourceKind, type_code, resource_kind}
use teensy_io.Protocol.Errors.{Result, ok}
use teensy_io.Protocol.Frames.{TelemetryFrame, EdgeEvent}
use teensy_io.Protocol.Packet.{Packet}
use teensy_io.Protocol.Decoder.{from_bytes}
use teensy_io.Client.Inbox.{
  Inbox, Delivery, unpack_u32, unpack_i32, signed32, telemetry_frame, edge_event,
}
use teensy_io.Client.Inbox.{take_telemetry, take_event, handle_async_packet, callbacks_for}
use teensy_io.Client.Inbox.Queues.{IsWithin, newest, excess, put_bounded-newest, newest-IsWithin}

pub record IsBounded (s : Inbox) : Type 0 where
  pub telemetry_within : IsWithin s.telemetry_queue
  pub events_within : IsWithin s.event_queue

-- Four bytes are four bytes: a slice of the right length unpacks.
unpack_u32-slice :
    (lo : ℕ) (payload : List ℕ)
    → lo + 4 ≤ length payload
    → unpack_u32 (slice lo (lo + 4) payload) ≡ ok (from_bytes (take 4 (slice lo (lo + 4) payload)))
unfolding unpack_u32
unpack_u32-slice lo payload h = ground (
  arith,
  length-take 4 (slice lo (lo + 4) payload),
  length-take (lo + 4 - lo) (drop lo payload),
  length-drop lo payload,
)

-- The frame and the event that the handler makes of a payload.
unfoldable pub frame_of : List ℕ → ResourceKind → TelemetryFrame
frame_of payload kind = record {
  kind = kind;
  resource_id = get_or payload 1 0;
  value = signed32 (from_bytes (take 4 (slice 2 6 payload)));
}

unfoldable pub event_of : List ℕ → ResourceKind → EdgeEvent
event_of payload kind = record {
  kind = kind;
  resource_id = get_or payload 1 0;
  value = signed32 (from_bytes (take 4 (slice 2 6 payload)));
  timestamp_us = from_bytes (take 4 (slice 6 10 payload));
}

telemetry_frame_lem :
    (payload : List ℕ) (kind : ResourceKind)
    → 6 ≤ length payload
    → telemetry_frame payload kind ≡ ok (frame_of payload kind)
unfolding telemetry_frame unpack_i32 frame_of
telemetry_frame_lem payload kind h = rw (unpack_u32-slice 2 payload h)

edge_event_lem :
    (payload : List ℕ) (kind : ResourceKind)
    → 10 ≤ length payload
    → edge_event payload kind ≡ ok (event_of payload kind)
unfolding edge_event unpack_i32 event_of
edge_event_lem payload kind h =
    rw (unpack_u32-slice 2 payload (omega arith), unpack_u32-slice 6 payload h)

-- The inbox after a frame or an event has come in.
unfoldable pub with_frame : TelemetryFrame → Inbox → Inbox
with_frame frame s = record s {
  telemetry_queue = newest s.telemetry_queue (frame ∷ []);
  telemetry_dropped =
      s.telemetry_dropped + excess s.telemetry_queue.maxsize (length s.telemetry_queue.items + 1);
  deliveries = s.deliveries ++ map (λ c. Delivery.telemetry_call c frame) s.telemetry_callbacks;
}

unfoldable pub with_event : EdgeEvent → Inbox → Inbox
with_event event s = record s {
  event_queue = newest s.event_queue (event ∷ []);
  events_dropped = s.events_dropped + excess s.event_queue.maxsize (length s.event_queue.items + 1);
  deliveries =
      s.deliveries
      ++ map (λ c. Delivery.edge_call c event)
          (callbacks_for event.kind event.resource_id s.edge_callbacks);
}

take_telemetry_lem :
    (frame : TelemetryFrame) (s : Inbox)
    → IsWithin s.telemetry_queue
    → take_telemetry frame s ≡ (ok tt, with_frame frame s)
unfolding take_telemetry with_frame
take_telemetry_lem frame s h = rw (put_bounded-newest s.telemetry_queue frame h)

take_event_lem :
    (event : EdgeEvent) (s : Inbox)
    → IsWithin s.event_queue
    → take_event event s ≡ (ok tt, with_event event s)
unfolding take_event with_event
take_event_lem event s h = rw (put_bounded-newest s.event_queue event h)

-- The inbox after a packet, whatever the packet is.
module _ (p : Packet) (s : Inbox) (h : IsBounded s) where
  pub handle_telemetry :
      (kind : ResourceKind)
      → p.type ≡ PacketType.telemetry
      → 6 ≤ length p.payload
      → resource_kind (get_or p.payload 0 0) ≡ some kind
      → handle_async_packet p s ≡ (ok tt, with_frame (frame_of p.payload kind) s)
  unfolding handle_async_packet type_code
  handle_telemetry kind t l k = ground (
    arith,
    telemetry_frame_lem p.payload kind,
    take_telemetry_lem (frame_of p.payload kind) s h.telemetry_within,
  )

  pub handle_event :
      (kind : ResourceKind)
      → p.type ≡ PacketType.event
      → 10 ≤ length p.payload
      → resource_kind (get_or p.payload 0 0) ≡ some kind
      → handle_async_packet p s ≡ (ok tt, with_event (event_of p.payload kind) s)
  unfolding handle_async_packet type_code
  handle_event kind t l k = ground (
    arith,
    edge_event_lem p.payload kind,
    take_event_lem (event_of p.payload kind) s h.events_within,
  )

  -- Every other packet is passed over.
  pub handle_other :
      (p.type ≡ PacketType.telemetry
        → 6 ≤ length p.payload
        → resource_kind (get_or p.payload 0 0) ≡ none)
      → (p.type ≡ PacketType.event
          → 10 ≤ length p.payload
          → resource_kind (get_or p.payload 0 0) ≡ none)
      → handle_async_packet p s ≡ (ok tt, s)
  unfolding handle_async_packet
  handle_other t e = other p.type refl
    where
      other : (type : PacketType) → p.type ≡ type → handle_async_packet p s ≡ (ok tt, s)
      other PacketType.telemetry q = unfold type_code in ground (arith, t q)
      other PacketType.event q = unfold type_code in ground (arith, e q)
      other PacketType.command q = unfold type_code in ground arith
      other PacketType.ack q = unfold type_code in ground arith
      other PacketType.nack q = unfold type_code in ground arith
      other PacketType.data_ q = unfold type_code in ground arith
      other PacketType.error q = unfold type_code in ground arith

with_frame-IsBounded : (f : TelemetryFrame) (s : Inbox) → IsBounded s → IsBounded (with_frame f s)
unfolding with_frame
with_frame-IsBounded f s h = record {
  telemetry_within = newest-IsWithin s.telemetry_queue (f ∷ []);
  events_within = h.events_within;
}

with_event-IsBounded : (e : EdgeEvent) (s : Inbox) → IsBounded s → IsBounded (with_event e s)
unfolding with_event
with_event-IsBounded e s h = record {
  telemetry_within = h.telemetry_within;
  events_within = newest-IsWithin s.event_queue (e ∷ []);
}

-- What holds of the handler's outcome.
abbrev Handled : Inbox → Result (Unit {0}) × Inbox → Type 0
Handled s (r, s') = (r ≡ ok tt) × IsBounded s' × (s'.decoder ≡ s.decoder)

-- On every packet the handler returns, both queues keep their limits, and the decoder's buffer is
-- left alone.
pub handle_async_packet-IsBounded :
    (p : Packet) (s : Inbox)
    → IsBounded s
    → ((handle_async_packet p s).0 ≡ ok tt)
      × IsBounded (handle_async_packet p s).1
      × ((handle_async_packet p s).1.decoder ≡ s.decoder)
handle_async_packet-IsBounded p s h = elim (Option-cases (resource_kind (get_or p.payload 0 0))) [
  | inl unknown ↦ passed (λ _ _. unknown) (λ _ _. unknown)
  | inr (kind, known) ↦ by_type kind known p.type refl
]
  where
    passed :
        (p.type ≡ PacketType.telemetry
          → 6 ≤ length p.payload
          → resource_kind (get_or p.payload 0 0) ≡ none)
        → (p.type ≡ PacketType.event
            → 10 ≤ length p.payload
            → resource_kind (get_or p.payload 0 0) ≡ none)
        → Handled s (handle_async_packet p s)
    passed t e = subst (Handled s) (sym (handle_other p s h t e)) (refl, h, refl)

    by_type :
        (kind : ResourceKind)
        → resource_kind (get_or p.payload 0 0) ≡ some kind
        → (type : PacketType) → p.type ≡ type
        → Handled s (handle_async_packet p s)
    by_type kind known PacketType.telemetry t = elim (dec_le 6 (length p.payload)) [
      | yes l ↦
          subst (Handled s) (sym (handle_telemetry p s h kind t l known))
            (refl, with_frame-IsBounded (frame_of p.payload kind) s h, unfold with_frame in refl)
      | no l ↦ passed (λ _ k. absurd (l k)) (λ e _. absurd (cc))
    ]
    by_type kind known PacketType.event t = elim (dec_le 10 (length p.payload)) [
      | yes l ↦
          subst (Handled s) (sym (handle_event p s h kind t l known))
            (refl, with_event-IsBounded (event_of p.payload kind) s h, unfold with_event in refl)
      | no l ↦ passed (λ e _. absurd (cc)) (λ _ k. absurd (l k))
    ]
    by_type kind known _ t = passed (λ e _. absurd (cc)) (λ e _. absurd (cc))
