-- ===== src/Client/Inbox/Ends.antt =====
-- The handler comes back on every packet, also from a state that breaks its invariant.
use teensy_io.Base.{ℕ, List, ◌≢◌, refl, arith, get_or, Option-cases, inl, inr}
use teensy_io.Protocol.Commands.{ResourceKind, resource_kind}
use teensy_io.Protocol.Errors.{Result, ok, err, stuck}
use teensy_io.Protocol.Frames.{TelemetryFrame, EdgeEvent}
use teensy_io.Protocol.Packet.{Packet}
use teensy_io.Client.Inbox.{
  Inbox, Delivery, deliver, unpack_u32, unpack_i32, take_telemetry, take_event,
}
use teensy_io.Client.Inbox.{handle_with, handle_async_packet, telemetry_frame, edge_event}
use teensy_io.Client.Inbox.Queues.{put_bounded-ne-stuck}

deliver-ne-stuck :
    (r : Result (Unit {0})) (calls : List Delivery) (s : Inbox)
    → r ≢ stuck
    → (deliver r calls s).0 ≢ stuck
deliver-ne-stuck (ok a) calls s h e = cc
deliver-ne-stuck (err x) calls s h e = cc
deliver-ne-stuck stuck calls s h e = h refl

handle_with-ne-stuck :
    {A : Type 0} (r : Result A) (rest : A → Inbox → Result (Unit {0}) × Inbox) (s : Inbox)
    → r ≢ stuck
    → ((a : A) → (rest a s).0 ≢ stuck)
    → (handle_with r rest s).0 ≢ stuck
handle_with-ne-stuck (ok a) rest s h k e = k a e
handle_with-ne-stuck (err x) rest s h k e = cc
handle_with-ne-stuck stuck rest s h k e = h refl

take_telemetry-ne-stuck : (f : TelemetryFrame) (s : Inbox) → (take_telemetry f s).0 ≢ stuck
unfolding take_telemetry
take_telemetry-ne-stuck f s = deliver-ne-stuck _ _ _ (put_bounded-ne-stuck s.telemetry_queue f)

take_event-ne-stuck : (x : EdgeEvent) (s : Inbox) → (take_event x s).0 ≢ stuck
unfolding take_event
take_event-ne-stuck x s = deliver-ne-stuck _ _ _ (put_bounded-ne-stuck s.event_queue x)

telemetry_frame-ne-stuck : (payload : List ℕ) (k : ResourceKind) → telemetry_frame payload k ≢ stuck
unfolding telemetry_frame unpack_i32 unpack_u32
telemetry_frame-ne-stuck payload k = ground arith

edge_event-ne-stuck : (payload : List ℕ) (k : ResourceKind) → edge_event payload k ≢ stuck
unfolding edge_event unpack_i32 unpack_u32
edge_event-ne-stuck payload k = ground arith

pub handle_async_packet-ne-stuck : (p : Packet) (s : Inbox) → (handle_async_packet p s).0 ≢ stuck
unfolding handle_async_packet
handle_async_packet-ne-stuck p s = elim (Option-cases (resource_kind (get_or p.payload 0 0))) [
  | inl unknown ↦ ground arith
  | inr (kind, known) ↦ ground (
    arith,
    handle_with-ne-stuck (telemetry_frame p.payload kind) take_telemetry s
        (telemetry_frame-ne-stuck p.payload kind) (λ f. take_telemetry-ne-stuck f s),
    handle_with-ne-stuck (edge_event p.payload kind) take_event s
        (edge_event-ne-stuck p.payload kind) (λ x. take_event-ne-stuck x s),
  )
]
