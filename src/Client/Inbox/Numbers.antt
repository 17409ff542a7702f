-- ===== src/Client/Inbox/Numbers.antt =====
-- Numbers as the firmware sends them, and as the handler reads them back.
use teensy_io.Base.{ℕ, ◌-◌, ◌/◌, ◌%◌, ◌^◌, ◌<◌, List, [], ◌∷◌, ◌++◌}
use teensy_io.Base.{◌≡◌, refl, ap, ◌∙◌, arith}
use mathlib.Core.Path.{ap₂}
use teensy_io.Base.Int.{ℤ, pos, negsuc}
use teensy_io.Protocol.Commands.{PacketType, ResourceKind, kind_code, resource_kind-kind_code}
use teensy_io.Protocol.Errors.{Result, ok}
use teensy_io.Protocol.Decoder.{from_bytes}
use teensy_io.Client.Inbox.{Inbox, signed32, unpack_i32, unpack_u32, handle_async_packet}
use teensy_io.Client.Inbox.Handler.{
  IsBounded, frame_of, event_of, with_frame, with_event, handle_telemetry, handle_event,
}

-- Two's complement in 32 bits, and four bytes with the lowest first.
abbrev pub word : ℤ → ℕ
word (pos n) = n
word (negsuc n) = 2 ^ 32 - 1 - n

abbrev pub to_bytes4 : ℕ → List ℕ
to_bytes4 w = (w % 256) ∷ (w / 256 % 256) ∷ (w / 65536 % 256) ∷ (w / 16777216) ∷ []

-- The integers of 32 bits.
abbrev pub IsI32 : ℤ → Type 0
IsI32 (pos n) = n < 2 ^ 31
IsI32 (negsuc n) = n < 2 ^ 31

from_bytes-to_bytes4 : (w : ℕ) → from_bytes (to_bytes4 w) ≡ w
from_bytes-to_bytes4 w = omega arith

signed32-word : (z : ℤ) → IsI32 z → signed32 (word z) ≡ z
signed32-word (pos n) h = ground arith
signed32-word (negsuc n) h = ground arith

-- Four bytes of an integer unpack to that integer, over the whole range of 32 bits.
pub unpack_i32-word : (z : ℤ) → IsI32 z → unpack_i32 (to_bytes4 (word z)) ≡ ok z
unfolding unpack_i32 unpack_u32
unpack_i32-word z h =
    ap (λ w. ok (signed32 w)) (from_bytes-to_bytes4 (word z)) ∙ ap ok (signed32-word z h)

-- A telemetry packet about a resource reaches the queue and the callbacks with that resource and
-- with the very value that was sent, for every integer of 32 bits; the queue gives up its oldest
-- frame if it is full.
pub handle_telemetry_sent :
    (kind : ResourceKind) (id seq : ℕ) (z : ℤ) (extra : List ℕ) (s : Inbox)
    → IsI32 z
    → IsBounded s
    → handle_async_packet
        (record {
          type = PacketType.telemetry;
          seq = seq;
          payload = kind_code kind ∷ id ∷ (to_bytes4 (word z) ++ extra);
        })
        s
      ≡ (ok tt, with_frame (record { kind = kind; resource_id = id; value = z }) s)
unfolding frame_of
handle_telemetry_sent kind id seq z extra s h b =
    handle_telemetry _ s b kind refl (omega arith) (resource_kind-kind_code kind)
    ∙ ap {B = Result (Unit {0}) × Inbox}
        (λ v. (ok tt, with_frame (record { kind = kind; resource_id = id; value = v }) s))
        (ap signed32 (from_bytes-to_bytes4 (word z)) ∙ signed32-word z h)

-- An event packet about a resource reaches the queue and the callbacks of that resource with the
-- very value that was sent, for every integer of 32 bits, and with the timestamp that was sent; the
-- queue gives up its oldest event if it is full.
pub handle_event_sent :
    (kind : ResourceKind) (id seq time : ℕ) (z : ℤ) (extra : List ℕ) (s : Inbox)
    → IsI32 z
    → IsBounded s
    → handle_async_packet
        (record {
          type = PacketType.event;
          seq = seq;
          payload = kind_code kind ∷ id ∷ (to_bytes4 (word z) ++ (to_bytes4 time ++ extra));
        })
        s
      ≡ (
        ok tt,
        with_event (record { kind = kind; resource_id = id; value = z; timestamp_us = time }) s,
      )
unfolding event_of
handle_event_sent kind id seq time z extra s h b =
    handle_event _ s b kind refl (omega arith) (resource_kind-kind_code kind)
    ∙ ap₂ {C = Result (Unit {0}) × Inbox}
        (λ v t. (
          ok tt,
          with_event (record { kind = kind; resource_id = id; value = v; timestamp_us = t }) s,
        ))
        (ap signed32 (from_bytes-to_bytes4 (word z)) ∙ signed32-word z h)
        (from_bytes-to_bytes4 time)
