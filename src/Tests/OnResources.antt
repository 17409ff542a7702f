-- ===== src/Tests/OnResources.antt =====
-- The resources over a client that answers from a script, and the serial link over a small port.
use teensy_io.Base.{
  none, ℕ, ◌+◌, ◌^◌, ◌<◌, ◌⊎◌, ◌≤◌, List, [], ◌∷◌, length, All, IsByte, arith, ◌≡◌, ◌↔◌, refl, true,
  false, some,
}
use mathlib.Core.List.{replicate}
use teensy_io.Base.Int.{pos, negsuc, ◌-ℤ◌}
use teensy_io.Protocol.Commands.{CommandId}
use teensy_io.Protocol.Errors.{Error, ok, err}
use teensy_io.Protocol.Exec.{pure, ◌>>◌}
use teensy_io.Protocol.Packet.{to_bytes2}
use teensy_io.Protocol.Decoder.{from_bytes}
use teensy_io.Transport.Lawful.{IsLive}
use teensy_io.Transport.Serial.{
  Port, SerialTransport, serial_transport, serial_transport_lawful, IsPort, IsTimed,
}
use teensy_io.Client.Inbox.Numbers.{to_bytes4, word}
use teensy_io.Resources.{Io, Held, on_io, bytes_of}
use teensy_io.Client.Inbox.{unpack_i32}
use Prim.Native.String.{String}
use teensy_io.Resources.Ids.{Numbered, id_for, id_for-injective}
use teensy_io.Resources.Encoder.{QuadratureEncoder, delta, deltas-sum}
use teensy_io.Resources.Deltas.{sum_from, repeat}
use teensy_io.Resources.Counter.{PulseCounter, counter_deltas-sum}
use teensy_io.Resources.Counter
use teensy_io.Resources.Dac.{IsOutOf, DacOutput, IsAttached, write_raw, write_raw-sends}
use teensy_io.Base.{Bool, false, suc, ◌<◌, ◌^◌}
use teensy_io.Base.Floats.{Float, scale}
use teensy_io.Resources.Pwm
use teensy_io.Resources.Pwm.{PwmOutput, pwm_write-duty}
use teensy_io.Resources.I2cBus.{write}
use teensy_io.Resources.Session.{board_io, session_channel, write-too_long}
use teensy_io.Tests.Loopback.{
  idle, Wire, board, loopback, loopback-IsBounded, loopback-IsLive, loopback-IsTicking, session_on,
}

-- A client whose state is the answers still to be given.
abbrev scripted : Io (List (List ℕ))
scripted = record {
  command = λ code payload expect answers. elim answers [
    | [] ↦ (err Error.timeout, [])
    | answer ∷ rest ↦ (ok answer, rest)
  ];
  counter_id = λ name answers. (ok 0, answers);
  encoder_id = λ name answers. (ok 0, answers);
  pin_number = λ name answers. (ok none, answers);
  dac_id = λ name answers. (ok 0, answers);
  add_edge_callback = λ pin callback answers. (ok tt, answers);
  now = λ answers. length answers;
}

abbrev encoder : Held QuadratureEncoder (List (List ℕ))
encoder = record {
  self = record { name = "wheel"; id = some 0; last_position = pos 10 };
  io = to_bytes4 (word (pos 25)) ∷ to_bytes4 (word (negsuc 3)) ∷ [];
}

two_deltas : (repeat 2 (delta scripted) encoder).0 ≡ ok (pos 15 ∷ negsuc 28 ∷ [])
unfolding repeat delta bytes_of unpack_i32 ◌-ℤ◌
two_deltas = refl

deltas-sum_example :
    (repeat 2 (delta scripted) encoder).1.self.last_position
    ≡ sum_from (pos 10) (pos 15 ∷ negsuc 28 ∷ [])
deltas-sum_example = deltas-sum scripted 2 encoder (pos 15 ∷ negsuc 28 ∷ []) two_deltas

abbrev counter : Held PulseCounter (List (List ℕ))
counter = record {
  self = record { name = "flow"; id = some 0; last_count = pos 0; samples = [] };
  io = to_bytes4 (word (pos 7)) ∷ to_bytes4 (word (pos 9)) ∷ [];
}

two_counts : (repeat 2 (Counter.delta scripted) counter).0 ≡ ok (pos 7 ∷ pos 2 ∷ [])
unfolding repeat Counter.delta bytes_of unpack_i32 ◌-ℤ◌
two_counts = refl

id_for-injective_example :
    (let first = id_for "left" (("right", 0) ∷ []) in
      let second = id_for "right" first.1 in
      ((first.0 ≡ second.0) ↔ (◌≡◌ {A = String} "left" "right")) × Numbered 0 second.1)
id_for-injective_example = id_for-injective "left" "right" (("right", 0) ∷ []) (refl, tt)

abbrev dac : Held DacOutput (List (List ℕ))
dac = record {
  self = record {
    name = "out";
    id = some 0;
    bus_name = some "main";
    address = some (pos 96);
    channels = 2;
    resolution_bits = 12;
  };
  io = [] ∷ [];
}

dac-IsAttached : IsAttached 0 dac.self
dac-IsAttached = record {
  attached = refl;
  id_fits = omega arith;
  channels_fit = omega arith;
  bits_fit = omega arith;
}

write_raw-sends_example :
    ((v c : ℕ) × (pos 4095 ≡ pos v)
      × (pos 1 ≡ pos c)
      × (v < 2 ^ 12)
      × (c < dac.self.channels)
      × (write_raw scripted (pos 4095) (pos 1) dac
          ≡ (on_io (scripted.command CommandId.dac_write_raw (0 ∷ c ∷ to_bytes2 v) true) >> pure tt)
              dac)
      × All IsByte (0 ∷ c ∷ to_bytes2 v)
      × (from_bytes (to_bytes2 v) ≡ v))
    ⊎ ((IsOutOf (2 ^ 12) (pos 4095) ⊎ IsOutOf dac.self.channels (pos 1))
        × (write_raw scripted (pos 4095) (pos 1) dac ≡ (err Error.value_error, dac)))
write_raw-sends_example = write_raw-sends scripted 0 dac dac-IsAttached (pos 4095) (pos 1)

write-too_long_example :
    write
      (board_io (session_channel loopback))
      (pos 96)
      (replicate 125 0)
      (record { self = record { bus = some (pos 0); frequency = pos 400000 }; io = board })
    ≡ (
      err Error.protocol,
      record {
        self = record { bus = some (pos 0); frequency = pos 400000 };
        io = record board { session = record (session_on []) { seq = 1 + 1 } };
      },
    )
write-too_long_example =
    write-too_long loopback 0 96 (pos 400000) (replicate 125 0) board (omega arith) (omega arith)
      (omega arith) (omega arith)

-- A port over the prepared bytes.
abbrev port : Port Wire
port = record {
  connect = loopback.open_link;
  close = loopback.close_link;
  write = loopback.write;
  read = loopback.read;
  in_waiting = λ w. (ok (length w.incoming), w);
  is_open = loopback.is_open;
  now = loopback.now;
}

port-IsPort : IsPort port
port-IsPort = record { read_bounded = loopback-IsBounded.read_bounded }

port-IsTimed : IsTimed port
port-IsTimed = record {
  read_takes_time = loopback-IsTicking.read_takes_time;
  waiting_monotone = λ n w e. omega arith;
  write_ends = loopback-IsLive.write_ends;
  read_ends = loopback-IsLive.read_ends;
  waiting_ends = λ w e. cc;
}

port_lawful : IsLive (serial_transport port)
port_lawful = let (_, _, live, _) = serial_transport_lawful port port-IsPort port-IsTimed in live

abbrev open_port : SerialTransport Wire
open_port = record { opened = true; port = idle (1 ∷ 2 ∷ 3 ∷ []) }

-- 3/4 of 255 is 191.25.
three_quarters : scale 255 3 2 ≡ 191
unfolding scale
three_quarters = refl

abbrev lamp : Held PwmOutput (List (List ℕ))
lamp = record { self = record { physical_pin = some (pos 3) }; io = [] ∷ [] }

abbrev Refuses : Float → Type 0
Refuses duty = Pwm.write scripted duty lamp ≡ (err Error.value_error, lamp)

pwm_write-duty_example :
    ((m k : ℕ)
      → m ≤ 2 ^ k
      → (scale 255 m k ≤ 255)
        × (Pwm.write scripted (Float.finite false m k) lamp
            ≡ (on_io (scripted.command CommandId.pwm_write (3 ∷ scale 255 m k ∷ []) true)
                  >> pure tt)
                lamp))
    × ((m k : ℕ) → 2 ^ k < m → Refuses (Float.finite false m k))
    × ((m k : ℕ) → Refuses (Float.finite true (suc m) k))
    × ((negative : Bool) → Refuses (Float.infinite negative))
    × Refuses Float.nan
pwm_write-duty_example = pwm_write-duty scripted 3 ([] ∷ []) (omega arith)
