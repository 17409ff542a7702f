-- ===== src/Tests/OnDevice.antt =====
-- The front end over a channel that answers every command with no bytes, and keeps what was sent.
use Prim.Native.String.{String}
use teensy_io.Base.{
  ℕ, ◌/◌, ◌%◌, true, false, Option, none, some, List, [], ◌∷◌, ◌++◌, arith, ◌≡◌, ◌≢◌, refl,
}
use teensy_io.Base.Floats.{Float}
use teensy_io.Base.Int.{ℤ, pos}
use teensy_io.Protocol.Commands.{CommandId, command_code}
use teensy_io.Protocol.Errors.{Error, ok, err}
use teensy_io.Protocol.Exec.{pure, ◌>>◌}
use teensy_io.Resources.Pin
use teensy_io.Resources.Session.{Channel, board_io, on_session, session_channel}
use teensy_io.Config.{Value, Entries}
use teensy_io.Config.Loader.{Files, load_config}
use teensy_io.Config.Schema.{validate_config}
use teensy_io.Device.{on_pin}
use teensy_io.Device.Configure.{configure_all}
use teensy_io.Device.Refs.{subscribe}
use teensy_io.Device.Registry.{configured_pin-commands}
use teensy_io.Device.Valid.{configure_all-valid}
use teensy_io.Device.Accepted.{configure_all-accepted}
use teensy_io.Tests.Loopback.{board, board_of, loopback}

abbrev channel : Channel (List (List ℕ))
channel = record {
  send = λ code payload expect sent. (ok [], sent ++ (command_code code ∷ payload) ∷ []);
  add_callback = λ pin callback sent. (ok tt, sent);
  now = λ sent. 0;
}

abbrev one_entry : String → String → Entries → Entries → Entries
one_entry section name spec rest =
    Entries.entry section (Value.mapping (Entries.entry name (Value.mapping spec) Entries.end)) rest

-- An output, an input, a counter on it, an encoder, a bus and a DAC on the bus.
abbrev config : Entries
config =
    Entries.entry "pins"
      (Value.mapping (
        Entries.entry "led"
          (Value.mapping (
            Entries.entry "type" (Value.text "digital_output")
              (Entries.entry "physical_pin" (Value.whole (pos 13)) Entries.end)))
          (Entries.entry "fan"
            (Value.mapping (
              Entries.entry "type" (Value.text "pwm") (
                Entries.entry "physical_pin" (Value.whole (pos 3)) (
                  Entries.entry "initial_duty" (Value.real (Float.finite false 1 1)) Entries.end))))
            Entries.end)))
      (one_entry "inputs" "pulse"
        (Entries.entry "physical_pin" (Value.whole (pos 7))
          (Entries.entry "pull" (Value.text "up") Entries.end))
        (one_entry "counters" "ticks" (Entries.entry "pin" (Value.text "pulse") Entries.end) (
          one_entry "encoders" "wheel"
            (Entries.entry "pin_a" (Value.whole (pos 4))
              (Entries.entry "pin_b" (Value.whole (pos 5)) Entries.end))
            (one_entry "i2c_buses" "main" (Entries.entry "bus" (Value.whole (pos 0)) Entries.end) (
              one_entry "dacs" "out"
                (Entries.entry "bus" (Value.text "main")
                  (Entries.entry "address" (Value.whole (pos 96)) Entries.end))
                Entries.end)))))

no_ints : String → Option ℤ
no_ints s = none

no_floats : String → Option Float
no_floats s = none

config_accepted : validate_config (Value.mapping config) ≡ ok tt
unfolding validate_config
config_accepted = refl

-- One file, which the parser makes the configuration above of.
abbrev files : Files
files = record { read = λ path. ok "pins: …"; safe_load = some (λ text. ok (Value.mapping config)) }

config_loaded : load_config files "io.yaml" ≡ ok config
unfolding load_config
config_loaded = refl

configure_all-valid_example :
    (configure_all channel no_ints no_floats config (board_of [])).0 ≢ err Error.key_error
configure_all-valid_example =
    configure_all-valid channel no_ints no_floats Error.key_error config (board_of []) refl
      (λ code payload expect s e. cc) config_accepted

configure_all-accepted_example :
    (configure_all (session_channel loopback) no_ints no_floats config board).0
    ≢ err Error.key_error
configure_all-accepted_example =
    configure_all-accepted loopback no_ints no_floats Error.key_error files "io.yaml" config board
      refl (λ bytes w e. cc) (λ n w e. cc) (λ n w e. cc) config_loaded

-- A counter on the physical pin 0 is accepted, and then the pin is taken for a missing one.
abbrev counter_on_pin_zero : Entries
counter_on_pin_zero =
    one_entry "counters" "ticks" (Entries.entry "pin" (Value.whole (pos 0)) Entries.end) Entries.end

pin_zero_accepted : validate_config (Value.mapping counter_on_pin_zero) ≡ ok tt
unfolding validate_config
pin_zero_accepted = refl

pin_zero_raises :
    (configure_all channel no_ints no_floats counter_on_pin_zero (board_of [])).0
    ≡ err Error.runtime_error
unfolding configure_all
pin_zero_raises = refl

configured_pin-commands_example :
    (let b =
        (on_pin "led"
          (Pin.configure_output (board_io channel) (pos 13) (ok (pos 0)))
          (board_of [])).1 in
      (on_pin "led" (Pin.write (board_io channel) true) b
        ≡ (on_session (channel.send CommandId.digital_write (13 ∷ 1 ∷ []) true) >> pure tt) b)
      × (subscribe channel "led" (ok (pos 500)) false b
          ≡ (on_session (
                  channel.send CommandId.subscribe
                    (1 ∷ 13 ∷ (500 % 256) ∷ (500 / 256) ∷ 0 ∷ [])
                    true)
                >> pure tt)
              b))
configured_pin-commands_example =
    configured_pin-commands channel "led" 13 (ok (pos 0)) (board_of []) true 500 false (omega arith)
      (omega arith)
