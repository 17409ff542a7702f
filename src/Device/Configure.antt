-- ===== src/Device/Configure.antt =====
-- client.py: `configure_all`, over the configuration that was loaded. `parse_int` and `parse_float` say
-- what `int` and `float` make of a text.
use Prim.Native.String.{String}
use teensy_io.Base.{Option, true, false, if◌then◌else◌}
use teensy_io.Base.Floats.{Float}
use teensy_io.Base.Int.{ℤ, pos}
use teensy_io.Protocol.Errors.{Error, Result, ok, err}
use teensy_io.Protocol.Exec.{Exec, pure, lift, raise, ◌>>=◌, ◌>>◌}
use teensy_io.Resources.Session.{Board, Channel, board_io}
use teensy_io.Resources.Pin
use teensy_io.Resources.Pwm
use teensy_io.Resources.Analog
use teensy_io.Resources.Counter
use teensy_io.Resources.Counter.{PinRef}
use teensy_io.Resources.Encoder
use teensy_io.Resources.I2cBus
use teensy_io.Config.{Value, Entries, get_value, item, section, is_text, is_true, int_of, float_of}
use teensy_io.Device.{
  on_pin, on_pwm, on_analog, on_counter, on_encoder, on_i2c_bus, on_dac, attach_dac,
}

-- `value` as a key for `{…}[value]`: no text is no key there, and what cannot be hashed is a
-- `TypeError`.
unfoldable pub text_key : Value → Result String
text_key (Value.text s) = ok s
text_key Value.sequence = err Error.type_error
text_key (Value.mapping entries) = err Error.type_error
text_key _ = err Error.key_error

-- `pin_name` as an argument of `attach`: a whole number, or a name to look up. Under `None` and under
-- a float there is no pin that is configured; the entry that `pin` makes for such a key is left out.
unfoldable pub pin_ref : Value → Result PinRef
pin_ref (Value.text s) = ok (PinRef.named s)
pin_ref (Value.whole z) = ok (PinRef.numbered z)
pin_ref (Value.boolean true) = ok (PinRef.numbered (pos 1))
pin_ref (Value.boolean false) = ok (PinRef.numbered (pos 0))
pin_ref Value.sequence = err Error.type_error
pin_ref (Value.mapping entries) = err Error.type_error
pin_ref _ = err Error.runtime_error

-- `spec.get("pin") or spec.get("input")`
unfoldable pub pin_or_input : Entries → Value
unfolding get_value is_true
pin_or_input spec =
    let pin = get_value "pin" Value.null spec in
    if is_true pin then pin else get_value "input" Value.null spec

-- `spec["bus"]` as a name for `i2c_bus`
unfoldable pub bus_key : Value → Result String
bus_key (Value.text s) = ok s
bus_key Value.sequence = err Error.type_error
bus_key (Value.mapping entries) = err Error.type_error
bus_key _ = err Error.runtime_error

module _ {S : Type 0} (io : Channel S) (parse_int : String → Option ℤ)
    (parse_float : String → Option Float) where
  abbrev pub to_int : Value → Result ℤ
  to_int = int_of parse_int

  -- What `configure_input` is called with, for an entry of `pins` or of `inputs`.
  unfoldable pub configure_as_input : String → Entries → Exec (Board S) (Unit {0})
  unfolding get_value item int_of on_pin text_key
  configure_as_input name spec = on_pin name (do
    physical_pin ← lift (item "physical_pin" spec)
    lift (to_int (get_value "debounce_us" (Value.whole (pos 0)) spec))
    number ← lift (to_int physical_pin)
    Pin.configure_input (board_io io) number
        (text_key (get_value "pull" (Value.text "floating") spec)))

  unfoldable pub configure_as_output : String → Entries → Exec (Board S) (Unit {0})
  unfolding get_value item int_of on_pin
  configure_as_output name spec = on_pin name (do
    physical_pin ← lift (item "physical_pin" spec)
    number ← lift (to_int physical_pin)
    Pin.configure_output (board_io io) number
        (to_int (get_value "initial" (Value.boolean false) spec)))

  unfoldable pub configure_as_pwm : String → Entries → Exec (Board S) (Unit {0})
  unfolding get_value item int_of float_of on_pwm
  configure_as_pwm name spec = on_pwm name (do
    physical_pin ← lift (item "physical_pin" spec)
    frequency ← lift (to_int (get_value "frequency" (Value.whole (pos 1000)) spec))
    duty ←
        lift (
          float_of parse_float
            (get_value "initial_duty" (Value.real (Float.finite false 0 0)) spec))
    number ← lift (to_int physical_pin)
    Pwm.configure (board_io io) number frequency duty)

  unfoldable pub configure_as_analog : String → Entries → Exec (Board S) (Unit {0})
  unfolding get_value item int_of on_analog
  configure_as_analog name spec = on_analog name (do
    physical_pin ← lift (item "physical_pin" spec)
    samples ← lift (to_int (get_value "samples" (Value.whole (pos 1)) spec))
    number ← lift (to_int physical_pin)
    Analog.configure (board_io io) number samples)

  -- An entry of `pins`
  unfoldable pub configure_pin : String → Entries → Exec (Board S) (Unit {0})
  unfolding get_value is_text configure_as_output configure_as_input configure_as_pwm
      configure_as_analog
  configure_pin name spec =
      let pin_type = get_value "type" Value.null spec in
      if is_text pin_type "digital_output"
      then configure_as_output name spec
      else (if is_text pin_type "digital_input"
          then configure_as_input name spec
          else (if is_text pin_type "pwm"
              then configure_as_pwm name spec
              else (if is_text pin_type "analog"
                  then configure_as_analog name spec
                  else raise Error.invalid_mode)))

  unfoldable pub configure_counter : String → Entries → Exec (Board S) (Unit {0})
  unfolding get_value pin_or_input pin_ref text_key on_counter
  configure_counter name spec = on_counter name (do
    pin ← lift (pin_ref (pin_or_input spec))
    Counter.attach (board_io io) pin (text_key (get_value "edge" (Value.text "rising") spec)))

  unfoldable pub configure_encoder : String → Entries → Exec (Board S) (Unit {0})
  unfolding get_value item int_of text_key on_encoder
  configure_encoder name spec = on_encoder name (do
    pin_a ← lift (item "pin_a" spec)
    pin_b ← lift (item "pin_b" spec)
    mode ← lift (text_key (get_value "mode" (Value.text "x4") spec))
    Encoder.attach (board_io io) (to_int pin_a) (to_int pin_b) mode)

  unfoldable pub configure_i2c_bus : String → Entries → Exec (Board S) (Unit {0})
  unfolding get_value int_of on_i2c_bus
  configure_i2c_bus name spec = on_i2c_bus name (do
    bus ← lift (to_int (get_value "bus" (Value.whole (pos 0)) spec))
    frequency ← lift (to_int (get_value "frequency" (Value.whole (pos 400000)) spec))
    I2cBus.configure (board_io io) bus frequency)

  unfoldable pub configure_dac : String → Entries → Exec (Board S) (Unit {0})
  unfolding get_value item int_of bus_key on_dac attach_dac
  configure_dac name spec = on_dac name (do
    bus ← lift (item "bus" spec)
    given ← lift (item "address" spec)
    address ← lift (to_int given)
    channels ← lift (to_int (get_value "channels" (Value.whole (pos 1)) spec))
    bits ← lift (to_int (get_value "resolution_bits" (Value.whole (pos 12)) spec))
    bus_name ← lift (bus_key bus)
    attach_dac io bus_name address channels bits)

  -- An entry: `bad` is what happens with one that is no mapping.
  unfoldable pub with_spec :
      (String → Exec (Board S) (Unit {0}))
      → (String → Entries → Exec (Board S) (Unit {0}))
      → String
      → Value
      → Exec (Board S) (Unit {0})
  with_spec bad configure name (Value.mapping spec) = configure name spec
  with_spec bad configure name _ = bad name

  -- `for name, spec in ….items(): …`
  unfoldable pub configure_each :
      (String → Exec (Board S) (Unit {0}))
      → (String → Entries → Exec (Board S) (Unit {0}))
      → Entries
      → Exec (Board S) (Unit {0})
  unfolding with_spec
  configure_each bad configure Entries.end = pure tt
  configure_each bad configure (Entries.entry name spec rest) =
      with_spec bad configure name spec >> configure_each bad configure rest

  unfoldable pub configure_section :
      String
      → (String → Exec (Board S) (Unit {0}))
      → (String → Entries → Exec (Board S) (Unit {0}))
      → Entries
      → Exec (Board S) (Unit {0})
  unfolding section configure_each
  configure_section name bad configure config = do
    entries ← lift (section name config)
    configure_each bad configure entries

  unfoldable pub configure_all : Entries → Exec (Board S) (Unit {0})
  unfolding configure_section configure_pin configure_as_input configure_counter configure_encoder
      configure_i2c_bus configure_dac on_pin on_encoder on_i2c_bus on_dac
  configure_all config = do
    configure_section "pins" (λ name. no_get) configure_pin config
    configure_section "inputs" (λ name. on_pin name no_item) configure_as_input config
    configure_section "counters" (λ name. no_get) configure_counter config
    configure_section "encoders" (λ name. on_encoder name no_item) configure_encoder config
    configure_section "i2c_buses" (λ name. on_i2c_bus name no_get) configure_i2c_bus config
    configure_section "dacs" (λ name. on_dac name no_item) configure_dac config
    where
      -- `spec.get(…)` and `spec["…"]` of what is no mapping
      no_get : {B : Type 0} → Exec B (Unit {0})
      no_get = raise Error.attribute_error

      no_item : {B : Type 0} → Exec B (Unit {0})
      no_item = raise Error.type_error
