-- ===== src/Device.antt =====
-- The front end of client.py: `TeensyIO` with its dictionaries of named resources. A resource keeps a
-- reference to the client; a method of a resource runs on the entry of its dictionary.
pub mod Control
pub mod Refs
pub mod Configure
pub mod Create
pub mod Never
pub mod Methods
pub mod Checked
pub mod Valid
pub mod Accepted
pub mod Registry
use Prim.Native.String.{String}
use teensy_io.Base.{ℕ, Option, none, some, List, [], ◌∷◌, if◌then◌else◌}
use teensy_io.Base.Int.{ℤ, pos}
use teensy_io.Protocol.Errors.{Result, ok, err, stuck}
use teensy_io.Protocol.Exec.{Exec, pure, lift, gets, ◌>>=◌, ◌>>◌}
use teensy_io.Resources.{Io, Held, on_io, text_eq}
use teensy_io.Resources.Pin.{Pin}
use teensy_io.Resources.Pwm.{PwmOutput}
use teensy_io.Resources.Analog.{AnalogInput}
use teensy_io.Resources.Counter.{PulseCounter}
use teensy_io.Resources.Encoder.{QuadratureEncoder}
use teensy_io.Resources.I2cBus.{I2cBus}
use teensy_io.Resources.Dac.{DacOutput, attach_i2c}
use teensy_io.Resources.Session.{Board, Channel, board_io, setdefault, new_pin}

-- `name in items`, and `items[name]`
unfoldable pub find_item : {P : Type 0} → String → List (String × P) → Option P
find_item name [] = none
find_item name ((n, item) ∷ rest) = if text_eq name n then some item else find_item name rest

-- The dictionary after a method has changed the object under a name.
unfoldable pub put_item : {P : Type 0} → String → P → List (String × P) → List (String × P)
put_item name item [] = []
put_item name item ((n, old) ∷ rest) =
    let rest' = put_item name item rest in
    if text_eq name n then (n, item) ∷ rest else (n, old) ∷ rest'

module _ {S : Type 0} where
  -- A method of `items.setdefault(name, new)`: the entry is there before the method starts, and also
  -- if it raises.
  unfoldable pub named :
      {P A : Type 0}
      → (Board S → List (String × P))
      → (Board S → List (String × P) → Board S)
      → P
      → String
      → Exec (Held P (Board S)) A
      → Exec (Board S) A
  unfolding setdefault put_item
  named {P} {A} items put new name method b =
      let (item, entries) = setdefault name new (items b) in
      after (method (record { self = item; io = put b entries }))
    where
      after : Result A × Held P (Board S) → Result A × Board S
      after (r, h) = (r, put h.io (put_item name h.self (items h.io)))

  -- `self.pin(name).method(…)`, and so on for the other kinds.
  unfoldable pub on_pin : {A : Type 0} → String → Exec (Held Pin (Board S)) A → Exec (Board S) A
  unfolding named
  on_pin name method = named (λ b. b.pins) (λ b x. record b { pins = x }) new_pin name method

  unfoldable pub on_pwm :
      {A : Type 0} → String → Exec (Held PwmOutput (Board S)) A → Exec (Board S) A
  unfolding named
  on_pwm name method =
      named (λ b. b.pwms) (λ b x. record b { pwms = x }) (record { physical_pin = none }) name
        method

  unfoldable pub on_analog :
      {A : Type 0} → String → Exec (Held AnalogInput (Board S)) A → Exec (Board S) A
  unfolding named
  on_analog name method =
      named (λ b. b.analogs) (λ b x. record b { analogs = x })
        (record { physical_pin = none; samples = pos 1 }) name method

  unfoldable pub on_counter :
      {A : Type 0} → String → Exec (Held PulseCounter (Board S)) A → Exec (Board S) A
  unfolding named
  on_counter name method =
      named (λ b. b.counters) (λ b x. record b { counters = x })
        (record { name = name; id = none; last_count = pos 0; samples = [] }) name method

  unfoldable pub on_encoder :
      {A : Type 0} → String → Exec (Held QuadratureEncoder (Board S)) A → Exec (Board S) A
  unfolding named
  on_encoder name method =
      named (λ b. b.encoders) (λ b x. record b { encoders = x })
        (record { name = name; id = none; last_position = pos 0 }) name method

  unfoldable pub on_i2c_bus :
      {A : Type 0} → String → Exec (Held I2cBus (Board S)) A → Exec (Board S) A
  unfolding named
  on_i2c_bus name method =
      named (λ b. b.i2c_buses) (λ b x. record b { i2c_buses = x })
        (record { bus = none; frequency = pos 400000 }) name method

  unfoldable pub on_dac :
      {A : Type 0} → String → Exec (Held DacOutput (Board S)) A → Exec (Board S) A
  unfolding named
  on_dac name method =
      named (λ b. b.dacs) (λ b x. record b { dacs = x })
        (record {
          name = name;
          id = none;
          bus_name = none;
          address = none;
          channels = 1;
          resolution_bits = 12;
        })
        name method

  -- `DacOutput.attach_i2c`, from its first line on: the bus is looked up in the client.
  unfoldable pub attach_dac :
      Channel S → String → ℤ → ℤ → ℤ → Exec (Held DacOutput (Board S)) (Unit {0})
  unfolding on_i2c_bus
  attach_dac io bus address channels resolution_bits = do
    number ← on_io (on_i2c_bus bus (gets (λ h. h.self.bus)))
    attach_i2c (board_io io) number bus address channels resolution_bits
