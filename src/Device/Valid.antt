-- ===== src/Device/Valid.antt =====
-- `configure_all` of a configuration that `validate_config` accepts.
mod Named
mod Pins
mod Others
use Prim.Native.String.{String}
use teensy_io.Base.{
  ℕ, Bool, true, false, List, map, Option, Bool-cases, inl, inr, ◌≡◌, ◌≢◌, refl, sym, ◌∙◌, ap,
  arith,
}
use mathlib.Core.Path.{subst}
use teensy_io.Base.Int.{ℤ}
use teensy_io.Base.Floats.{Float}
use teensy_io.Protocol.Commands.{CommandId}
use teensy_io.Protocol.Errors
use teensy_io.Protocol.Errors.{both_ok, Error, Result, ok, err, stuck}
use teensy_io.Protocol.Exec.Never.{
  Never, pure-Never, gets-Never, lift-Never, on-Never, Never-bind, Never-known,
}
use teensy_io.Protocol.Exec.{Exec, lift, ◌>>=◌}
use teensy_io.Resources.{Held, lookup}
use teensy_io.Resources.Pin
use teensy_io.Resources.Pin.{pull_codes}
use teensy_io.Resources.Counter
use teensy_io.Resources.Counter.{edge_codes, PinRef}
use teensy_io.Resources.Encoder
use teensy_io.Resources.Encoder.{encoder_modes}
use teensy_io.Resources.Session.{Board, Channel, board_io}
use teensy_io.Config.{Value, Entries, get_value, section, is_text, among, int_of}
use teensy_io.Config.Schema.{
  require, require_member, require_int, is_str, check_pin, check_input, check_counter,
  check_encoder, check_i2c_bus, check_dac, check_each, check_section, validate_config, pulls, edges,
  pin_types, encoder_mode_names, names_pin, when,
}
use teensy_io.Device.{
  named, on_pin, on_pwm, on_analog, on_counter, on_encoder, on_i2c_bus, on_dac, attach_dac,
}
use teensy_io.Device.Configure.{
  text_key, configure_as_input, configure_as_output, configure_as_pwm, configure_as_analog,
  configure_pin, configure_counter, configure_encoder, configure_i2c_bus, configure_dac,
  configure_each, configure_section, configure_all,
}
use teensy_io.Device.Never.{is_config_error}
use teensy_io.Device.Methods.{
  configure_output-Never, configure_input-Never, configure_pwm-Never, configure_analog-Never,
  attach_counter-Never, attach_encoder-Never, configure_i2c_bus-Never, attach_dac-Never,
}
use teensy_io.Device.Checked.{
  require-true, require_member-text, item-Never, require_int-item, lookup-Never, int_of-Never,
  float_of-Never, pin_ref-Never, bus_key-Never,
}
use teensy_io.Device.Valid.Pins.{pin-Never, input-Never}
use teensy_io.Device.Valid.Others.{counter-Never, encoder-Never, i2c_bus-Never, dac-Never}

module _ {S : Type 0} (io : Channel S) (parse_int : String → Option ℤ)
    (parse_float : String → Option Float) (x : Error) (config : is_config_error x ≡ true)
    (sends : (code : CommandId) (payload : List ℕ) (expect : Bool)
      → Never x (io.send code payload expect)) where
  section-Never :
      (section_name : String) (configure : String → Entries → Exec (Board S) (Unit {0}))
      (check : Entries → Result (Unit {0})) (entries : Entries)
      → ((name : String) (spec : Entries) → check spec ≡ ok tt → Never x (configure name spec))
      → check_section section_name check entries ≡ ok tt
      → (bad : String → Exec (Board S) (Unit {0}))
      → Never x (configure_section io parse_int parse_float section_name bad configure entries)
  unfolding configure_section check_section
  section-Never section_name configure check entries each h bad =
      checked (section section_name entries) h
    where
      each_entry :
          (found : Entries)
          → check_each check found ≡ ok tt
          → Never x (configure_each io parse_int parse_float bad configure found)
      each_entry Entries.end k = pure-Never x tt
      each_entry (Entries.entry name (Value.mapping spec) rest) k =
          let (first, others) = both_ok (check spec) (check_each check rest) k in
          Never-bind x (configure name spec)
            (λ _. configure_each io parse_int parse_float bad configure rest) (each name spec first)
            (λ _. each_entry rest others)
      each_entry (Entries.entry name _ rest) k = absurd (cc)

      checked :
          (r : Result Entries)
          → Errors.◌>>=◌ r (check_each check) ≡ ok tt
          → Never x (lift r >>= configure_each io parse_int parse_float bad configure)
      checked (ok found) k = each_entry found k
      checked (err e) k = absurd (cc)
      checked stuck k = absurd (cc)

-- A configuration that `validate_config` accepts is configured without an exception that blames it:
-- whatever the texts in it mean as numbers, `configure_all` raises a `KeyError`, an `AttributeError` or
-- `InvalidModeError` only where a command does.
pub configure_all-valid :
    {S : Type 0} (io : Channel S) (parse_int : String → Option ℤ)
    (parse_float : String → Option Float) (x : Error) (config : Entries) (b : Board S)
    → is_config_error x ≡ true
    → ((code : CommandId) (payload : List ℕ) (expect : Bool) (s : S)
        → (io.send code payload expect s).0 ≢ err x)
    → validate_config (Value.mapping config) ≡ ok tt
    → (configure_all io parse_int parse_float config b).0 ≢ err x
unfolding configure_all validate_config
configure_all-valid io parse_int parse_float x config b blames sends h =
    let fact = section-Never io parse_int parse_float x blames sends in
    let pin = pin-Never io parse_int parse_float x blames sends in
    let input = input-Never io parse_int parse_float x blames sends in
    let bus = i2c_bus-Never io parse_int parse_float x blames sends in
    let counter = counter-Never io parse_int parse_float x blames sends in
    let encoder = encoder-Never io parse_int parse_float x blames sends in
    let dac = dac-Never io parse_int parse_float x blames sends in
    let (pins, h1) = both_ok (check_section "pins" check_pin config) _ h in
    let (inputs, h2) = both_ok (check_section "inputs" check_input config) _ h1 in
    let (counters, h3) = both_ok (check_section "counters" check_counter config) _ h2 in
    let (encoders, h4) = both_ok (check_section "encoders" check_encoder config) _ h3 in
    let (buses, dacs) = both_ok (check_section "i2c_buses" check_i2c_bus config) _ h4 in
    search
      (
        Never-bind x,
        fact "pins" (configure_pin io parse_int parse_float) check_pin config pin pins,
        fact "inputs" (configure_as_input io parse_int parse_float) check_input config input inputs,
        fact "counters" (configure_counter io parse_int parse_float) check_counter config counter
            counters,
        fact "encoders" (configure_encoder io parse_int parse_float) check_encoder config encoder
            encoders,
        fact "i2c_buses" (configure_i2c_bus io parse_int parse_float) check_i2c_bus config bus
            buses,
        fact "dacs" (configure_dac io parse_int parse_float) check_dac config dac dacs,
      )
      depth 12 fits 4000
