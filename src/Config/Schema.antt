-- ===== src/Config/Schema.antt =====
-- config/schema.py: `validate_config`, over the values of a configuration.
use Prim.Native.String.{String}
use teensy_io.Base.{ℕ, Bool, true, false, not, ◌||◌, none, some, List, [], ◌∷◌, if◌then◌else◌}
use teensy_io.Base.Floats.{Float, below_zero, above_one}
use teensy_io.Base.Int.{pos}
use teensy_io.Protocol.Errors.{Error, Result, ok, err, ◌>>=◌, ◌>>◌}
use teensy_io.Resources.{outside}
use teensy_io.Resources.Pin.{flag}
use teensy_io.Config.{
  Value, Entries, find_value, get_value, section, is_int, is_number, is_text, member_of,
}

abbrev pub pin_types : List String
pin_types = "digital_input" ∷ "digital_output" ∷ "pwm" ∷ "analog" ∷ []

abbrev pub edges : List String
edges = "rising" ∷ "falling" ∷ "both" ∷ []

abbrev pub pulls : List String
pulls = "floating" ∷ "none" ∷ "up" ∷ "pullup" ∷ "down" ∷ "pulldown" ∷ []

abbrev pub encoder_mode_names : List String
encoder_mode_names = "x1" ∷ "x2" ∷ "x4" ∷ []

-- `if not test: raise ValueError(…)`
abbrev pub require : Bool → Result (Unit {0})
require test = if test then ok tt else err Error.value_error

-- `value not in names` raises
unfoldable pub require_member : Value → List String → Result (Unit {0})
unfolding member_of
require_member value names = member_of value names >>= require

-- `_require_int`
unfoldable pub require_int : Entries → String → Result (Unit {0})
unfolding get_value is_int
require_int spec key = require (is_int (get_value key Value.null spec))

-- `_require_number`
unfoldable pub require_number : Entries → String → Bool → Result (Unit {0})
unfolding get_value is_number find_value
require_number spec key required = elim (find_value key spec) [
  | none ↦ if required then require (is_number (get_value key Value.null spec)) else ok tt
  | some _ ↦ require (is_number (get_value key Value.null spec))
]

-- `isinstance(value, int)`, and the value is within bounds
unfoldable pub is_int_within : ℕ → ℕ → Value → Bool
is_int_within low high (Value.whole z) = not (outside low high z)
is_int_within low high (Value.boolean b) = not (outside low high (flag b))
is_int_within low high _ = false

-- `isinstance(duty, (int, float))`, and the duty is neither below 0.0 nor above 1.0
unfoldable pub is_duty : Value → Bool
unfolding below_zero above_one
is_duty (Value.real x) = not (below_zero x || above_one x)
is_duty (Value.whole z) = not (outside 0 1 z)
is_duty (Value.boolean b) = true
is_duty _ = false

-- `_require_mapping`, and the checks of one entry on what it gives.
unfoldable pub with_mapping : (Entries → Result (Unit {0})) → Value → Result (Unit {0})
with_mapping check (Value.mapping spec) = check spec
with_mapping check _ = err Error.value_error

abbrev pub when : Bool → Result (Unit {0}) → Result (Unit {0})
when test check = if test then check else ok tt

unfoldable pub check_pin : Entries → Result (Unit {0})
unfolding get_value is_text is_duty is_int_within require_int require_number require_member
    with_mapping
check_pin spec =
    let pin_type = get_value "type" Value.null spec in
    do
      require_member pin_type pin_types
      require_int spec "physical_pin"
      when (is_text pin_type "digital_input")
          (require_member (get_value "pull" (Value.text "floating") spec) pulls)
      when (is_text pin_type "pwm") (do
        require_number spec "frequency" false
        require (is_duty (get_value "initial_duty" (Value.real (Float.finite false 0 0)) spec)))
      when (is_text pin_type "analog")
          (require (is_int_within 1 255 (get_value "samples" (Value.whole (pos 1)) spec)))

unfoldable pub check_input : Entries → Result (Unit {0})
unfolding get_value require_int require_member
check_input spec = do
  require_int spec "physical_pin"
  require_member (get_value "pull" (Value.text "floating") spec) pulls

-- `"pin" not in spec and "input" not in spec`
unfoldable pub names_pin : Entries → Bool
unfolding find_value
names_pin spec = elim (find_value "pin" spec) [
  | some _ ↦ true
  | none ↦ elim (find_value "input" spec) [ some _ ↦ true | none ↦ false ]
]

unfoldable pub check_counter : Entries → Result (Unit {0})
unfolding get_value require_member names_pin
check_counter spec = do
  require (names_pin spec)
  require_member (get_value "edge" (Value.text "rising") spec) edges

unfoldable pub check_encoder : Entries → Result (Unit {0})
unfolding get_value require_int require_member
check_encoder spec = do
  require_int spec "pin_a"
  require_int spec "pin_b"
  require_member (get_value "mode" (Value.text "x4") spec) encoder_mode_names

unfoldable pub check_i2c_bus : Entries → Result (Unit {0})
unfolding require_int require_number
check_i2c_bus spec = do require_int spec "bus"; require_number spec "frequency" false

-- `isinstance(value, str)`
unfoldable pub is_str : Value → Bool
is_str (Value.text s) = true
is_str _ = false

unfoldable pub check_dac : Entries → Result (Unit {0})
unfolding get_value is_str is_int_within require_int
check_dac spec = do
  require (is_str (get_value "bus" Value.null spec))
  require_int spec "address"
  require (is_int_within 1 255 (get_value "channels" (Value.whole (pos 1)) spec))
  require (is_int_within 1 16 (get_value "resolution_bits" (Value.whole (pos 12)) spec))

-- `for name, spec in ….items(): …`
unfoldable pub check_each : (Entries → Result (Unit {0})) → Entries → Result (Unit {0})
unfolding with_mapping
check_each check Entries.end = ok tt
check_each check (Entries.entry name spec rest) =
    with_mapping check spec >>= λ _. check_each check rest

unfoldable pub check_section : String → (Entries → Result (Unit {0})) → Entries → Result (Unit {0})
unfolding section check_each
check_section name check config = section name config >>= check_each check

unfoldable pub validate_config : Value → Result (Unit {0})
unfolding check_section check_pin check_input check_counter check_encoder check_i2c_bus check_dac
validate_config (Value.mapping config) = do
  check_section "pins" check_pin config
  check_section "inputs" check_input config
  check_section "counters" check_counter config
  check_section "encoders" check_encoder config
  check_section "i2c_buses" check_i2c_bus config
  check_section "dacs" check_dac config
validate_config _ = err Error.value_error
