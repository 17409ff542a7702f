-- ===== src/Device/Valid/Pins.antt =====
-- Configuring the pins and the inputs of a configuration that was checked.
use Prim.Native.String.{String}
use teensy_io.Base.{ℕ, Bool, true, false, List, Option, Bool-cases, inl, inr, ◌≡◌, sym, arith}
use mathlib.Core.Path.{subst}
use teensy_io.Base.Int.{ℤ}
use teensy_io.Base.Floats.{Float}
use teensy_io.Protocol.Commands.{CommandId}
use teensy_io.Protocol.Errors.{both_ok, Error, Result, ok}
use teensy_io.Protocol.Exec.Never.{Never, lift-Never, Never-bind}
use teensy_io.Resources.Pin
use teensy_io.Resources.Pin.{pull_codes}
use teensy_io.Resources.Session.{Channel, board_io}
use teensy_io.Config.{Value, Entries, get_value, is_text, among}
use teensy_io.Config.Schema.{
  require_member, require_int, check_pin, check_input, pulls, pin_types, when,
}
use teensy_io.Device.{on_pin, on_pwm, on_analog}
use teensy_io.Device.Configure.{
  text_key, configure_as_input, configure_as_output, configure_as_pwm, configure_as_analog,
  configure_pin,
}
use teensy_io.Device.Never.{is_config_error}
use teensy_io.Device.Methods.{
  configure_output-Never, configure_input-Never, configure_pwm-Never, configure_analog-Never,
}
use teensy_io.Device.Checked.{require_member-text, require_int-item, int_of-Never, float_of-Never}
use teensy_io.Device.Valid.Named.{named-Never, command-Never, known_key}

module _ {S : Type 0} (io : Channel S) (parse_int : String → Option ℤ)
    (parse_float : String → Option Float) (x : Error) (config : is_config_error x ≡ true)
    (sends : (code : CommandId) (payload : List ℕ) (expect : Bool)
      → Never x (io.send code payload expect)) where
  as_input-Never :
      (name : String) (spec : Entries)
      → require_int spec "physical_pin" ≡ ok tt
      → require_member (get_value "pull" (Value.text "floating") spec) pulls ≡ ok tt
      → Never x (configure_as_input io parse_int parse_float name spec)
  unfolding configure_as_input on_pin
  as_input-Never name spec h k =
      search
        (
          named-Never x,
          Never-bind x,
          lift-Never x,
          require_int-item x config spec "physical_pin" h,
          int_of-Never x config,
          with_pull,
        )
        depth 12 fits 4000
    where
      pull : Value
      pull = get_value "pull" (Value.text "floating") spec

      with_pull : (n : ℤ) → Never x (Pin.configure_input (board_io io) n (text_key pull))
      with_pull n =
          let (s, is_s, known) = known_key x config pull pull_codes k in
          subst (λ r. Never x (Pin.configure_input (board_io io) n r)) (sym is_s)
            (configure_input-Never x config (board_io io) (command-Never io x sends) n s known)

  pub input-Never :
      (name : String) (spec : Entries)
      → check_input spec ≡ ok tt
      → Never x (configure_as_input io parse_int parse_float name spec)
  unfolding check_input
  input-Never name spec h =
      let (physical, pulled) = both_ok (require_int spec "physical_pin") _ h in
      as_input-Never name spec physical pulled

  as_output-Never :
      (name : String) (spec : Entries)
      → require_int spec "physical_pin" ≡ ok tt
      → Never x (configure_as_output io parse_int parse_float name spec)
  unfolding configure_as_output on_pin
  as_output-Never name spec h =
      search
        (
          named-Never x,
          Never-bind x,
          lift-Never x,
          require_int-item x config spec "physical_pin" h,
          int_of-Never x config,
          configure_output-Never x config (board_io io) (command-Never io x sends),
        )
        depth 12 fits 4000

  as_pwm-Never :
      (name : String) (spec : Entries)
      → require_int spec "physical_pin" ≡ ok tt
      → Never x (configure_as_pwm io parse_int parse_float name spec)
  unfolding configure_as_pwm on_pwm
  as_pwm-Never name spec h =
      search
        (
          named-Never x,
          Never-bind x,
          lift-Never x,
          require_int-item x config spec "physical_pin" h,
          int_of-Never x config,
          float_of-Never x config,
          configure_pwm-Never x config (board_io io) (command-Never io x sends),
        )
        depth 12 fits 4000

  as_analog-Never :
      (name : String) (spec : Entries)
      → require_int spec "physical_pin" ≡ ok tt
      → Never x (configure_as_analog io parse_int parse_float name spec)
  unfolding configure_as_analog on_analog
  as_analog-Never name spec h =
      search
        (
          named-Never x,
          Never-bind x,
          lift-Never x,
          require_int-item x config spec "physical_pin" h,
          int_of-Never x config,
          configure_analog-Never x config (board_io io) (command-Never io x sends),
        )
        depth 12 fits 4000

  -- One of the four types was found.
  known_type :
      (value : Value)
      → require_member value pin_types ≡ ok tt
      → is_text value "digital_output" ≡ false
      → is_text value "digital_input" ≡ false
      → is_text value "pwm" ≡ false
      → is_text value "analog" ≡ true
  known_type value h output input pwm =
      let (s, is_s, known) = require_member-text value pin_types h in
      unfold is_text among in ground arith

  when_ok : (test : Bool) (r : Result (Unit {0})) → test ≡ true → when test r ≡ ok tt → r ≡ ok tt
  when_ok true r e h = h
  when_ok false r e h = absurd (cc)

  pub pin-Never :
      (name : String) (spec : Entries)
      → check_pin spec ≡ ok tt
      → Never x (configure_pin io parse_int parse_float name spec)
  unfolding configure_pin check_pin
  pin-Never name spec h =
      let pin_type : Value = get_value "type" Value.null spec in
      let pull : Value = get_value "pull" (Value.text "floating") spec in
      let (type_known, h1) = both_ok (require_member pin_type pin_types) _ h in
      let (physical, h2) = both_ok (require_int spec "physical_pin") _ h1 in
      let (pulled, _) =
        both_ok (when (is_text pin_type "digital_input") (require_member pull pulls)) _ h2 in
      elim (Bool-cases (is_text pin_type "digital_output")) [
        | inl output ↦ rw output (as_output-Never name spec physical)
        | inr no_output ↦ elim (Bool-cases (is_text pin_type "digital_input")) [
          | inl input ↦
              rw (no_output, input)
                (as_input-Never name spec physical (
                  when_ok (is_text pin_type "digital_input") (require_member pull pulls) input
                    pulled))
          | inr no_input ↦ elim (Bool-cases (is_text pin_type "pwm")) [
            | inl pwm ↦ rw (no_output, no_input, pwm) (as_pwm-Never name spec physical)
            | inr no_pwm ↦
                rw
                  (
                    no_output,
                    no_input,
                    no_pwm,
                    known_type pin_type type_known no_output no_input no_pwm,
                  )
                  (as_analog-Never name spec physical)
          ]
        ]
      ]
