-- ===== src/Device/Methods.antt =====
-- What the methods that configure the resources do not raise: only a command raises an exception of a
-- configuration there, if the keys they look up are found.
use Prim.Native.String.{String}
use teensy_io.Base.{
  ℕ, ◌||◌, sym, ◌∙◌, List, refl, Bool, Option, ◌≡◌, ◌≢◌, true, arith, Bool-cases, inl, inr,
}
use teensy_io.Base.Floats.{Float, below_zero, above_one}
use teensy_io.Base.Int.{ℤ}
use teensy_io.Protocol.Commands.{CommandId}
use teensy_io.Protocol.Errors.{Error, Result, ok, err}
use teensy_io.Protocol.Exec.Never.{
  Never, pure-Never, modify-Never, gets-Never, lift-Never, on-Never, Never-bind,
}
use teensy_io.Resources.{Io, lookup, outside, u7_address}
use teensy_io.Resources.Pin
use teensy_io.Resources.Pin.{pull_codes}
use teensy_io.Resources.Pwm
use teensy_io.Resources.Pwm.{u8_duty, scaled_unit}
use teensy_io.Resources.Analog
use teensy_io.Resources.Counter
use teensy_io.Resources.Counter.{PinRef, edge_codes, resolve_pin}
use teensy_io.Resources.Encoder
use teensy_io.Resources.Encoder.{encoder_modes}
use teensy_io.Resources.I2cBus
use teensy_io.Resources.Dac
use teensy_io.Device.Never.{
  is_config_error, never_other, raise_if-Never, bytes_of-Never, pack_u32-Never, required-Never,
}

module _ (x : Error) (config : is_config_error x ≡ true) where
  scaled_unit-Never : (factor : ℕ) (value : Float) → scaled_unit factor value ≢ err x
  unfolding scaled_unit
  scaled_unit-Never factor Float.nan same = never_other x config Error.value_error refl same
  scaled_unit-Never factor (Float.infinite b) same =
      never_other x config Error.value_error refl same
  scaled_unit-Never factor (Float.finite b m k) same =
      elim (Bool-cases (below_zero (Float.finite b m k) || above_one (Float.finite b m k))) [
        | inl outside ↦
            never_other x config {A = ℕ} Error.value_error refl (sym (rw outside refl) ∙ same)
        | inr inside ↦ ground arith
      ]

  never_ok : {A : Type 0} (a : A) → ok a ≢ err x
  never_ok a e = cc

  u8_duty-Never : (value : Float) → u8_duty value ≢ err x
  unfolding u8_duty
  u8_duty-Never = scaled_unit-Never 255

  u7_address-Never : (address : ℤ) → u7_address address ≢ err x
  unfolding u7_address
  u7_address-Never address same = elim (Bool-cases (outside 0 0x7F address)) [
    | inl bad ↦ ground (arith, never_other x config {A = ℤ} Error.value_error refl)
    | inr good ↦ ground arith
  ]

  module _ {S : Type 0} (io : Io S)
      (sends : (code : CommandId) (payload : List ℕ) (expect : Bool)
        → Never x (io.command code payload expect)) where
    pub configure_output-Never :
        (n : ℤ) (initial : Result ℤ) → initial ≢ err x → Never x (Pin.configure_output io n initial)
    unfolding Pin.configure_output
    configure_output-Never n initial h =
        search
          (
            sends,
            Never-bind x,
            modify-Never x,
            lift-Never x,
            bytes_of-Never x config,
            on-Never x,
            pure-Never x,
          )
          depth 12 fits 4000

    pub configure_input-Never :
        (n : ℤ) (pull : String)
        → lookup pull pull_codes ≢ err x
        → Never x (Pin.configure_input io n (ok pull))
    unfolding Pin.configure_input
    configure_input-Never n pull h s same = grind (arith, sends, bytes_of-Never x config)

    pub configure_pwm-Never :
        (n frequency : ℤ) (duty : Float) → Never x (Pwm.configure io n frequency duty)
    unfolding Pwm.configure
    configure_pwm-Never n frequency duty =
        search
          (
            sends,
            Never-bind x,
            modify-Never x,
            lift-Never x,
            bytes_of-Never x config,
            on-Never x,
            pure-Never x,
            pack_u32-Never x config,
            u8_duty-Never,
          )
          depth 12 fits 4000

    pub configure_analog-Never : (n samples : ℤ) → Never x (Analog.configure io n samples)
    unfolding Analog.configure
    configure_analog-Never n samples =
        search
          (
            sends,
            Never-bind x,
            modify-Never x,
            lift-Never x,
            bytes_of-Never x config,
            on-Never x,
            pure-Never x,
            raise_if-Never x config,
          )
          depth 12 fits 4000

    pub attach_counter-Never :
        (ids : (name : String) → Never x (io.counter_id name))
        → (pins : (name : String) → Never x (io.pin_number name)) → (pin : PinRef) (edge : String)
        → lookup edge edge_codes ≢ err x
        → Never x (Counter.attach io pin (ok edge))
    unfolding Counter.attach resolve_pin
    attach_counter-Never ids pins (PinRef.numbered pin) edge h s same =
        grind (arith, sends, ids, bytes_of-Never x config)
    attach_counter-Never ids pins (PinRef.named pin) edge h s same =
        grind (arith, sends, ids, pins, required-Never x config, bytes_of-Never x config)

    pub attach_encoder-Never :
        (ids : (name : String) → Never x (io.encoder_id name))
        → (a b : Result ℤ) (mode : String) → a ≢ err x
        → b ≢ err x
        → lookup mode encoder_modes ≢ err x
        → Never x (Encoder.attach io a b mode)
    unfolding Encoder.attach
    attach_encoder-Never ids a b mode h k e =
        search
          (
            sends,
            Never-bind x,
            modify-Never x,
            gets-Never x,
            lift-Never x,
            bytes_of-Never x config,
            on-Never x,
            pure-Never x,
            ids,
          )
          depth 12 fits 4000

    pub configure_i2c_bus-Never : (bus frequency : ℤ) → Never x (I2cBus.configure io bus frequency)
    unfolding I2cBus.configure
    configure_i2c_bus-Never bus frequency =
        search
          (
            sends,
            Never-bind x,
            modify-Never x,
            lift-Never x,
            bytes_of-Never x config,
            on-Never x,
            pure-Never x,
            raise_if-Never x config,
            pack_u32-Never x config,
          )
          depth 12 fits 4000

    pub attach_dac-Never :
        (ids : (name : String) → Never x (io.dac_id name))
        → (number : Option ℤ) (bus : String) (address channels bits : ℤ)
        → Never x (Dac.attach_i2c io number bus address channels bits)
    unfolding Dac.attach_i2c
    attach_dac-Never ids number bus address channels bits =
        search
          (
            sends,
            Never-bind x,
            modify-Never x,
            lift-Never x,
            bytes_of-Never x config,
            gets-Never x,
            ids,
            on-Never x,
            pure-Never x,
            raise_if-Never x config,
            u7_address-Never,
            required-Never x config,
          )
          depth 12 fits 4000
