-- ===== src/Device/Valid/Others.antt =====
-- Configuring the counters, encoders, buses and DACs of a configuration that was checked.
use Prim.Native.String.{String}
use teensy_io.Base.{ℕ, Bool, true, List, Option, ◌≡◌, refl, sym}
use mathlib.Core.Path.{subst}
use teensy_io.Base.Int.{ℤ}
use teensy_io.Base.Floats.{Float}
use teensy_io.Protocol.Commands.{CommandId}
use teensy_io.Protocol.Errors.{both_ok, Error, ok}
use teensy_io.Protocol.Exec.Never.{Never, gets-Never, lift-Never, on-Never, Never-bind, Never-known}
use teensy_io.Protocol.Exec.{lift, ◌>>=◌}
use teensy_io.Resources.Counter
use teensy_io.Resources.Counter.{edge_codes, PinRef}
use teensy_io.Resources.Encoder
use teensy_io.Resources.Encoder.{encoder_modes}
use teensy_io.Resources.Session.{Channel, board_io}
use teensy_io.Config.{Value, Entries, get_value, int_of}
use teensy_io.Config.Schema.{
  require, require_member, require_int, is_str, check_counter, check_encoder, check_i2c_bus,
  check_dac, edges, encoder_mode_names, names_pin,
}
use teensy_io.Device.{on_counter, on_encoder, on_i2c_bus, on_dac, attach_dac}
use teensy_io.Device.Configure.{
  text_key, configure_counter, configure_encoder, configure_i2c_bus, configure_dac,
}
use teensy_io.Device.Never.{is_config_error}
use teensy_io.Device.Methods.{
  attach_counter-Never, attach_encoder-Never, configure_i2c_bus-Never, attach_dac-Never,
}
use teensy_io.Device.Checked.{
  require-true, item-Never, require_int-item, int_of-Never, pin_ref-Never, bus_key-Never,
}
use teensy_io.Device.Valid.Named.{
  named-Never, command-Never, known_key, counter_id-Never, encoder_id-Never, dac_id-Never,
  pin_number-Never,
}

module _ {S : Type 0} (io : Channel S) (parse_int : String → Option ℤ)
    (parse_float : String → Option Float) (x : Error) (config : is_config_error x ≡ true)
    (sends : (code : CommandId) (payload : List ℕ) (expect : Bool)
      → Never x (io.send code payload expect)) where
  pub counter-Never :
      (name : String) (spec : Entries)
      → check_counter spec ≡ ok tt
      → Never x (configure_counter io parse_int parse_float name spec)
  unfolding configure_counter check_counter on_counter
  counter-Never name spec h =
      search (named-Never x, Never-bind x, lift-Never x, pin_ref-Never x config, with_edge) depth 12
        fits 4000
    where
      edge : Value
      edge = get_value "edge" (Value.text "rising") spec

      with_edge : (pin : PinRef) → Never x (Counter.attach (board_io io) pin (text_key edge))
      with_edge pin =
          let (_, k) = both_ok (require (names_pin spec)) (require_member edge edges) h in
          let (s, is_s, known) = known_key x config edge edge_codes k in
          subst (λ r. Never x (Counter.attach (board_io io) pin r)) (sym is_s)
            (attach_counter-Never x config (board_io io) (command-Never io x sends)
              (counter_id-Never io x config) (pin_number-Never io x config) pin s known)

  pub encoder-Never :
      (name : String) (spec : Entries)
      → check_encoder spec ≡ ok tt
      → Never x (configure_encoder io parse_int parse_float name spec)
  unfolding configure_encoder check_encoder on_encoder
  encoder-Never name spec h =
      let (a, h1) = both_ok (require_int spec "pin_a") _ h in
      let (b, k) = both_ok (require_int spec "pin_b") _ h1 in
      search
        (
          named-Never x,
          Never-bind x,
          lift-Never x,
          require_int-item x config spec "pin_a" a,
          require_int-item x config spec "pin_b" b,
          with_mode k,
        )
        depth 12 fits 4000
    where
      mode : Value
      mode = get_value "mode" (Value.text "x4") spec

      with_mode :
          require_member mode encoder_mode_names ≡ ok tt
          → (a b : Value)
          → Never x (
              lift (text_key mode) >>= λ m.
              Encoder.attach (board_io io) (int_of parse_int a) (int_of parse_int b) m)
      with_mode k a b =
          let (s, is_s, known) = known_key x config mode encoder_modes k in
          Never-known x (text_key mode)
            (λ m. Encoder.attach (board_io io) (int_of parse_int a) (int_of parse_int b) m) s is_s
            (attach_encoder-Never x config (board_io io) (command-Never io x sends)
              (encoder_id-Never io x config) (int_of parse_int a) (int_of parse_int b) s
              (int_of-Never x config parse_int a) (int_of-Never x config parse_int b) known)

  pub i2c_bus-Never :
      (name : String) (spec : Entries)
      → check_i2c_bus spec ≡ ok tt
      → Never x (configure_i2c_bus io parse_int parse_float name spec)
  unfolding configure_i2c_bus on_i2c_bus
  i2c_bus-Never name spec _ =
      search
        (
          named-Never x,
          Never-bind x,
          lift-Never x,
          int_of-Never x config,
          configure_i2c_bus-Never x config (board_io io) (command-Never io x sends),
        )
        depth 12 fits 4000

  pub dac-Never :
      (name : String) (spec : Entries)
      → check_dac spec ≡ ok tt
      → Never x (configure_dac io parse_int parse_float name spec)
  unfolding configure_dac check_dac on_dac attach_dac on_i2c_bus
  dac-Never name spec h =
      let bus : Value = get_value "bus" Value.null spec in
      let (k, h1) = both_ok (require (is_str bus)) _ h in
      let (addressed, _) = both_ok (require_int spec "address") _ h1 in
      let bus_there =
        item-Never x config is_str "bus" spec (unfold is_str in refl)
          (require-true (is_str bus) k) in
      search
        (
          named-Never x,
          Never-bind x,
          lift-Never x,
          on-Never x,
          gets-Never x,
          bus_there,
          bus_key-Never x config,
          int_of-Never x config,
          require_int-item x config spec "address" addressed,
          attach_dac-Never x config (board_io io) (command-Never io x sends)
              (dac_id-Never io x config),
        )
        depth 14 fits 8000
