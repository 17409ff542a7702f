-- ===== src/Bridge/Services.antt =====
-- The services of the bridge. A response is its fields beside `ok` and `error`; the text of an error is
-- the exception here.
use Prim.Native.String.{String}
use teensy_io.Base.{ℕ, Bool, true, false, Option, none, some, List, if◌then◌else◌}
use teensy_io.Base.Floats.{Float}
use teensy_io.Base.Int.{ℤ, pos}
use teensy_io.Protocol.Errors.{Error, Result, ok, err, stuck}
use teensy_io.Protocol.Exec.{Exec, modify, on, ◌>>=◌, ◌>>◌}
use teensy_io.Resources.{Held, on_io, Ratio}
use teensy_io.Resources.Session.{Board, Channel, board_io}
use teensy_io.Resources.Pin
use teensy_io.Resources.Pwm
use teensy_io.Resources.Counter
use teensy_io.Resources.Analog
use teensy_io.Resources.Encoder
use teensy_io.Resources.I2cBus
use teensy_io.Resources.Dac
use teensy_io.Config.{int_of_float}
use teensy_io.Device.{on_pin, on_pwm, on_analog, on_counter, on_encoder, on_i2c_bus, on_dac}
use teensy_io.Device.Control.{emergency_stop, clear_emergency_stop}
use teensy_io.Device.Refs.{subscribe}
use teensy_io.Bridge.{Bridge, configure_names}

pub record Response (A : Type 0) : Type 0 where
  pub succeeded : Bool
  pub error : Option Error
  pub fields : A

-- `try: …; return self._ok(response) except Exception as exc: return self._fail(response, exc)`. The
-- fields that were set before an exception stay set.
unfoldable pub serve : {A B : Type 0} → Exec (Held A B) (Unit {0}) → A → Exec B (Response A)
serve {A} {B} body fields b = answer (body (record { self = fields; io = b }))
  where
    answer : Result (Unit {0}) × Held A B → Result (Response A) × B
    answer (ok _, h) = (ok (record { succeeded = true; error = none; fields = h.self }), h.io)
    answer (err e, h) = (ok (record { succeeded = false; error = some e; fields = h.self }), h.io)
    answer (stuck, h) = (stuck, h.io)

-- `response.field = …`
abbrev set : {A B V : Type 0} → (A → V → A) → V → Exec (Held A B) (Unit {0})
set put value = modify (λ h. record h { self = put h.self value })

pub record CounterFields : Type 0 where
  pub count : ℤ
  pub frequency_hz : Ratio

pub record AnalogFields : Type 0 where
  pub raw : ℕ
  pub normalized : Ratio

pub record DacRequest : Type 0 where
  pub name : String
  pub channel : ℕ
  pub raw : ℕ
  pub normalized : Float
  pub use_normalized : Bool

module _ {S : Type 0} (io : Channel S) where
  unfoldable pub digital_read : String → Bool → Exec (Board S) (Response Bool)
  unfolding serve on_pin
  digital_read name =
      serve (do value ← on_io (on_pin name (Pin.read (board_io io))); set (λ _ v. v) value)

  unfoldable pub digital_write : String → Bool → Unit {0} → Exec (Board S) (Response (Unit {0}))
  unfolding serve on_pin
  digital_write name value = serve (on_io (on_pin name (Pin.write (board_io io) value)))

  unfoldable pub pwm_write : String → Float → Unit {0} → Exec (Board S) (Response (Unit {0}))
  unfolding serve on_pwm
  pwm_write name duty = serve (on_io (on_pwm name (Pwm.write (board_io io) duty)))

  unfoldable pub counter_read : String → CounterFields → Exec (Board S) (Response CounterFields)
  unfolding serve on_counter
  counter_read name = serve (do
    count ← on_io (on_counter name (Counter.read (board_io io)))
    set (λ f v. record f { count = v }) count
    frequency ← on_io (on_counter name (Counter.frequency (board_io io) (pos 100)))
    set (λ f v. record f { frequency_hz = v }) frequency)

  unfoldable pub counter_reset : String → Unit {0} → Exec (Board S) (Response (Unit {0}))
  unfolding serve on_counter
  counter_reset name = serve (on_io (on_counter name (Counter.reset (board_io io))))

  unfoldable pub analog_read : String → AnalogFields → Exec (Board S) (Response AnalogFields)
  unfolding serve on_analog
  analog_read name = serve (do
    raw ← on_io (on_analog name (Analog.read_raw (board_io io)))
    set (λ f v. record f { raw = v }) raw
    normalized ← on_io (on_analog name (Analog.read_normalized (board_io io)))
    set (λ f v. record f { normalized = v }) normalized)

  unfoldable pub encoder_read : String → ℤ → Exec (Board S) (Response ℤ)
  unfolding serve on_encoder
  encoder_read name =
      serve (do
        position ← on_io (on_encoder name (Encoder.read (board_io io)))
        set (λ _ v. v) position)

  unfoldable pub encoder_reset : String → Unit {0} → Exec (Board S) (Response (Unit {0}))
  unfolding serve on_encoder
  encoder_reset name = serve (on_io (on_encoder name (Encoder.reset (board_io io))))

  unfoldable pub i2c_write : String → ℕ → List ℕ → Unit {0} → Exec (Board S) (Response (Unit {0}))
  unfolding serve on_i2c_bus
  i2c_write bus address data' =
      serve (on_io (on_i2c_bus bus (I2cBus.write (board_io io) (pos address) data')))

  unfoldable pub i2c_read : String → ℕ → ℕ → List ℕ → Exec (Board S) (Response (List ℕ))
  unfolding serve on_i2c_bus
  i2c_read bus address size = serve (do
    data' ← on_io (on_i2c_bus bus (I2cBus.read (board_io io) (pos address) (pos size)))
    set (λ _ v. v) data')

  unfoldable pub dac_write : DacRequest → Unit {0} → Exec (Board S) (Response (Unit {0}))
  unfolding serve on_dac
  dac_write request = serve (
      on_io (
        on_dac request.name (
          if request.use_normalized
          then Dac.write_normalized (board_io io) request.normalized (pos request.channel)
          else Dac.write_raw (board_io io) (pos request.raw) (pos request.channel))))

  unfoldable pub emergency_stop_service : Bool → Unit {0} → Exec (Board S) (Response (Unit {0}))
  unfolding serve emergency_stop clear_emergency_stop
  emergency_stop_service active = serve (
      on_io (
        on (λ b. b.session) (λ b s. record b { session = s })
          (if active then emergency_stop io else clear_emergency_stop io)))

  -- `_subscribe` also fills in the names, which are the bridge's.
  unfoldable pub subscribe_service :
      String → Float → Bool → Unit {0} → Exec (Bridge S) (Response (Unit {0}))
  unfolding serve subscribe configure_names int_of_float
  subscribe_service name rate_hz on_change = serve (
      on_io (do
        on (λ s. s.board) (λ s b. record s { board = b })
            (subscribe io name (int_of_float rate_hz) on_change)
        modify configure_names))
