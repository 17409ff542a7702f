-- ===== src/Resources/Analog.antt =====
-- resources/analog.py.
use teensy_io.Base.{ℕ, ◌<◌, Option, some, List, [], ◌∷◌, ◌++◌, take, slice, true}
use teensy_io.Base.{◌≡◌, arith}
use teensy_io.Base.Int.{ℤ, pos}
use teensy_io.Protocol.Commands.{CommandId}
use teensy_io.Protocol.Errors.{Error, ok}
use teensy_io.Protocol.Exec.{Exec, pure, gets, lift, modify, raise_if, ◌>>=◌, ◌>>◌}
use teensy_io.Protocol.Packet.{to_bytes2}
use teensy_io.Protocol.Decoder.{from_bytes}
use teensy_io.Resources.{Io, Held, Ratio, on_io, bytes_of, outside, required}

pub record AnalogInput : Type 0 where
  pub physical_pin : Option ℤ
  pub samples : ℤ

module _ {S : Type 0} (io : Io S) where
  unfoldable pub configure : ℤ → ℤ → Exec (Held AnalogInput S) (Unit {0})
  configure physical_pin samples = do
    modify (λ h. record h { self = record { physical_pin = some physical_pin; samples = samples } })
    raise_if (outside 1 255 samples) Error.value_error
    payload ← lift (bytes_of (physical_pin ∷ samples ∷ []))
    on_io (io.command CommandId.config_analog payload true)
    pure tt

  -- `_read`: the raw value, and the normalized one in ten-thousandths.
  unfoldable pub read_pair : Exec (Held AnalogInput S) (ℕ × ℕ)
  read_pair = do
    checked ← gets (λ h. required h.self.physical_pin)
    pin ← lift checked
    sent ← lift (bytes_of (pin ∷ []))
    payload ← on_io (io.command CommandId.analog_read sent true)
    pure (from_bytes (take 2 payload), from_bytes (slice 2 4 payload))

  unfoldable pub read_raw : Exec (Held AnalogInput S) ℕ
  unfolding read_pair
  read_raw = do pair ← read_pair; pure pair.0

  unfoldable pub read_normalized : Exec (Held AnalogInput S) Ratio
  unfolding read_pair
  read_normalized = do
    pair ← read_pair
    pure (record { numerator = pos pair.1; denominator = 10000 })

  -- A response that holds two numbers of 16 bits, the lower byte first, is read as those two numbers,
  -- whatever follows them.
  pub read_pair-numbers :
      (pin raw normalized : ℕ) (extra : List ℕ) (s s' : S) (samples : ℤ)
      → pin < 256
      → io.command CommandId.analog_read (pin ∷ []) true s
        ≡ (ok (to_bytes2 raw ++ (to_bytes2 normalized ++ extra)), s')
      → (read_pair
          (record { self = record { physical_pin = some (pos pin); samples = samples }; io = s })).0
        ≡ ok (raw, normalized)
  unfolding read_pair bytes_of
  read_pair-numbers pin raw normalized extra s s' samples h e = ground arith
