-- ===== src/Resources/I2cBus.antt =====
-- resources/i2c.py.
use teensy_io.Base.{ℕ, ◌<◌, ◌≤◌, Option, some, List, [], ◌∷◌, ◌++◌, length, true}
use teensy_io.Base.{◌≡◌, arith}
use teensy_io.Base.Int.{ℤ, pos, ltb_ℤ}
use teensy_io.Protocol.Commands.{CommandId}
use teensy_io.Protocol.Errors.{Error}
use teensy_io.Protocol.Exec.{Exec, pure, gets, lift, modify, raise_if, ◌>>=◌, ◌>>◌}
use teensy_io.Resources.{Io, Held, on_io, bytes_of, outside, required, u7_address, pack_u32}

pub record I2cBus : Type 0 where
  pub bus : Option ℤ
  pub frequency : ℤ

module _ {S : Type 0} (io : Io S) where
  unfoldable pub configure : ℤ → ℤ → Exec (Held I2cBus S) (Unit {0})
  configure bus frequency = do
    raise_if (outside 0 255 bus) Error.value_error
    raise_if (ltb_ℤ frequency (pos 1)) Error.value_error
    modify (λ h. record h { self = record { bus = some bus; frequency = frequency } })
    front ← lift (bytes_of (bus ∷ []))
    packed ← lift (pack_u32 frequency)
    on_io (io.command CommandId.config_i2c_bus (front ++ packed) true)
    pure tt

  unfoldable pub write : ℤ → List ℕ → Exec (Held I2cBus S) (Unit {0})
  unfolding u7_address
  write address data' = do
    checked ← gets (λ h. required h.self.bus)
    bus ← lift checked
    target ← lift (u7_address address)
    front ← lift (bytes_of (bus ∷ target ∷ pos (length data') ∷ []))
    on_io (io.command CommandId.i2c_write (front ++ data') true)
    pure tt

  unfoldable pub read : ℤ → ℤ → Exec (Held I2cBus S) (List ℕ)
  unfolding u7_address
  read address size = do
    checked ← gets (λ h. required h.self.bus)
    bus ← lift checked
    raise_if (outside 0 128 size) Error.value_error
    target ← lift (u7_address address)
    payload ← lift (bytes_of (bus ∷ target ∷ size ∷ []))
    on_io (io.command CommandId.i2c_read payload true)

module _ {S : Type 0} (io : Io S) where
  -- The one command of a write whose bus, address and length fit a byte each.
  pub write-command :
      (bus address : ℕ) (frequency : ℤ) (data' : List ℕ) (s : S)
      → bus < 256
      → address ≤ 127
      → length data' < 256
      → (let h : Held I2cBus S = record {
        self = record { bus = some (pos bus); frequency = frequency };
        io = s;
      } in
          write io (pos address) data' h
          ≡ (on_io (io.command CommandId.i2c_write (bus ∷ address ∷ length data' ∷ data') true)
                >> pure tt)
              h)
  unfolding write bytes_of
  write-command bus address frequency data' s b a l = ground arith
