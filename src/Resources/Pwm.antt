-- ===== src/Resources/Pwm.antt =====
-- resources/pwm.py, and `_u8_duty`. The duty is a float.
use teensy_io.Base.{
  ℕ, zero, suc, Bool, ◌≡◌, refl, arith, ◌≤◌, ◌<◌, ◌^◌, ◌||◌, Option, some, [], ◌∷◌, ◌++◌, true,
  false, if◌then◌else◌,
}
use teensy_io.Base.Floats.{Float, below_zero, above_one, scale, scale-le}
use teensy_io.Base.Int.{ℤ, pos}
use teensy_io.Protocol.Commands.{CommandId}
use teensy_io.Protocol.Errors.{Error, Result, ok, err}
use teensy_io.Protocol.Exec.{Exec, pure, gets, lift, modify, ◌>>=◌, ◌>>◌}
use teensy_io.Resources.{Io, Held, on_io, bytes_of, required, pack_u32}

pub record PwmOutput : Type 0 where
  pub physical_pin : Option ℤ

-- `value < 0.0 or value > 1.0` is a `ValueError`, and so is `round` of what is no number. What is left
-- is scaled: `int(round(value * factor))`.
unfoldable pub scaled_unit : ℕ → Float → Result ℕ
unfolding below_zero above_one scale
scaled_unit factor Float.nan = err Error.value_error
scaled_unit factor (Float.infinite negative) = err Error.value_error
scaled_unit factor (Float.finite negative m k) =
    if below_zero (Float.finite negative m k) || above_one (Float.finite negative m k)
    then err Error.value_error
    else ok (scale factor m k)

-- `_u8_duty`
unfoldable pub u8_duty : Float → Result ℕ
unfolding scaled_unit
u8_duty duty = scaled_unit 255 duty

module _ {S : Type 0} (io : Io S) where
  unfoldable pub configure : ℤ → ℤ → Float → Exec (Held PwmOutput S) (Unit {0})
  unfolding u8_duty
  configure physical_pin frequency initial_duty = do
    modify (λ h. record h { self = record { physical_pin = some physical_pin } })
    front ← lift (bytes_of (physical_pin ∷ []))
    packed ← lift (pack_u32 frequency)
    duty ← lift (u8_duty initial_duty)
    on_io (io.command CommandId.config_pwm (front ++ (packed ++ duty ∷ [])) true)
    pure tt

  unfoldable pub write : Float → Exec (Held PwmOutput S) (Unit {0})
  unfolding u8_duty
  write duty = do
    checked ← gets (λ h. required h.self.physical_pin)
    pin ← lift checked
    level ← lift (u8_duty duty)
    payload ← lift (bytes_of (pin ∷ pos level ∷ []))
    on_io (io.command CommandId.pwm_write payload true)
    pure tt

  unfoldable pub disable : Exec (Held PwmOutput S) (Unit {0})
  disable = do
    checked ← gets (λ h. required h.self.physical_pin)
    pin ← lift checked
    payload ← lift (bytes_of (pin ∷ []))
    on_io (io.command CommandId.pwm_disable payload true)
    pure tt

module _ {S : Type 0} (io : Io S) (pin : ℕ) (s : S) where
  abbrev configured : Held PwmOutput S
  configured = record { self = record { physical_pin = some (pos pin) }; io = s }

  abbrev Refused : Float → Type 0
  Refused duty = write io duty configured ≡ (err Error.value_error, configured)

  -- `write` of a configured output sends a duty between 0 and 1 as one byte, the duty times 255 as
  -- doubles have it, rounded to the nearest whole number. It refuses every other duty with
  -- `ValueError`, infinities and what is no number included: then nothing is sent and nothing changes.
  pub pwm_write-duty :
      pin < 256
      → ((m k : ℕ)
          → m ≤ 2 ^ k
          → (scale 255 m k ≤ 255)
            × (write io (Float.finite false m k) configured
                ≡ (on_io (io.command CommandId.pwm_write (pin ∷ scale 255 m k ∷ []) true)
                      >> pure tt)
                    configured))
        × ((m k : ℕ) → 2 ^ k < m → Refused (Float.finite false m k))
        × ((m k : ℕ) → Refused (Float.finite true (suc m) k))
        × ((negative : Bool) → Refused (Float.infinite negative))
        × Refused Float.nan
  unfolding write bytes_of u8_duty
  pwm_write-duty h = (
    (λ m k inside.
        let fits = scale-le 255 m k (omega arith) inside in
        (fits, rw (accepted m k inside) (ground arith))),
    (λ m k outside. rw (too_large m k outside) refl),
    (λ m k. refl),
    (λ negative. refl),
    refl,
  )
    where
      accepted : (m k : ℕ) → m ≤ 2 ^ k → u8_duty (Float.finite false m k) ≡ ok (scale 255 m k)
      accepted zero k inside = ground arith
      accepted (suc m) k inside = ground arith

      too_large : (m k : ℕ) → 2 ^ k < m → u8_duty (Float.finite false m k) ≡ err Error.value_error
      too_large zero k outside = absurd (omega arith)
      too_large (suc m) k outside = ground arith
