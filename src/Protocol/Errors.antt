-- ===== src/Protocol/Errors.antt =====
-- The exceptions of protocol/errors.py, and the built-in ones that the code raises or lets through.
use teensy_io.Base.{Bool, true, false, ℕ, ◌≡◌, refl}
use teensy_io.Protocol.Commands.{ErrorCode}

-- `transport_error` is whatever a transport raises, by a number.
pub data Error : Type 0 where
  connection_lost timeout protocol invalid_pin invalid_mode queue_full : Error
  emergency_stop_active watchdog_timeout : Error
  command_rejected : ErrorCode → Error
  value_error key_error index_error runtime_error type_error struct_error queue_empty : Error
  queue_is_full attribute_error overflow_error : Error
  transport_error : ℕ → Error

-- How a call ends. `stuck` is no end: a loop whose fuel ran out.
pub data Result {ℓ} (A : Type ℓ) : Type ℓ where
  ok : A → Result A
  err : Error → Result A
  stuck : Result A

infixl 5 ◌>>=◌ ◌>>◌
abbrev pub ◌>>=◌ {ℓ κ} : {A : Type ℓ} {B : Type κ} → Result A → (A → Result B) → Result B
ok a >>= f = f a
err e >>= f = err e
stuck >>= f = stuck

abbrev pub ◌>>◌ {ℓ κ} : {A : Type ℓ} {B : Type κ} → Result A → Result B → Result B
r >> k = r >>= λ _. k

abbrev pub map_result {ℓ κ} : {A : Type ℓ} {B : Type κ} → (A → B) → Result A → Result B
map_result f (ok a) = ok (f a)
map_result f (err e) = err e
map_result f stuck = stuck

-- Both checks of a sequence were passed.
pub both_ok :
    {B : Type 0} (r : Result (Unit {0})) (k : Result B) {b : B}
    → r >> k ≡ ok b
    → (r ≡ ok tt) × (k ≡ ok b)
both_ok (ok tt) k h = (refl, h)
both_ok (err e) k h = absurd (cc)
both_ok stuck k h = absurd (cc)

-- Membership in the class `TeensyIOError`: what a caller that catches it will see.
unfoldable pub is_teensy_io_error : Error → Bool
is_teensy_io_error Error.value_error = false
is_teensy_io_error Error.key_error = false
is_teensy_io_error Error.index_error = false
is_teensy_io_error Error.runtime_error = false
is_teensy_io_error Error.type_error = false
is_teensy_io_error Error.struct_error = false
is_teensy_io_error Error.queue_empty = false
is_teensy_io_error Error.queue_is_full = false
is_teensy_io_error Error.attribute_error = false
is_teensy_io_error Error.overflow_error = false
is_teensy_io_error (Error.transport_error n) = false
is_teensy_io_error _ = true
