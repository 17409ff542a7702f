-- ===== src/Resources.antt =====
-- What the classes of resources/ share: the client as they see it, and how they build payloads.
pub mod Ids
pub mod Deltas
pub mod Counter
pub mod Encoder
pub mod Analog
pub mod I2cBus
pub mod Pin
pub mod Dac
pub mod Pwm
pub mod Session
use Prim.Native.String.{String}
use text.Mathlib.Text
use teensy_io.Base.{
  ℕ, ◌<◌, ◌/◌, ◌%◌, ◌^◌, Bool, true, false, Option, none, some, List, [], ◌∷◌, ◌++◌, ltb,
  if◌then◌else◌,
}
use teensy_io.Base.Int.{ℤ, pos, negsuc}
use teensy_io.Protocol.Commands.{CommandId}
use teensy_io.Protocol.Errors.{Error, Result, ok, err, stuck, ◌>>=◌}
use teensy_io.Protocol.Exec.{Exec, on}

-- The client, with a state `S`: `_command`, the numbers that it gives to names, `physical_pin` of
-- `pin(name)`, the list of callbacks for the edges of a digital pin, to which one is added, and the
-- clock. A resource keeps a reference to it as `self.io`.
pub record Io (S : Type 0) : Type 0 where
  pub command : CommandId → List ℕ → Bool → Exec S (List ℕ)
  pub counter_id : String → Exec S ℕ
  pub encoder_id : String → Exec S ℕ
  pub dac_id : String → Exec S ℕ
  pub pin_number : String → Exec S (Option ℤ)
  pub add_edge_callback : ℤ → ℕ → Exec S (Unit {0})
  pub now : S → ℕ

-- The value of a division of numbers, which the source computes as a float: the exact one, before it
-- is rounded.
pub record Ratio : Type 0 where
  pub numerator : ℤ
  pub denominator : ℕ

-- A resource beside the client that it refers to.
pub record Held (P S : Type 0) : Type 0 where
  pub self : P
  pub io : S

abbrev pub on_io : {P S A : Type 0} → Exec S A → Exec (Held P S) A
on_io = on (λ h. h.io) (λ h s. record h { io = s })

abbrev pub text_eq : String → String → Bool
text_eq a b = Text.◌==◌ a b

-- A display of a dictionary, and `[key]` on it: a missing key is a `KeyError`.
unfoldable pub lookup : String → List (String × ℕ) → Result ℕ
lookup key [] = err Error.key_error
lookup key ((k, v) ∷ rest) = if text_eq key k then ok v else lookup key rest

-- `bytes([…])`: a number outside 0 … 255 is a `ValueError`.
unfoldable pub byte_of : ℤ → Result ℕ
byte_of (pos n) = if ltb n 256 then ok n else err Error.value_error
byte_of (negsuc n) = err Error.value_error

unfoldable pub bytes_of : List ℤ → Result (List ℕ)
unfolding byte_of
bytes_of [] = ok []
bytes_of (z ∷ zs) = byte_of z >>= λ b. bytes_of zs >>= λ bs. ok (b ∷ bs)

-- `struct.pack("<I", value)`
unfoldable pub pack_u32 : ℤ → Result (List ℕ)
pack_u32 (pos n) =
    if ltb n (2 ^ 32)
    then ok ((n % 256) ∷ (n / 256 % 256) ∷ (n / 65536 % 256) ∷ (n / 16777216) ∷ [])
    else err Error.struct_error
pack_u32 (negsuc n) = err Error.struct_error

-- `value < low or value > high` of whole numbers
abbrev pub outside : ℕ → ℕ → ℤ → Bool
outside low high (pos n) = if ltb n low then true else ltb high n
outside low high (negsuc n) = true

-- `_u7_address`
unfoldable pub u7_address : ℤ → Result ℤ
u7_address address = if outside 0 0x7F address then err Error.value_error else ok address

-- `self._require_…()`, and the number that it makes sure of
abbrev pub required : {A : Type 0} → Option A → Result A
required none = err Error.runtime_error
required (some a) = ok a
