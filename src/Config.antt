-- ===== src/Config.antt =====
-- config/: a configuration as the loader gives it, and how the client looks things up in it.
pub mod Schema
pub mod Loader
use Prim.Native.String.{String}
use teensy_io.Base.{
  ℕ, zero, suc, ◌-◌, ◌*◌, ◌/◌, ◌^◌, Bool, true, false, not, ◌||◌, Option, none, some, List, [], ◌∷◌,
  if◌then◌else◌, ltb, leb,
}
use teensy_io.Base.Floats.{Float, below_zero, above_one}
use teensy_io.Base.Int.{ℤ, pos, negsuc}
use teensy_io.Protocol.Errors.{Error, Result, ok, err}
use teensy_io.Resources.{text_eq, outside}
use teensy_io.Resources.Pin.{flag}

-- A value of YAML. What a sequence holds is looked at nowhere. The keys of a mapping are texts.
mutual
  pub data Value : Type 0 where
    text : String → Value
    whole : ℤ → Value
    boolean : Bool → Value
    real : Float → Value
    null sequence : Value
    mapping : Entries → Value

  pub data Entries : Type 0 where
    end : Entries
    entry : String → Value → Entries → Entries

unfoldable pub find_value : String → Entries → Option Value
find_value key end = none
find_value key (entry k value rest) = if text_eq key k then some value else find_value key rest

-- `spec.get(key, default)`, and `spec.get(key)` with `null`
unfoldable pub get_value : String → Value → Entries → Value
unfolding find_value
get_value key default spec = elim (find_value key spec) [ none ↦ default | some value ↦ value ]

-- `spec[key]`
unfoldable pub item : String → Entries → Result Value
unfolding find_value
item key spec = elim (find_value key spec) [ none ↦ err Error.key_error | some value ↦ ok value ]

-- `config.get(name, {}).items()`
unfoldable pub section : String → Entries → Result Entries
unfolding get_value
section name config = elim (get_value name (mapping end) config) [
  | mapping entries ↦ ok entries
  | _ ↦ err Error.attribute_error
]

-- `isinstance(value, int)`: a `bool` is an `int`.
unfoldable pub is_int : Value → Bool
is_int (whole z) = true
is_int (boolean b) = true
is_int _ = false

-- `isinstance(value, (int, float))`
unfoldable pub is_number : Value → Bool
unfolding is_int
is_number (real x) = true
is_number value = is_int value

unfoldable pub among : String → List String → Bool
among s [] = false
among s (n ∷ names) = text_eq s n || among s names

-- `value in names`: a value that cannot be hashed is a `TypeError`.
unfoldable pub member_of : Value → List String → Result Bool
unfolding among
member_of (text s) names = ok (among s names)
member_of sequence names = err Error.type_error
member_of (mapping entries) names = err Error.type_error
member_of _ names = ok false

-- `value == name`
unfoldable pub is_text : Value → String → Bool
is_text (text s) name = text_eq s name
is_text _ name = false

-- `int(x)` of a float drops what is behind the point.
unfoldable pub int_of_float : Float → Result ℤ
int_of_float Float.nan = err Error.value_error
int_of_float (Float.infinite negative) = err Error.overflow_error
int_of_float (Float.finite false m k) = ok (pos (m / 2 ^ k))
int_of_float (Float.finite true m k) = ok (minus (m / 2 ^ k))
  where
    minus : ℕ → ℤ
    minus zero = pos 0
    minus (suc n) = negsuc n

-- `int(value)`, where `parse_int` says what `int` makes of a text.
unfoldable pub int_of : (String → Option ℤ) → Value → Result ℤ
unfolding int_of_float
int_of parse_int (text s) = elim (parse_int s) [ none ↦ err Error.value_error | some z ↦ ok z ]
int_of parse_int (whole z) = ok z
int_of parse_int (boolean b) = ok (flag b)
int_of parse_int (real x) = int_of_float x
int_of parse_int _ = err Error.type_error

-- `float(value)`. A whole number of 2⁵³ or more is rounded in the source, which does not matter here:
-- it is only compared with 1.0. From 2¹⁰²⁴ - 2⁹⁷⁰ on it has no float.
unfoldable pub float_of : (String → Option Float) → Value → Result Float
float_of parse_float (text s) = elim (parse_float s) [
  | none ↦ err Error.value_error
  | some x ↦ ok x
]
float_of parse_float (whole (pos n)) =
    if ltb n (2 ^ 1024 - 2 ^ 970) then ok (Float.finite false n 0) else err Error.overflow_error
float_of parse_float (whole (negsuc n)) =
    if ltb (suc n) (2 ^ 1024 - 2 ^ 970)
    then ok (Float.finite true (suc n) 0)
    else err Error.overflow_error
float_of parse_float (boolean true) = ok (Float.finite false 1 0)
float_of parse_float (boolean false) = ok (Float.finite false 0 0)
float_of parse_float (real x) = ok x
float_of parse_float _ = err Error.type_error

-- `bool(value)`
unfoldable pub is_true : Value → Bool
is_true (text s) = not (text_eq s "")
is_true (whole (pos zero)) = false
is_true (whole z) = true
is_true (boolean b) = b
is_true (real (Float.finite negative zero k)) = false
is_true (real x) = true
is_true null = false
is_true sequence = true
is_true (mapping end) = false
is_true (mapping entries) = true
