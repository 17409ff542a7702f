-- ===== src/Device/Checked.antt =====
-- What the checks of config/schema.py say about an entry: the keys that `configure_all` looks up are
-- there, and the words that it translates are known.
use Prim.Native.String.{String}
use teensy_io.Base.{
  ℕ, suc, ◌-◌, ◌^◌, ltb, if◌then◌else◌, Bool, true, false, List, [], ◌∷◌, map, Option, Option-cases,
  Bool-cases, inl, inr, ◌≡◌, ◌≢◌, refl, arith,
}
use teensy_io.Base.Int.{ℤ, pos, negsuc}
use teensy_io.Base.Floats.{Float}
use teensy_io.Protocol.Errors.{Error, ok, err}
use teensy_io.Resources.{lookup, text_eq}
use teensy_io.Config.{
  Value, Entries, find_value, get_value, item, is_int, among, int_of, int_of_float, float_of,
}
use teensy_io.Config.Schema.{require, require_member, require_int}
use teensy_io.Device.Configure.{bus_key, pin_ref}
use teensy_io.Device.Never.{is_config_error, never_other}

pub require-true : (test : Bool) → require test ≡ ok tt → test ≡ true
require-true true h = refl
require-true false h = absurd (cc)

-- A word that passed is a text among the names.
pub require_member-text :
    (value : Value) (names : List String)
    → require_member value names ≡ ok tt
    → (s : String) × (value ≡ Value.text s) × (among s names ≡ true)
unfolding require_member
require_member-text (Value.text s) names h = (s, refl, require-true (among s names) h)
require_member-text (Value.whole z) names h = absurd (cc)
require_member-text (Value.boolean b) names h = absurd (cc)
require_member-text (Value.real f) names h = absurd (cc)
require_member-text Value.null names h = absurd (cc)
require_member-text Value.sequence names h = absurd (cc)
require_member-text (Value.mapping e) names h = absurd (cc)

module _ (x : Error) (config : is_config_error x ≡ true) where
  -- A key is there if a test of its value passed that `None` does not pass.
  pub item-Never :
      (test : Value → Bool) (key : String) (spec : Entries)
      → test Value.null ≡ false
      → test (get_value key Value.null spec) ≡ true
      → item key spec ≢ err x
  unfolding item get_value
  item-Never test key spec fails passed = elim (Option-cases (find_value key spec)) [
    | inl missing ↦ absurd (ground arith)
    | inr (value, found) ↦ rw (found, item) (λ e. cc)
  ]

  pub require_int-item :
      (spec : Entries) (key : String) → require_int spec key ≡ ok tt → item key spec ≢ err x
  unfolding require_int
  require_int-item spec key h =
      item-Never is_int key spec (unfold is_int in refl)
        (require-true (is_int (get_value key Value.null spec)) h)

  -- The code of a known word is found.
  pub lookup-Never :
      (s : String) (codes : List (String × ℕ))
      → among s (map (λ c. c.0) codes) ≡ true
      → lookup s codes ≢ err x
  unfolding lookup among
  lookup-Never s [] h same = cc
  lookup-Never s ((k, v) ∷ rest) h same = elim (Bool-cases (text_eq s k)) [
    | inl here ↦ ground arith
    | inr later ↦ lookup-Never s rest (ground arith) (ground arith)
  ]

  pub int_of-Never :
      (parse_int : String → Option ℤ) (value : Value) → int_of parse_int value ≢ err x
  unfolding int_of int_of_float
  int_of-Never parse_int (Value.text s) same = elim (Option-cases (parse_int s)) [
    | inl bad ↦ never_other x config {A = ℤ} Error.value_error refl (ground arith)
    | inr (z, good) ↦ ground arith
  ]
  int_of-Never parse_int (Value.whole z) same = cc
  int_of-Never parse_int (Value.boolean b) same = cc
  int_of-Never parse_int (Value.real Float.nan) same =
      never_other x config Error.value_error refl same
  int_of-Never parse_int (Value.real (Float.infinite b)) same =
      never_other x config Error.overflow_error refl same
  int_of-Never parse_int (Value.real (Float.finite true m k)) same = cc
  int_of-Never parse_int (Value.real (Float.finite false m k)) same = cc
  int_of-Never parse_int Value.null same = never_other x config Error.type_error refl same
  int_of-Never parse_int Value.sequence same = never_other x config Error.type_error refl same
  int_of-Never parse_int (Value.mapping e) same = never_other x config Error.type_error refl same

  limited : (test : Bool) (f : Float) → (if test then ok f else err Error.overflow_error) ≢ err x
  limited true f same = cc
  limited false f same = never_other x config Error.overflow_error refl same

  pub float_of-Never :
      (parse_float : String → Option Float) (value : Value) → float_of parse_float value ≢ err x
  unfolding float_of
  float_of-Never parse_float (Value.text s) same = elim (Option-cases (parse_float s)) [
    | inl bad ↦ never_other x config {A = Float} Error.value_error refl (ground arith)
    | inr (z, good) ↦ ground arith
  ]
  float_of-Never parse_float (Value.whole (pos n)) same =
      limited (ltb n (2 ^ 1024 - 2 ^ 970)) (Float.finite false n 0) same
  float_of-Never parse_float (Value.whole (negsuc n)) same =
      limited (ltb (suc n) (2 ^ 1024 - 2 ^ 970)) (Float.finite true (suc n) 0) same
  float_of-Never parse_float (Value.boolean true) same = cc
  float_of-Never parse_float (Value.boolean false) same = cc
  float_of-Never parse_float (Value.real f) same = cc
  float_of-Never parse_float Value.null same = never_other x config Error.type_error refl same
  float_of-Never parse_float Value.sequence same = never_other x config Error.type_error refl same
  float_of-Never parse_float (Value.mapping e) same =
      never_other x config Error.type_error refl same

  pub pin_ref-Never : (value : Value) → pin_ref value ≢ err x
  unfolding pin_ref
  pin_ref-Never (Value.text s) same = cc
  pin_ref-Never (Value.whole z) same = cc
  pin_ref-Never (Value.boolean true) same = cc
  pin_ref-Never (Value.boolean false) same = cc
  pin_ref-Never (Value.real f) same = never_other x config Error.runtime_error refl same
  pin_ref-Never Value.null same = never_other x config Error.runtime_error refl same
  pin_ref-Never Value.sequence same = never_other x config Error.type_error refl same
  pin_ref-Never (Value.mapping e) same = never_other x config Error.type_error refl same

  pub bus_key-Never : (value : Value) → bus_key value ≢ err x
  unfolding bus_key
  bus_key-Never (Value.text s) same = cc
  bus_key-Never Value.sequence same = never_other x config Error.type_error refl same
  bus_key-Never (Value.mapping e) same = never_other x config Error.type_error refl same
  bus_key-Never (Value.whole z) same = never_other x config Error.runtime_error refl same
  bus_key-Never (Value.boolean b) same = never_other x config Error.runtime_error refl same
  bus_key-Never (Value.real f) same = never_other x config Error.runtime_error refl same
  bus_key-Never Value.null same = never_other x config Error.runtime_error refl same
