-- ===== src/Device/Never.antt =====
-- Parts of methods that raise no exception of a configuration.
use teensy_io.Base.{ℕ, ◌^◌, Bool, true, false, List, [], ◌∷◌, Option, none, some, ltb}
use teensy_io.Base.{◌≡◌, ◌≢◌, refl, arith, Bool-cases, inl, inr}
use teensy_io.Base.Int.{ℤ, pos, negsuc}
use teensy_io.Protocol.Errors
use teensy_io.Protocol.Errors.{Error, Result, ok, err, stuck}
use teensy_io.Protocol.Exec.Never.{Never}
use teensy_io.Protocol.Exec.{raise_if}
use teensy_io.Resources.{byte_of, bytes_of, pack_u32, required}

-- The exceptions that tell of a configuration which lacks something or says something unknown:
-- `KeyError`, `AttributeError` and `InvalidModeError`.
abbrev pub is_config_error : Error → Bool
is_config_error Error.key_error = true
is_config_error Error.attribute_error = true
is_config_error Error.invalid_mode = true
is_config_error _ = false

module _ (x : Error) (config : is_config_error x ≡ true) where
  pub never_other :
      {A : Type 0} (e : Error) → is_config_error e ≡ false → ◌≢◌ {A = Result A} (err e) (err x)
  never_other e other same = cc

  result_bind :
      {A B : Type 0} (r : Result A) (f : A → Result B)
      → r ≢ err x
      → ((a : A) → f a ≢ err x)
      → (Errors.◌>>=◌ r f) ≢ err x
  result_bind (ok a) f h k same = k a same
  result_bind (err e) f h k same = h (cc)
  result_bind stuck f h k same = cc

  byte_of-Never : (z : ℤ) → byte_of z ≢ err x
  unfolding byte_of
  byte_of-Never (pos n) same = elim (Bool-cases (ltb n 256)) [
    | inl fits ↦ ground arith
    | inr large ↦ never_other {A = ℕ} Error.value_error refl (ground arith)
  ]
  byte_of-Never (negsuc n) same = never_other Error.value_error refl same

  pub bytes_of-Never : (zs : List ℤ) → bytes_of zs ≢ err x
  unfolding bytes_of
  bytes_of-Never [] same = cc
  bytes_of-Never (z ∷ zs) same =
      result_bind (byte_of z) (λ b. Errors.◌>>=◌ (bytes_of zs) λ bs. ok (b ∷ bs)) (byte_of-Never z)
        (λ b. result_bind (bytes_of zs) (λ bs. ok (b ∷ bs)) (bytes_of-Never zs) (λ bs e. cc)) same

  pub pack_u32-Never : (z : ℤ) → pack_u32 z ≢ err x
  unfolding pack_u32
  pack_u32-Never (pos n) same = elim (Bool-cases (ltb n (2 ^ 32))) [
    | inl fits ↦ ground arith
    | inr large ↦ never_other {A = List ℕ} Error.struct_error refl (ground arith)
  ]
  pack_u32-Never (negsuc n) same = never_other Error.struct_error refl same

  pub required-Never : {A : Type 0} (o : Option A) → required o ≢ err x
  required-Never none same = never_other Error.runtime_error refl same
  required-Never (some a) same = cc

  pub raise_if-Never :
      {S : Type 0} (test : Bool) (e : Error)
      → is_config_error e ≡ false
      → Never x {S = S} (raise_if test e)
  raise_if-Never true e other s same = never_other e other same
  raise_if-Never false e other s same = cc
