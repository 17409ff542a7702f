-- ===== src/Base/Floats.antt =====
-- Python's `float`, as far as the source computes with it: comparisons with 0.0 and 1.0, the product
-- of a number between them and a small whole number, and `int(round(…))` of that product.
use teensy_io.Base.Tests.{ltb, ◌==◌, if◌then◌else◌, Bool-cases}
use Prim.Native.Nat.{ℕ, zero, suc, ◌+◌, ◌-◌, ◌*◌, ◌/◌, ◌%◌, ◌^◌, ◌≤◌, ◌<◌}
use mathlib.Core.Path.{◌≡◌, refl, sym, ap, ◌∙◌}
use mathlib.Core.Path.{subst}
use mathlib.Core.Logic.{inl, inr}
use mathlib.Core.Bool.{Bool, true, false}
use native.Mathlib.Nat.{
  mul-le-mul_left, mul-le-mul_right, div-mul-le_self, le_of_mul-le-mul_right, one-le-pow,
  pow-le-pow_right, pow-suc, mul_assoc, div-add-mod, mul_comm,
}
use native.Mathlib.Omega.{arith}

-- `finite negative m k` is m / 2ᵏ or -m / 2ᵏ; every finite double is one of them, with m below 2⁵³
-- where k is not 0.
pub data Float : Type 0 where
  nan : Float
  infinite : Bool → Float
  finite : Bool → ℕ → ℕ → Float

-- `x < 0.0`
unfoldable pub below_zero : Float → Bool
below_zero Float.nan = false
below_zero (Float.infinite negative) = negative
below_zero (Float.finite negative zero k) = false
below_zero (Float.finite negative (suc m) k) = negative

-- `x > 1.0`
unfoldable pub above_one : Float → Bool
above_one Float.nan = false
above_one (Float.infinite true) = false
above_one (Float.infinite false) = true
above_one (Float.finite true m k) = false
above_one (Float.finite false m k) = ltb (2 ^ k) m

-- The whole number next to n / d; of two that are as near, the even one.
unfoldable pub half_even : ℕ → ℕ → ℕ
half_even n d =
    let low = n / d in
    let twice = 2 * (n % d) in
    if ltb twice d then low else (if twice == d then low + low % 2 else low + 1)

-- How many binary digits a double drops of n: what is left has at most 53. On fuel; the products
-- here are below 2⁶⁷ and drop at most 14.
unfoldable pub dropped : ℕ → ℕ → ℕ
dropped zero n = 0
dropped (suc fuel) n = let more = dropped fuel (n / 2) in if ltb n (2 ^ 53) then 0 else suc more

-- A product as a double, rounded to even: the numerator over the same power of two.
unfoldable pub round_to_double : ℕ → ℕ
unfolding half_even dropped
round_to_double n = let unit = 2 ^ dropped 16 n in half_even n unit * unit

-- `int(round(x * factor))` of x = m / 2ᵏ
unfoldable pub scale : ℕ → ℕ → ℕ → ℕ
unfolding half_even round_to_double
scale factor m k = half_even (round_to_double (factor * m)) (2 ^ k)

half_even-le : (n d c : ℕ) → 0 < d → n ≤ c * d → half_even n d ≤ c
unfolding half_even
half_even-le n d c positive h =
    let low = n / d in
    let under : low ≤ c = le_of_mul-le-mul_right (le_step (div-mul-le_self n d) h) positive in
    elim (Bool-cases (ltb low c)) [
      | inl room ↦ ground arith
      | inr full ↦
          let same : low ≡ c = ground arith in
          let parts : d * low + n % d ≡ n = div-add-mod n d in
          let whole : d * low ≡ c * d = ap (λ x. d * x) same ∙ mul_comm d c in
          let exact : n % d ≡ 0 = omega arith in ground arith
    ]
  where
    le_step : {a b e : ℕ} → a ≤ b → b ≤ e → a ≤ e
    le_step h k = omega arith

dropped-le : (fuel n : ℕ) → 2 ^ 53 ≤ n → 2 ^ dropped fuel n * 2 ^ 52 ≤ n
unfolding dropped
dropped-le zero n h = omega arith
dropped-le (suc fuel) n h = elim (Bool-cases (ltb n (2 ^ 53))) [
  | inl small ↦ absurd (ground arith)
  | inr large ↦ elim (Bool-cases (ltb (n / 2) (2 ^ 53))) [
    | inl last ↦ rw (large, last_lem fuel last) (omega arith)
    | inr more ↦
        let rest = dropped-le fuel (n / 2) (ground arith) in
        rw (large, pow-suc 2 (dropped fuel (n / 2))) (omega arith)
  ]
]
  where
    last_lem : (fuel : ℕ) → ltb (n / 2) (2 ^ 53) ≡ true → dropped fuel (n / 2) ≡ 0
    last_lem zero e = refl
    last_lem (suc f) e = rw e refl

pow-add : (d e : ℕ) → 2 ^ (e + d) ≡ 2 ^ e * 2 ^ d
pow-add zero e = let same : e + 0 ≡ e = omega arith in rw same (omega arith)
pow-add (suc d) e =
    ap (λ n. 2 ^ n) (suc_right e d)
    ∙ pow-suc 2 (e + d)
    ∙ ap (λ x. x * 2) (pow-add d e)
    ∙ mul_assoc (2 ^ e) (2 ^ d) 2
    ∙ ap (λ x. 2 ^ e * x) (sym (pow-suc 2 d))
  where
    suc_right : (e d : ℕ) → e + suc d ≡ suc (e + d)
    suc_right e d = omega arith

-- Rounding to a multiple of a power of two stays below a multiple of a higher one.
rounded-le :
    (factor k d p : ℕ) → d ≤ k → p ≤ factor * 2 ^ k → half_even p (2 ^ d) * 2 ^ d ≤ factor * 2 ^ k
rounded-le factor k d p below h =
    let split : 2 ^ k ≡ 2 ^ (k - d) * 2 ^ d = ap (λ n. 2 ^ n) (omega arith) ∙ pow-add d (k - d) in
    let scaled : factor * 2 ^ k ≡ factor * 2 ^ (k - d) * 2 ^ d =
      ap (λ x. factor * x) split ∙ sym (mul_assoc factor (2 ^ (k - d)) (2 ^ d)) in
    let multiple : half_even p (2 ^ d) ≤ factor * 2 ^ (k - d) =
      half_even-le p (2 ^ d) (factor * 2 ^ (k - d)) (one-le-pow d 2 (omega arith))
        (subst (λ x. p ≤ x) scaled h) in
    subst (λ x. half_even p (2 ^ d) * 2 ^ d ≤ x) (sym scaled) (mul-le-mul_right (2 ^ d) multiple)

pow-le_inverse : (d k : ℕ) → 2 ^ d ≤ 2 ^ k → d ≤ k
pow-le_inverse d k h = elim (Bool-cases (ltb k d)) [
  | inl above ↦
      let higher : 2 ^ suc k ≤ 2 ^ d = pow-le-pow_right (omega arith) (ground arith) in
      let some_power : 1 ≤ 2 ^ k = one-le-pow k 2 (omega arith) in
      absurd (omega (arith, pow-suc 2 k))
  | inr below ↦ ground arith
]

-- Rounding does not leave the interval from 0 to `factor`, whatever it drops.
round_to_double-le :
    (factor m k : ℕ) → factor ≤ 2 ^ 52 → m ≤ 2 ^ k → round_to_double (factor * m) ≤ factor * 2 ^ k
unfolding round_to_double
round_to_double-le factor m k small h =
    let product : factor * m ≤ factor * 2 ^ k = mul-le-mul_left factor h in
    elim (Bool-cases (ltb (factor * m) (2 ^ 53))) [
      | inl exact ↦
          rw (dropped_small (factor * m) exact)
            (rounded-le factor k 0 (factor * m) (omega arith) product)
      | inr large ↦
          let d = dropped 16 (factor * m) in
          let kept : 2 ^ d * 2 ^ 52 ≤ factor * m = dropped-le 16 (factor * m) (ground arith) in
          let above : factor * 2 ^ k ≤ 2 ^ 52 * 2 ^ k = mul-le-mul_right (2 ^ k) small in
          let powers : 2 ^ d ≤ 2 ^ k =
            le_of_mul-le-mul_right {k = 2 ^ 52} (omega arith) (omega arith) in
          rounded-le factor k d (factor * m) (pow-le_inverse d k powers) product
    ]
  where
    dropped_small : (n : ℕ) → ltb n (2 ^ 53) ≡ true → dropped 16 n ≡ 0
    dropped_small n e = unfold dropped in rw e refl

-- A number between 0 and 1 is scaled to one between 0 and the factor.
pub scale-le : (factor m k : ℕ) → factor ≤ 2 ^ 52 → m ≤ 2 ^ k → scale factor m k ≤ factor
unfolding scale
scale-le factor m k small h =
    half_even-le (round_to_double (factor * m)) (2 ^ k) factor (one-le-pow k 2 (omega arith))
      (round_to_double-le factor m k small h)
