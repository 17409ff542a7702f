-- ===== src/Base/Bits.antt =====
-- The bit operations of the source as arithmetic, at every width.
use Prim.Native.Nat.{
  ℕ, zero, suc, ◌+◌, ◌-◌, ◌*◌, ◌/◌, ◌%◌, ◌^◌, ◌≤◌, ◌<◌, min, max, bit_and, bit_or,
}
use Prim.Native.Nat.{bit_xor, digits, bitwise, bit_and-bitwise, bit_or-bitwise, bit_xor-bitwise}
use Prim.Native.Nat.{differ}
use mathlib.Core.Path.{◌≡◌, refl, sym, ap, ◌∙◌}
use native.Mathlib.Nat.{pow-suc, le_refl}
use native.Mathlib.Omega.{arith}

-- The libraries define a bit operation by its digits, on fuel. Any fuel that is not below the first
-- number gives the same, which leaves an equation for the lowest digit.
module _ (top : ℕ → ℕ) (low : ℕ → ℕ → ℕ) where
  digits_at_zero : (fuel y : ℕ) → digits top low fuel 0 y ≡ top y
  digits_at_zero zero y = refl
  digits_at_zero (suc fuel) y = refl

  digits_any_fuel :
      (x y fuel other : ℕ)
      → x ≤ fuel
      → x ≤ other
      → digits top low fuel x y ≡ digits top low other x y
  digits_any_fuel zero y fuel other h k = digits_at_zero fuel y ∙ sym (digits_at_zero other y)
  digits_any_fuel (suc x) y (suc fuel) (suc other) h k =
      ap (λ high. high * 2 + low (suc x % 2) (y % 2))
        (digits_any_fuel (suc x / 2) (y / 2) fuel other (omega arith) (omega arith))
  digits_any_fuel (suc x) y zero other h k = absurd (omega arith)
  digits_any_fuel (suc x) y (suc fuel) zero h k = absurd (omega arith)

  bitwise-digit :
      (x y : ℕ)
      → bitwise top low (suc x) y
        ≡ low (suc x % 2) (y % 2) + 2 * bitwise top low (suc x / 2) (y / 2)
  bitwise-digit x y =
      let half = suc x / 2 in
      omega (arith, digits_any_fuel half (y / 2) x half (omega arith) (omega arith))

pub bit_and_step : (x y : ℕ) → bit_and x y ≡ min (x % 2) (y % 2) + 2 * bit_and (x / 2) (y / 2)
bit_and_step zero y = simp bit_and-bitwise (omega arith)
bit_and_step (suc x) y = simp bit_and-bitwise (bitwise-digit (λ _. 0) min x y)

pub bit_or_step : (x y : ℕ) → bit_or x y ≡ max (x % 2) (y % 2) + 2 * bit_or (x / 2) (y / 2)
bit_or_step zero y = simp bit_or-bitwise (omega arith)
bit_or_step (suc x) y = simp bit_or-bitwise (bitwise-digit (λ z. z) max x y)

-- `r | (q << k)` is a sum when `r` fits `k` bits; `r & (2 ^ k - 1)` and `r & 2 ^ k` pick digits.
zero-bit_or : (b : ℕ) → bit_or 0 b ≡ b
zero-bit_or b = bit_or-bitwise 0 b

pub bit_or_fields : (k r q : ℕ) → r < 2 ^ k → bit_or r (q * 2 ^ k) ≡ r + q * 2 ^ k
bit_or_fields zero zero q h = rw zero-bit_or (omega arith)
bit_or_fields zero (suc r) q h = absurd (omega arith)
bit_or_fields (suc k) r q h = ground (
  arith,
  bit_or_step r (q * 2 ^ suc k),
  ap (λ (t : ℕ). q * t) (pow-suc 2 k),
  pow-suc 2 k,
  bit_or_fields k (r / 2) q (omega arith),
)

bit_and-zero_below : (n a : ℕ) → a ≤ n → bit_and a 0 ≡ 0
bit_and-zero_below n zero h = refl
bit_and-zero_below zero (suc a) h = absurd (omega arith)
bit_and-zero_below (suc n) (suc a) h =
    omega (arith, bit_and_step (suc a) 0, bit_and-zero_below n (suc a / 2) (omega arith))

bit_and-zero : (a : ℕ) → bit_and a 0 ≡ 0
bit_and-zero a = bit_and-zero_below a a (le_refl a)

-- What stands above the mask is cut off.
pub bit_and_fields : (k r q : ℕ) → r < 2 ^ k → bit_and (q * 2 ^ k + r) (2 ^ k - 1) ≡ r
bit_and_fields zero r q h = rw bit_and-zero (omega arith)
bit_and_fields (suc k) r q h = ground (
  arith,
  bit_and_step (q * 2 ^ suc k + r) (2 ^ suc k - 1),
  ap (λ (t : ℕ). q * t) (pow-suc 2 k),
  pow-suc 2 k,
  bit_and_fields k (r / 2) q (omega arith),
)

-- A mask of one bit tests the digit above the low `k` ones.
pub bit_and_digit : (k r q : ℕ) → r < 2 ^ k → bit_and (q * 2 ^ k + r) (2 ^ k) ≡ q % 2 * 2 ^ k
bit_and_digit zero r q h = omega (arith, bit_and_step (q * 1 + r) 1, bit_and-zero ((q * 1 + r) / 2))
bit_and_digit (suc k) r q h = ground (
  arith,
  bit_and_step (q * 2 ^ suc k + r) (2 ^ suc k),
  ap (λ (t : ℕ). q * t) (pow-suc 2 k),
  ap (λ (t : ℕ). q % 2 * t) (pow-suc 2 k),
  pow-suc 2 k,
  bit_and_digit k (r / 2) q (omega arith),
)

pub bit_and_0xff : (a : ℕ) → bit_and a 0xff ≡ a % 256
bit_and_0xff a =
    ap (λ t. bit_and t 0xff) (omega arith) ∙ bit_and_fields 8 (a % 256) (a / 256) (omega arith)

pub bit_and_0xffff : (a : ℕ) → bit_and a 0xFFFF ≡ a % 65536
bit_and_0xffff a =
    ap (λ t. bit_and t 0xFFFF) (omega arith)
    ∙ bit_and_fields 16 (a % 65536) (a / 65536) (omega arith)

pub bit_xor_step : (a b : ℕ) → bit_xor a b ≡ differ (a % 2) (b % 2) + 2 * bit_xor (a / 2) (b / 2)
bit_xor_step zero b = simp bit_xor-bitwise (omega arith)
bit_xor_step (suc a) b = simp bit_xor-bitwise (bitwise-digit (λ z. z) differ a b)

differ_bits : (x y : ℕ) → x < 2 → y < 2 → (differ x y < 2) × (differ (differ x y) y ≡ x)
differ_bits zero zero h g = (omega arith, refl)
differ_bits zero (suc zero) h g = (omega arith, refl)
differ_bits (suc zero) zero h g = (omega arith, refl)
differ_bits (suc zero) (suc zero) h g = (omega arith, refl)
differ_bits (suc (suc x)) y h g = absurd (omega arith)
differ_bits x (suc (suc y)) h g = absurd (omega arith)

-- The digits of an exclusive or, above the lowest and the lowest.
bit_xor_digits :
    (a b : ℕ)
    → (bit_xor a b / 2 ≡ bit_xor (a / 2) (b / 2)) × (bit_xor a b % 2 ≡ differ (a % 2) (b % 2))
bit_xor_digits a b =
    let low = (differ_bits (a % 2) (b % 2) (omega arith) (omega arith)).0 in
    (omega (arith, bit_xor_step a b), omega (arith, bit_xor_step a b))

pub bit_xor-lt : (k a b : ℕ) → a < 2 ^ k → b < 2 ^ k → bit_xor a b < 2 ^ k
bit_xor-lt zero zero zero h g = omega arith
bit_xor-lt (suc k) a b h g =
    let low = (differ_bits (a % 2) (b % 2) (omega arith) (omega arith)).0 in
    omega (
      arith,
      bit_xor_step a b,
      pow-suc 2 k,
      bit_xor-lt k (a / 2) (b / 2) (omega (arith, pow-suc 2 k)) (omega (arith, pow-suc 2 k)),
    )
bit_xor-lt zero (suc a) b h g = absurd (omega arith)
bit_xor-lt zero zero (suc b) h g = absurd (omega arith)

-- A second exclusive or by the same number undoes the first.
bit_xor_undo_below : (n a b : ℕ) → a ≤ n → b ≤ n → bit_xor (bit_xor a b) b ≡ a
bit_xor_undo_below zero zero zero h g = refl
bit_xor_undo_below (suc n) a b h g =
    let (high, low) = bit_xor_digits a b in
    let bits = (differ_bits (a % 2) (b % 2) (omega arith) (omega arith)).1 in
    let rest : bit_xor (bit_xor (a / 2) (b / 2)) (b / 2) ≡ a / 2 =
      bit_xor_undo_below n (a / 2) (b / 2) (omega arith) (omega arith) in
    bit_xor_step (bit_xor a b) b ∙ rw (high, low, rest, bits) (omega arith)
bit_xor_undo_below zero (suc a) b h g = absurd (omega arith)
bit_xor_undo_below zero zero (suc b) h g = absurd (omega arith)

pub bit_xor_undo : (a b : ℕ) → bit_xor (bit_xor a b) b ≡ a
bit_xor_undo a b = bit_xor_undo_below (a + b) a b (omega arith) (omega arith)

bit_xor-zero_below : (n a : ℕ) → a ≤ n → bit_xor a 0 ≡ a
bit_xor-zero_below n zero h = refl
bit_xor-zero_below zero (suc a) h = absurd (omega arith)
bit_xor-zero_below (suc n) (suc a) h =
    bit_xor_step (suc a) 0
    ∙ rw (bit_xor-zero_below n (suc a / 2) (omega arith), differ-zero (suc a % 2)) (omega arith)
  where
    differ-zero : (x : ℕ) → differ x 0 ≡ x
    differ-zero zero = refl
    differ-zero (suc x) = refl

-- An exclusive or with a number of `k` bits leaves what stands above them.
pub bit_xor_fields :
    (k q r s : ℕ) → r < 2 ^ k → s < 2 ^ k → bit_xor (q * 2 ^ k + r) s ≡ q * 2 ^ k + bit_xor r s
bit_xor_fields zero q zero zero h g = bit_xor-zero_below (q * 1 + 0) (q * 1 + 0) (le_refl _)
bit_xor_fields zero q (suc r) s h g = absurd (omega arith)
bit_xor_fields zero q zero (suc s) h g = absurd (omega arith)
bit_xor_fields (suc k) q r s h g =
    let two = pow-suc 2 k in
    let twice = ap (λ (t : ℕ). q * t) (pow-suc 2 k) in
    let half : (q * 2 ^ suc k + r) / 2 ≡ q * 2 ^ k + r / 2 = omega arith in
    let low : (q * 2 ^ suc k + r) % 2 ≡ r % 2 = omega arith in
    bit_xor_step (q * 2 ^ suc k + r) s
    ∙ rw (half, low, bit_xor_fields k q (r / 2) (s / 2) (omega arith) (omega arith))
        (omega (arith, bit_xor_step r s))

pub bit_xor_comm_below : (n a b : ℕ) → a ≤ n → b ≤ n → bit_xor a b ≡ bit_xor b a
bit_xor_comm_below zero zero zero h g = refl
bit_xor_comm_below (suc n) a b h g =
    bit_xor_step a b
    ∙ rw
        (
          bit_xor_comm_below n (a / 2) (b / 2) (omega arith) (omega arith),
          differ_comm (a % 2) (b % 2),
        )
        (sym (bit_xor_step b a))
  where
    differ_comm : (x y : ℕ) → differ x y ≡ differ y x
    differ_comm zero zero = refl
    differ_comm zero (suc y) = refl
    differ_comm (suc x) zero = refl
    differ_comm (suc x) (suc y) = differ_comm x y
bit_xor_comm_below zero (suc a) b h g = absurd (omega arith)
bit_xor_comm_below zero zero (suc b) h g = absurd (omega arith)

-- Equal exclusive ors with the same number, on either side, come from equal numbers.
pub bit_xor_cancel_right : (a a' b : ℕ) → bit_xor a b ≡ bit_xor a' b → a ≡ a'
bit_xor_cancel_right a a' b e = sym (bit_xor_undo a b) ∙ ap (λ t. bit_xor t b) e ∙ bit_xor_undo a' b

pub bit_xor_cancel_left : (a b b' : ℕ) → bit_xor a b ≡ bit_xor a b' → b ≡ b'
bit_xor_cancel_left a b b' e = bit_xor_cancel_right b b' a (
    bit_xor_comm_below (a + b) b a (omega arith) (omega arith)
    ∙ e
    ∙ bit_xor_comm_below (a + b') a b' (omega arith) (omega arith))

pub bit_xor-mod_two : (a b : ℕ) → bit_xor a b % 2 ≡ differ (a % 2) (b % 2)
bit_xor-mod_two a b = (bit_xor_digits a b).1
