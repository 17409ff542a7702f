-- ===== src/Protocol/Crc/Detect.antt =====
-- The checksum tells any two messages apart that differ in one byte.
use teensy_io.Base.{ℕ, zero, suc, ◌+◌, ◌*◌, ◌%◌, ◌<◌, List, [], ◌∷◌, ◌++◌, All, bit_xor}
use teensy_io.Base.{◌≡◌, ◌≢◌, refl, sym, ap, ◌∙◌, arith}
use teensy_io.Base.Bits.{bit_and_0xffff, bit_and_digit, bit_xor_fields, bit_xor-lt, bit_xor-mod_two}
use teensy_io.Base.Bits.{bit_xor_cancel_left, bit_xor_cancel_right}
use teensy_io.Protocol.Crc.{crc_bit, crc_bits, crc_byte, crc_loop, crc16_ccitt}
use teensy_io.Protocol.Crc.Bounds.{crc_bit-lt, crc_byte-lt, crc_loop-lt}
use teensy_io.Base.{◌-◌, IsByte}
use Prim.Native.Nat.{differ}
use native.Mathlib.Decide.{dec_lt}

-- A register as its top bit and the fifteen below.
crc_bit_clear : (r : ℕ) → r < 32768 → crc_bit r ≡ r * 2
unfolding crc_bit
crc_bit_clear r h = ground (arith, bit_and_digit 15 r 0 h, bit_and_0xffff (r * 2))

crc_bit_set : (r : ℕ) → r < 32768 → crc_bit (32768 + r) ≡ bit_xor (r * 2) 0x1021
unfolding crc_bit
crc_bit_set r h = ground (
  arith,
  bit_and_digit 15 r 1 h,
  bit_xor_fields 16 1 (r * 2) 0x1021,
  bit_xor-lt 16 (r * 2) 0x1021,
  bit_and_0xffff (bit_xor ((32768 + r) * 2) 0x1021),
)

data Register : ℕ → Type 0 where
  clear : (r : ℕ) → r < 32768 → Register r
  set : (r c : ℕ) → r < 32768 → c ≡ 32768 + r → Register c

Register-of : (c : ℕ) → c < 65536 → Register c
Register-of c h = elim (dec_lt c 32768) [
  | yes p ↦ Register.clear c p
  | no p ↦ Register.set (c - 32768) c (omega arith) (omega arith)
]

-- The bit that a round puts at the right end is the one that it took off at the left.
set_is_odd : (r : ℕ) → bit_xor (r * 2) 0x1021 % 2 ≡ 1
set_is_odd r =
    let even : r * 2 % 2 ≡ 0 = omega arith in
    bit_xor-mod_two (r * 2) 0x1021 ∙ ap (λ t. differ t 1) even

clear_ne_set : (r s : ℕ) → r < 32768 → s < 32768 → crc_bit r ≢ crc_bit (32768 + s)
clear_ne_set r s h g e =
    absurd (omega (arith, sym (crc_bit_clear r h) ∙ e ∙ crc_bit_set s g, set_is_odd s))

crc_bit-injective : (c c' : ℕ) → c < 65536 → c' < 65536 → crc_bit c ≡ crc_bit c' → c ≡ c'
crc_bit-injective c c' h h' e = both (Register-of c h) (Register-of c' h') e
  where
    both : {a b : ℕ} → Register a → Register b → crc_bit a ≡ crc_bit b → a ≡ b
    both (Register.clear r p) (Register.clear s q) x =
        omega (arith, sym (crc_bit_clear r p) ∙ x ∙ crc_bit_clear s q)
    both (Register.clear r p) (Register.set s d q g) x = absurd (clear_ne_set r s p q (rw g at x))
    both (Register.set r c p f) (Register.clear s q) x =
        absurd (clear_ne_set s r q p (sym (rw f at x)))
    both (Register.set r c p f) (Register.set s d q g) x =
        let same =
          bit_xor_cancel_right (r * 2) (s * 2) 0x1021
            (sym (crc_bit_set r p) ∙ (rw (f, g) at x) ∙ crc_bit_set s q) in
        omega arith

crc_bits-injective : (n c c' : ℕ) → c < 65536 → c' < 65536 → crc_bits n c ≡ crc_bits n c' → c ≡ c'
unfolding crc_bits
crc_bits-injective zero c c' h h' e = e
crc_bits-injective (suc n) c c' h h' e =
    crc_bit-injective c c' h h'
      (crc_bits-injective n (crc_bit c) (crc_bit c') (crc_bit-lt c) (crc_bit-lt c') e)

crc_byte-injective :
    (c c' b b' : ℕ)
    → c < 65536
    → c' < 65536
    → b < 256
    → b' < 256
    → crc_byte c b ≡ crc_byte c' b'
    → bit_xor c (b * 256) ≡ bit_xor c' (b' * 256)
unfolding crc_byte
crc_byte-injective c c' b b' h h' g g' e =
    crc_bits-injective 8 (bit_xor c (b * 256)) (bit_xor c' (b' * 256))
      (bit_xor-lt 16 c (b * 256) (omega arith) (omega arith))
      (bit_xor-lt 16 c' (b' * 256) (omega arith) (omega arith)) e

-- The same bytes from two registers end in the same register only if they began in the same.
crc_loop-injective :
    (bs : List ℕ) (c c' : ℕ)
    → All IsByte bs
    → c < 65536
    → c' < 65536
    → crc_loop c bs ≡ crc_loop c' bs
    → c ≡ c'
unfolding crc_loop
crc_loop-injective [] c c' hb h h' e = e
crc_loop-injective (b ∷ bs) c c' hb h h' e = bit_xor_cancel_right c c' (b * 256) (
    crc_byte-injective c c' b b h h' hb.0 hb.0 (
      crc_loop-injective bs (crc_byte c b) (crc_byte c' b) hb.1 (crc_byte-lt c b) (crc_byte-lt c' b)
        e))

crc_loop-append : (xs ys : List ℕ) (c : ℕ) → crc_loop c (xs ++ ys) ≡ crc_loop (crc_loop c xs) ys
unfolding crc_loop
crc_loop-append [] ys c = refl
crc_loop-append (x ∷ xs) ys c = crc_loop-append xs ys (crc_byte c x)

-- One place of a message is determined by the other places and the checksum.
crc16_ccitt_determines :
    (front back : List ℕ) (x y : ℕ)
    → All IsByte back
    → x < 256
    → y < 256
    → crc16_ccitt (front ++ x ∷ back) ≡ crc16_ccitt (front ++ y ∷ back)
    → x ≡ y
unfolding crc16_ccitt crc_loop
crc16_ccitt_determines front back x y hb hx hy e =
    let c = crc_loop 0xFFFF front in
    let bounded = crc_loop-lt 0xFFFF front (omega arith) in
    let same =
      crc_loop-injective back (crc_byte c x) (crc_byte c y) hb (crc_byte-lt c x) (crc_byte-lt c y) (
        sym (crc_loop-append front (x ∷ back) 0xFFFF)
        ∙ e
        ∙ crc_loop-append front (y ∷ back) 0xFFFF) in
    omega (
      arith,
      bit_xor_cancel_left c (x * 256) (y * 256)
          (crc_byte-injective c c x y bounded bounded hx hy same),
    )

-- A change of one byte of a message always changes `crc16_ccitt`, wherever the byte stands and
-- whatever the change.
pub crc16_ccitt_detects :
    (front back : List ℕ) (x y : ℕ)
    → All IsByte back
    → x < 256
    → y < 256
    → x ≢ y
    → crc16_ccitt (front ++ x ∷ back) ≢ crc16_ccitt (front ++ y ∷ back)
crc16_ccitt_detects front back x y hb hx hy differ e =
    differ (crc16_ccitt_determines front back x y hb hx hy e)
