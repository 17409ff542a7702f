-- ===== src/Protocol/Crc.antt =====
-- `crc16_ccitt` of protocol/packet.py.
pub mod Bounds
pub mod Detect
use teensy_io.Base.{ℕ, zero, suc, ◌*◌, List, [], ◌∷◌, bit_and, bit_xor, ◌==◌, if◌then◌else◌}

-- One round of the inner loop: `crc << 1` is `crc * 2`.
unfoldable pub crc_bit : ℕ → ℕ
crc_bit crc =
    if bit_and crc 0x8000 == 0
    then bit_and (crc * 2) 0xFFFF
    else bit_and (bit_xor (crc * 2) 0x1021) 0xFFFF

-- `for _ in range(n)`
unfoldable pub crc_bits : ℕ → ℕ → ℕ
unfolding crc_bit
crc_bits zero crc = crc
crc_bits (suc n) crc = crc_bits n (crc_bit crc)

-- One round of the outer loop: `crc ^= byte << 8`, then eight rounds of the inner one.
unfoldable pub crc_byte : ℕ → ℕ → ℕ
unfolding crc_bits
crc_byte crc byte = crc_bits 8 (bit_xor crc (byte * 256))

unfoldable pub crc_loop : ℕ → List ℕ → ℕ
unfolding crc_byte
crc_loop crc [] = crc
crc_loop crc (byte ∷ data') = crc_loop (crc_byte crc byte) data'

unfoldable pub crc16_ccitt : List ℕ → ℕ
unfolding crc_loop
crc16_ccitt data' = crc_loop 0xFFFF data'
