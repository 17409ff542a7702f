-- ===== src/Protocol/Crc/Bounds.antt =====
-- A checksum fits sixteen bits.
use teensy_io.Base.{ℕ, zero, suc, ◌*◌, ◌<◌, List, [], ◌∷◌, bit_xor, arith}
use teensy_io.Base.Bits.{bit_and_0xffff}
use teensy_io.Protocol.Crc.{crc_bit, crc_bits, crc_byte, crc_loop, crc16_ccitt}

pub crc_bit-lt : (crc : ℕ) → crc_bit crc < 65536
unfolding crc_bit
crc_bit-lt crc = ground (arith, bit_and_0xffff (crc * 2), bit_and_0xffff (bit_xor (crc * 2) 0x1021))

crc_bits-lt : (n crc : ℕ) → crc_bits (suc n) crc < 65536
unfolding crc_bits
crc_bits-lt zero crc = crc_bit-lt crc
crc_bits-lt (suc n) crc = crc_bits-lt n (crc_bit crc)

pub crc_byte-lt : (crc byte : ℕ) → crc_byte crc byte < 65536
unfolding crc_byte
crc_byte-lt crc byte = crc_bits-lt 7 (bit_xor crc (byte * 256))

pub crc_loop-lt : (crc : ℕ) (data' : List ℕ) → crc < 65536 → crc_loop crc data' < 65536
unfolding crc_loop
crc_loop-lt crc [] h = h
crc_loop-lt crc (byte ∷ data') h = crc_loop-lt (crc_byte crc byte) data' (crc_byte-lt crc byte)

pub crc16_ccitt-lt : (data' : List ℕ) → crc16_ccitt data' < 65536
unfolding crc16_ccitt
crc16_ccitt-lt data' = crc_loop-lt 0xFFFF data' (omega arith)
