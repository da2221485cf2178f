-- ===== src/Crc/Reference.antt =====
-- The checksums by polynomial division, one bit at a time: the specification of the tables.
use cheshire_can.Prelude.{
  ℕ, zero, suc, ◌+◌, ◌*◌, ◌/◌, ◌%◌, ◌^◌, List, [], ◌∷◌, bit_xor, ◌==◌, if◌then◌else◌,
}

-- A register of `suc v` bits takes in one bit: it shifts left, and the polynomial is subtracted when
-- the bit that leaves differs from the bit that comes in.
module _ (v poly : ℕ) where
  unfoldable pub subtract : ℕ → ℕ
  subtract carry = if carry % 2 == 0 then 0 else poly

  unfoldable pub shift_in : ℕ → ℕ → ℕ
  shift_in state bit = bit_xor (2 * state % 2 ^ suc v) (subtract (state / 2 ^ v + bit))

  -- The low `n` bits of a number, the highest first.
  unfoldable pub shift_bits : ℕ → ℕ → ℕ → ℕ
  shift_bits zero value state = state
  shift_bits (suc n) value state = shift_bits n value (shift_in state (value / 2 ^ n))

  unfoldable pub division : ℕ → List ℕ → ℕ
  division state [] = state
  division state (byte ∷ bytes) = division (shift_bits 8 byte state) bytes

-- CRC16-CCITT: x^16 + x^12 + x^5 + 1
unfoldable pub crc16_reference : List ℕ → ℕ
crc16_reference bytes = division 15 0x1021 0 bytes

-- CRC7: x^7 + x^3 + 1
unfoldable pub crc7_reference : List ℕ → ℕ
crc7_reference bytes = division 6 0x09 0 bytes
