-- ===== src/I2c/Control.antt =====
-- The control byte of the EEPROM, in which the block and the chip are meant to be selected.
use cheshire_can.Prelude.{
  ℕ, zero, suc, ◌+◌, ◌*◌, ◌/◌, ◌%◌, ◌^◌, ◌<◌, ◌≡◌, refl, ap, ◌∙◌, arith, bit_and, bit_or,
}
use cheshire_can.Word.{u8, ◌>>>◌}
use cheshire_can.Word.Mask.{bit_and_shifted, bit_or_disjoint, bit_or_comm, bit_or_digit}
use cheshire_can.Word.Digits.{doubled_power, mod-halve}
use native.Mathlib.Nat.{mod-one}
use cheshire_can.I2c.{ctrl_waddr}

byte_lem : (k a q : ℕ) → bit_or a (q * 2 ^ k) % 2 ^ k ≡ a % 2 ^ k
byte_lem zero a q = simp mod-one refl
byte_lem (suc k) a q = ground (
  arith,
  byte_lem k (a / 2) q,
  bit_or_digit a (q * 2 ^ suc k),
  doubled_power q k,
  mod-halve k a,
  mod-halve k (bit_or a (q * 2 ^ suc k)),
)

-- Fields above the low byte do not reach it.
upper_fields : (p q r : ℕ) → r < 2 ^ 8 → bit_or (bit_or r (p * 2 ^ 8)) (q * 2 ^ 8) % 2 ^ 8 ≡ r
upper_fields p q r small =
    let first : bit_or r (p * 2 ^ 8) ≡ p * 2 ^ 8 + r =
      bit_or_comm r (p * 2 ^ 8) ∙ bit_or_disjoint 8 p r small in
    rw first (byte_lem 8 (p * 2 ^ 8 + r) q ∙ omega arith)

-- The control byte that is sent is the same for every address: no bit of the address selects a block or a
-- chip.
pub ctrl_waddr-byte : (addr : ℕ) → u8 (ctrl_waddr addr) ≡ 0xa0
ctrl_waddr-byte addr =
    let x : ℕ = bit_and (addr / 2 ^ 16) 1 in
    let y : ℕ = bit_and (addr / 2 ^ 20) 17 in
    let block : bit_and addr 0x10000 >>> 1 ≡ x * 2 ^ 7 * 2 ^ 8 =
      ap (λ t. t >>> 1) (bit_and_shifted 16 addr 1) ∙ omega arith in
    let chip : bit_and addr 0x1100000 >>> 4 ≡ y * 2 ^ 8 * 2 ^ 8 =
      ap (λ t. t >>> 4) (bit_and_shifted 20 addr 17) ∙ omega arith in
    rw (block, chip) (upper_fields (x * 2 ^ 7) (y * 2 ^ 8) 0xa0 (omega arith))
