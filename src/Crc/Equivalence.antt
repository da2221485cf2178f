-- ===== src/Crc/Equivalence.antt =====
-- The table-driven checksums against polynomial division, one bit at a time.
use native.Mathlib.Nat.{mod-eq_of_lt}
use cheshire_can.Prelude.{
  ℕ, ◌+◌, ◌*◌, ◌/◌, ◌%◌, ◌^◌, ◌<◌, List, [], ◌∷◌, bit_xor, ◌≡◌, refl, ap, ◌&&◌, Bool, true, arith,
  ◌==◌, ltb, holds_below, holds_below_sound, get_or,
}
use cheshire_can.Word.{IsBytes}
use cheshire_can.Word.Mask.{bit_and-ones, bit_and_shifted, bit_or_disjoint}
use cheshire_can.Word.Xor.{bit_xor-zero, zero-bit_xor, bit_xor_disjoint, bit_xor-mod, bit_xor-lt}
use cheshire_can.Crc.{crc16_lookup, crc16_round, crc16_loop, crc16, swap16}
use cheshire_can.Crc.Reference.{shift_bits, shift_in, subtract, division, crc16_reference}
use cheshire_can.Crc.Linear.{shift_bits-xor}

-- What the table and the register of 16 bits have to do with one another at a byte.
abbrev entry_fits : ℕ → Bool
entry_fits x =
    (get_or crc16_lookup x 0 == shift_bits 15 0x1021 8 x 0)
    && (get_or crc16_lookup x 0 == shift_bits 15 0x1021 8 0 (x * 2 ^ 8))
    && (shift_bits 15 0x1021 8 0 x == x * 2 ^ 8)
    && ltb (get_or crc16_lookup x 0) (2 ^ 16)

table_fits : holds_below entry_fits 256 ≡ true
unfolding holds_below crc16_lookup shift_bits shift_in subtract
table_fits = refl

record EntryFits (x : ℕ) : Type 0 where
  by_byte : get_or crc16_lookup x 0 ≡ shift_bits 15 0x1021 8 x 0
  by_state : get_or crc16_lookup x 0 ≡ shift_bits 15 0x1021 8 0 (x * 2 ^ 8)
  low_byte : shift_bits 15 0x1021 8 0 x ≡ x * 2 ^ 8
  bounded : get_or crc16_lookup x 0 < 2 ^ 16

entry-EntryFits : (x : ℕ) → x < 256 → EntryFits x
entry-EntryFits x h =
    let e : entry_fits x ≡ true = holds_below_sound entry_fits 256 x h table_fits in ground arith

abbrev feed : ℕ → ℕ → ℕ
feed d s = shift_bits 15 0x1021 8 d s

abbrev entry : ℕ → ℕ
entry x = get_or crc16_lookup x 0

-- The byte that comes in meets the upper byte of the state before the table is read.
entry-xor :
    (d h : ℕ) → d < 256 → h < 256 → entry (bit_xor d h) ≡ bit_xor (entry d) (feed 0 (h * 2 ^ 8))
entry-xor d h hd hh = cc (
  (entry-EntryFits (bit_xor d h) (bit_xor-lt 8 d h hd hh)).by_byte,
  (entry-EntryFits d hd).by_byte,
  (entry-EntryFits h hh).by_byte,
  (entry-EntryFits h hh).by_state,
  shift_bits-xor 15 0x1021 8 d h 0 0,
  bit_xor-zero 0,
)

-- The upper byte of a state and the lower one go through the register side by side.
feed-split :
    (d h l : ℕ)
    → d < 256
    → h < 256
    → l < 256
    → feed d (h * 2 ^ 8 + l) ≡ bit_xor (entry (bit_xor d h)) (l * 2 ^ 8)
feed-split d h l hd hh hl = cc (
  bit_xor_disjoint 8 h l hl,
  bit_xor-zero d,
  shift_bits-xor 15 0x1021 8 d 0 (h * 2 ^ 8) l,
  zero-bit_xor (h * 2 ^ 8),
  shift_bits-xor 15 0x1021 8 d 0 0 (h * 2 ^ 8),
  (entry-EntryFits d hd).by_byte,
  (entry-EntryFits l hl).low_byte,
  entry-xor d h hd hh,
)

-- One round, from a state that fits 16 bits.
crc16_round-feed : (s d : ℕ) → s < 2 ^ 16 → d < 2 ^ 8 → crc16_round s d ≡ feed d s
unfolding crc16_round
crc16_round-feed s d hs hd =
    let h : ℕ = s / 2 ^ 8 in
    let l : ℕ = s % 2 ^ 8 in
    let fits : bit_xor d h < 2 ^ 8 = bit_xor-lt 8 d h hd (omega arith) in
    let whole : s ≡ h * 2 ^ 8 + l = omega arith in
    let shifted : s * 2 ^ 8 % 2 ^ 16 ≡ l * 2 ^ 8 = omega arith in
    rw (bit_and-ones 8 (bit_xor d h), bit_and-ones 16, mod-eq_of_lt fits)
      (cc (
        bit_xor-mod 16 (entry (bit_xor d h)) (s * 2 ^ 8),
        mod-eq_of_lt (entry-EntryFits (bit_xor d h) fits).bounded,
        shifted,
        ap (feed d) whole,
        feed-split d h l hd (omega arith) (omega arith),
      ))

crc16_round-lt : (s d : ℕ) → crc16_round s d < 2 ^ 16
unfolding crc16_round
crc16_round-lt s d = rw (bit_and-ones 16) (omega arith)

crc16_loop-division :
    (s : ℕ) (bytes : List ℕ)
    → s < 2 ^ 16
    → IsBytes bytes
    → (crc16_loop s bytes ≡ division 15 0x1021 s bytes) × (crc16_loop s bytes < 2 ^ 16)
unfolding crc16_loop division
crc16_loop-division s [] hs hb = (refl, hs)
crc16_loop-division s (d ∷ bytes) hs hb =
    rw (← crc16_round-feed s d hs hb.0)
      (crc16_loop-division (crc16_round s d) bytes (crc16_round-lt s d) hb.1)

swap16_lem : (s : ℕ) → s < 2 ^ 16 → swap16 s ≡ s % 256 * 256 + s / 256
unfolding swap16
swap16_lem s h =
    let upper : s / 2 ^ 8 < 2 ^ 8 = omega arith in
    let down : s / 2 ^ 8 % 2 ^ 8 * 2 ^ 8 / 2 ^ 8 ≡ s / 2 ^ 8 = omega arith in
    rw (bit_and-ones 8, bit_and_shifted 8 s 0xff, bit_and-ones 8, down)
      (omega (arith, bit_or_disjoint 8 (s % 2 ^ 8) (s / 2 ^ 8) upper))

-- `__spi_sdcard_crc16` of any bytes is the remainder of CRC16-CCITT, computed one bit at a time from a
-- register of zeros, with its two bytes exchanged, and it fits 16 bits.
pub crc16-reference :
    (bytes : List ℕ)
    → IsBytes bytes
    → (crc16 bytes ≡ crc16_reference bytes % 256 * 256 + crc16_reference bytes / 256)
      × (crc16 bytes < 2 ^ 16)
unfolding crc16 crc16_reference
crc16-reference bytes hb =
    ground (arith, crc16_loop-division 0 bytes (omega arith) hb, swap16_lem (crc16_loop 0 bytes))
