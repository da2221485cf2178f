-- ===== src/Crc/Seven.antt =====
-- What the 7-bit checksum of sw/lib/hal/spi_sdcard.c is: the table holds checksums that are already shifted
-- up by one, and the loop shifts the state up by one more before every byte.
use native.Mathlib.Nat.{mod-eq_of_lt}
use cheshire_can.Prelude.{
  ℕ, ◌*◌, ◌%◌, ◌^◌, ◌<◌, List, [], ◌∷◌, bit_xor, ◌≡◌, refl, ◌∙◌, ◌&&◌, Bool, true, arith, ◌==◌,
  ==_iff, holds_below, holds_below_sound, get_or, ltb,
}
use cheshire_can.Word.{IsBytes}
use cheshire_can.Word.Mask.{bit_and-ones}
use cheshire_can.Word.Xor.{bit_xor-zero, zero-bit_xor, bit_xor-mod, bit_xor-lt}
use cheshire_can.Crc.{crc7_lookup, crc7_round, crc7_loop, crc7}
use cheshire_can.Crc.Reference.{shift_bits, shift_in, subtract}
use cheshire_can.Crc.Linear.{shift_bits-xor}

-- Division by the polynomial of CRC7 one bit at a time, in which the register of seven bits is shifted up
-- by one, and loses its upper bit, in front of every byte.
unfoldable pub skewed_division : ℕ → List ℕ → ℕ
skewed_division state [] = state
skewed_division state (byte ∷ bytes) =
    skewed_division (shift_bits 6 0x09 8 byte (2 * state % 2 ^ 7)) bytes

abbrev entry_fits : ℕ → Bool
entry_fits x =
    (get_or crc7_lookup x 0 == 2 * shift_bits 6 0x09 8 x 0) && ltb (shift_bits 6 0x09 8 x 0) (2 ^ 7)

table_fits : holds_below entry_fits 256 ≡ true
unfolding holds_below crc7_lookup shift_bits shift_in subtract
table_fits = refl

-- A state of the register is a byte that comes in, shifted up by one.
abbrev state_fits : ℕ → Bool
state_fits t = shift_bits 6 0x09 8 (2 * t) 0 == shift_bits 6 0x09 8 0 t

states_fit : holds_below state_fits 128 ≡ true
unfolding holds_below shift_bits shift_in subtract
states_fit = refl

state_lem : (t : ℕ) → t < 128 → shift_bits 6 0x09 8 (2 * t) 0 ≡ shift_bits 6 0x09 8 0 t
state_lem t h = (==_iff _ _).0 (holds_below_sound state_fits 128 t h states_fit)

abbrev feed : ℕ → ℕ → ℕ
feed d t = shift_bits 6 0x09 8 d t

entry_lem : (x : ℕ) → x < 256 → (get_or crc7_lookup x 0 ≡ 2 * feed x 0) × (feed x 0 < 2 ^ 7)
entry_lem x h =
    let e : entry_fits x ≡ true = holds_below_sound entry_fits 256 x h table_fits in ground arith

feed-split : (d t : ℕ) → t < 128 → feed (bit_xor d (2 * t)) 0 ≡ feed d t
feed-split d t h = cc (
  shift_bits-xor 6 0x09 8 d (2 * t) 0 0,
  shift_bits-xor 6 0x09 8 d 0 0 t,
  state_lem t h,
  bit_xor-zero 0,
  bit_xor-zero d,
  zero-bit_xor t,
)

crc7_round_lem :
    (s d : ℕ)
    → d < 2 ^ 8
    → (crc7_round (2 * s) d ≡ 2 * feed d (2 * s % 2 ^ 7)) × (feed d (2 * s % 2 ^ 7) < 2 ^ 7)
unfolding crc7_round
crc7_round_lem s d hd =
    let t : ℕ = 2 * s % 2 ^ 7 in
    let y : ℕ = bit_xor d (2 * t) in
    let below : y < 256 = bit_xor-lt 8 d (2 * t) hd (omega arith) in
    let shifted : 2 * s * 2 ^ 1 % 2 ^ 8 ≡ 2 * t = omega arith in
    let index : bit_xor d (2 * s * 2 ^ 1) % 2 ^ 8 ≡ y =
      bit_xor-mod 8 d (2 * s * 2 ^ 1) ∙ rw (mod-eq_of_lt hd, shifted) refl in
    let (entry, small) = entry_lem y below in
    let split : feed y 0 ≡ feed d t = feed-split d t (omega arith) in
    rw (bit_and-ones 8 (bit_xor d (2 * s * 2 ^ 1)), index, ← split) (entry, small)

crc7_loop_lem :
    (s : ℕ) (bytes : List ℕ) → IsBytes bytes → crc7_loop (2 * s) bytes ≡ 2 * skewed_division s bytes
unfolding crc7_loop skewed_division
crc7_loop_lem s [] hb = refl
crc7_loop_lem s (d ∷ bytes) hb =
    rw (crc7_round_lem s d hb.0).0
      (crc7_loop_lem (shift_bits 6 0x09 8 d (2 * s % 2 ^ 7)) bytes hb.1)

-- `__spi_sdcard_crc7` of any bytes is twice the remainder by the polynomial of CRC7 that comes of shifting
-- the register up by one more, with its upper bit lost, in front of every byte.
pub crc7-skewed_division :
    (bytes : List ℕ) → IsBytes bytes → crc7 bytes ≡ 2 * skewed_division 0 bytes
unfolding crc7
crc7-skewed_division bytes hb = crc7_loop_lem 0 bytes hb
