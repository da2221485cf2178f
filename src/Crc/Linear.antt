-- ===== src/Crc/Linear.antt =====
-- The register of `Crc/Reference` is linear: exclusive or of states and inputs gives exclusive or of
-- results.
use cheshire_can.Prelude.{ℕ, zero, suc, ◌+◌, ◌*◌, ◌/◌, ◌%◌, ◌^◌, bit_xor, ◌≡◌, refl, arith}
use cheshire_can.Word.Xor.{
  bit_xor-zero, zero-bit_xor, bit_xor_self, bit_xor_middle, bit_xor-div, bit_xor-mod,
  bit_xor-parity, bit_xor_double,
}
use cheshire_can.Crc.Reference.{subtract, shift_in, shift_bits}

module _ (v poly : ℕ) where
  subtract-xor :
      (a b c : ℕ)
      → c % 2 ≡ (a + b) % 2
      → subtract v poly c ≡ bit_xor (subtract v poly a) (subtract v poly b)
  unfolding subtract
  subtract-xor a b c h =
      ground (arith, bit_xor-zero 0, bit_xor-zero poly, zero-bit_xor poly, bit_xor_self poly)

  doubled :
      (s t : ℕ) → 2 * bit_xor s t % 2 ^ suc v ≡ bit_xor (2 * s % 2 ^ suc v) (2 * t % 2 ^ suc v)
  doubled s t = rw (bit_xor_double s t) at (bit_xor-mod (suc v) (2 * s) (2 * t))

  carried :
      (s t b c e : ℕ)
      → e % 2 ≡ (b + c) % 2
      → (bit_xor s t / 2 ^ v + e) % 2 ≡ (s / 2 ^ v + b + (t / 2 ^ v + c)) % 2
  carried s t b c e h = omega (arith, bit_xor-div v s t, bit_xor-parity (s / 2 ^ v) (t / 2 ^ v))

  pub shift_in-xor :
      (s t b c e : ℕ)
      → e % 2 ≡ (b + c) % 2
      → shift_in v poly (bit_xor s t) e ≡ bit_xor (shift_in v poly s b) (shift_in v poly t c)
  unfolding shift_in
  shift_in-xor s t b c e h =
      rw
        (
          doubled s t,
          subtract-xor (s / 2 ^ v + b) (t / 2 ^ v + c) (bit_xor s t / 2 ^ v + e)
              (carried s t b c e h),
        )
        (bit_xor_middle _ _ _ _)

  pub shift_bits-xor :
      (n d e s t : ℕ)
      → shift_bits v poly n (bit_xor d e) (bit_xor s t)
        ≡ bit_xor (shift_bits v poly n d s) (shift_bits v poly n e t)
  unfolding shift_bits
  shift_bits-xor zero d e s t = refl
  shift_bits-xor (suc n) d e s t =
      rw
        (shift_in-xor s t (d / 2 ^ n) (e / 2 ^ n) (bit_xor d e / 2 ^ n)
          (omega (arith, bit_xor-div n d e, bit_xor-parity (d / 2 ^ n) (e / 2 ^ n))))
        (shift_bits-xor n d e (shift_in v poly s (d / 2 ^ n)) (shift_in v poly t (e / 2 ^ n)))
