-- ===== src/Word/Mask.antt =====
-- Masks and disjoint fields: `&` with low ones is a remainder, `|` of disjoint fields is a sum.
use Prim.Native.Nat.{bit_and-bitwise, bit_or-bitwise}
use native.Mathlib.Nat.{le_refl, one-le-pow, pow-succ', div-one, mod-one}
use cheshire_can.Prelude.{
  ℕ, zero, suc, ◌+◌, ◌-◌, ◌*◌, ◌/◌, ◌%◌, ◌^◌, ◌≤◌, ◌<◌, min, max, bit_and, bit_or, ◌≡◌, refl, ◌∙◌,
  arith,
}
use cheshire_can.Word.Digits.{bitwise_digit, halve-div, mod-halve, doubled_power}

-- Both operations by the lowest digit.
pub bit_and_digit : (x y : ℕ) → bit_and x y ≡ 2 * bit_and (x / 2) (y / 2) + min (x % 2) (y % 2)
bit_and_digit x y = simp bit_and-bitwise (bitwise_digit (λ b. zero) min (λ y. omega arith) x y)

pub bit_or_digit : (x y : ℕ) → bit_or x y ≡ 2 * bit_or (x / 2) (y / 2) + max (x % 2) (y % 2)
bit_or_digit x y = simp bit_or-bitwise (bitwise_digit (λ b. b) max (λ y. omega arith) x y)

bit_and-zero_below : (n a : ℕ) → a ≤ n → bit_and a 0 ≡ 0
bit_and-zero_below zero zero h = refl
bit_and-zero_below zero (suc a) h = absurd (omega arith)
bit_and-zero_below (suc n) zero h = refl
bit_and-zero_below (suc n) (suc a) h =
    omega (arith, bit_and_digit (suc a) 0, bit_and-zero_below n (suc a / 2) (omega arith))

pub bit_and-zero : (a : ℕ) → bit_and a 0 ≡ 0
bit_and-zero a = bit_and-zero_below a a (le_refl a)

bit_or-zero_below : (n a : ℕ) → a ≤ n → bit_or a 0 ≡ a
bit_or-zero_below zero zero h = refl
bit_or-zero_below zero (suc a) h = absurd (omega arith)
bit_or-zero_below (suc n) zero h = refl
bit_or-zero_below (suc n) (suc a) h =
    omega (arith, bit_or_digit (suc a) 0, bit_or-zero_below n (suc a / 2) (omega arith))

pub bit_or-zero : (a : ℕ) → bit_or a 0 ≡ a
bit_or-zero a = bit_or-zero_below a a (le_refl a)

-- A mask of `k` low ones is the remainder by `2 ^ k`.
pub bit_and-ones : (k a : ℕ) → bit_and a (2 ^ k - 1) ≡ a % 2 ^ k
bit_and-ones zero a = rw (bit_and-zero a) (simp mod-one)
bit_and-ones (suc k) a = ground (
  arith,
  bit_and_digit a (2 ^ suc k - 1),
  mod-halve k a,
  pow-succ' 2 k,
  one-le-pow k 2,
  bit_and-ones k (a / 2),
)

-- `q << k | r` is a sum where `r` fits `k` digits.
pub bit_or_disjoint : (k q r : ℕ) → r < 2 ^ k → bit_or (q * 2 ^ k) r ≡ q * 2 ^ k + r
bit_or_disjoint zero q r h = ground (arith, bit_or-zero q)
bit_or_disjoint (suc k) q r h = ground (
  arith,
  bit_or_disjoint k q (r / 2),
  pow-succ' 2 k,
  doubled_power q k,
  bit_or_digit (q * 2 ^ suc k) r,
)

bit_or_comm_below : (n a b : ℕ) → a ≤ n → bit_or a b ≡ bit_or b a
bit_or_comm_below zero zero b h = omega (arith, bit_or-bitwise 0 b, bit_or-zero b)
bit_or_comm_below zero (suc a) b h = absurd (omega arith)
bit_or_comm_below (suc n) zero b h = omega (arith, bit_or-bitwise 0 b, bit_or-zero b)
bit_or_comm_below (suc n) (suc a) b h = omega (
  arith,
  bit_or_digit (suc a) b,
  bit_or_digit b (suc a),
  bit_or_comm_below n (suc a / 2) (b / 2) (omega arith),
)

pub bit_or_comm : (a b : ℕ) → bit_or a b ≡ bit_or b a
bit_or_comm a b = bit_or_comm_below a a b (le_refl a)

bit_and_even : (a b : ℕ) → bit_and a (b * 2) ≡ bit_and (a / 2) b * 2
bit_and_even a b = bit_and_digit a (b * 2) ∙ ground (arith, half b)
  where
    half : (x : ℕ) → x * 2 / 2 ≡ x
    half x = omega arith

-- A mask whose low `k` digits are zeros takes the digits above them.
pub bit_and_shifted : (k a b : ℕ) → bit_and a (b * 2 ^ k) ≡ bit_and (a / 2 ^ k) b * 2 ^ k
bit_and_shifted zero a b = ground (arith, div-one a)
bit_and_shifted (suc k) a b = ground (
  arith,
  doubled_power b k,
  doubled_power (bit_and (a / 2 ^ suc k) b) k,
  halve-div k a,
  bit_and_even a (b * 2 ^ k),
  bit_and_shifted k (a / 2) b,
)
