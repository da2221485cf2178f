-- ===== src/Word/Digits.antt =====
-- The binary digits of a number: the fuel of the native bit operations, and halving.
use Prim.Native.Nat.{digits, bitwise}
use native.Mathlib.Nat.{pow-succ', div-div-eq-div-mul, div-add-mod'}
use cheshire_can.Prelude.{
  ℕ, zero, suc, ◌+◌, ◌*◌, ◌/◌, ◌%◌, ◌^◌, ◌≤◌, ◌≡◌, ◌⊎◌, inl, inr, refl, sym, ap, ◌∙◌, arith,
}

cut : (n m : ℕ) → n ≤ suc m → (n ≡ suc m) ⊎ (n ≤ m)
cut n m h = ground arith

module _ (z : ℕ → ℕ) (f : ℕ → ℕ → ℕ) where
  -- A digit beyond those of the first number changes nothing, and so do any number of them.
  spare_digit : (x n y : ℕ) → x ≤ n → digits z f (suc n) x y ≡ digits z f n x y
  spare_digit zero zero y h = refl
  spare_digit zero (suc n) y h = refl
  spare_digit (suc x) zero y h = absurd (omega arith)
  spare_digit (suc x) (suc n) y h =
      ap (λ t. t * 2 + f (suc x % 2) (y % 2)) (spare_digit (suc x / 2) n (y / 2) (omega arith))

  spare_digits : (m n x y : ℕ) → x ≤ n → n ≤ m → digits z f m x y ≡ digits z f n x y
  spare_digits zero zero x y h le = refl
  spare_digits zero (suc n) x y h le = absurd (omega arith)
  spare_digits (suc m) n x y h le = elim (cut n m le) [
    | inl same ↦ rw same refl
    | inr less ↦ spare_digit x m y (omega arith) ∙ spare_digits m n x y h less
  ]

  -- A bit operation goes digit by digit, if its value at zero does.
  pub bitwise_digit :
      ((y : ℕ) → z y ≡ 2 * z (y / 2) + f 0 (y % 2))
      → (x y : ℕ) → bitwise z f x y ≡ 2 * bitwise z f (x / 2) (y / 2) + f (x % 2) (y % 2)
  bitwise_digit base zero y = base y
  bitwise_digit base (suc x) y =
      let fits = spare_digits x (suc x / 2) (suc x / 2) (y / 2) (omega arith) (omega arith) in
      omega (arith, fits)

pub halve-div : (k a : ℕ) → a / 2 ^ suc k ≡ a / 2 / 2 ^ k
halve-div k a = rw pow-succ' (sym (div-div-eq-div-mul a 2 (2 ^ k)))

pub doubled_power : (q k : ℕ) → q * 2 ^ suc k ≡ 2 * (q * 2 ^ k)
doubled_power q k = omega (arith, ap (λ (t : ℕ). q * t) (pow-succ' 2 k))

pub mod-halve : (k a : ℕ) → a % 2 ^ suc k ≡ a / 2 % 2 ^ k * 2 + a % 2
mod-halve k a = ground (
  arith,
  div-add-mod' a (2 ^ suc k),
  div-add-mod' (a / 2) (2 ^ k),
  halve-div k a,
  doubled_power (a / 2 / 2 ^ k) k,
)
