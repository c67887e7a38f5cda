-- ===== src/Bits/Align.antt =====
-- The test `((a | b) & (sizeof(uintptr_t) - 1)) == 0` of string.c: both numbers are multiples of 8.
use disguise_pets.Base.{ℕ, ◌/◌, ◌%◌, ◌≤◌, bit_and, bit_or, ◌≡◌, refl, arith, zero, suc}
use disguise_pets.Bits.Digit.{bit_and_digit, bit_or_digit}
use mathlib.Core.WellFounded
use disguise_pets.Base.Order.{lt_wf}

bit_and-zero : (a : ℕ) → bit_and a 0 ≡ 0
bit_and-zero a = WellFounded.induction lt_wf {C = λ k. bit_and k 0 ≡ 0} a λ k ih. go k ih
  where
    go : (k : ℕ) → ((m : ℕ) → suc m ≤ k → bit_and m 0 ≡ 0) → bit_and k 0 ≡ 0
    go zero ih = refl
    go (suc k) ih = omega (arith, bit_and_digit (suc k) 0, ih (suc k / 2) (omega arith))

-- The low three digits of a number, one at a time.
pub bit_and_seven : (a : ℕ) → bit_and a 7 ≡ a % 8
bit_and_seven a = omega (
  arith,
  bit_and_digit a 7,
  bit_and_digit (a / 2) 3,
  bit_and_digit (a / 2 / 2) 1,
  bit_and-zero (a / 2 / 2 / 2),
)

-- The low four digits, as print_hex takes them.
pub bit_and_fifteen : (a : ℕ) → bit_and a 15 ≡ a % 16
bit_and_fifteen a = omega (arith, bit_and_digit a 15, bit_and_seven (a / 2))

pub bit_and_255 : (a : ℕ) → bit_and a 255 ≡ a % 256
bit_and_255 a = omega (
  arith,
  bit_and_digit a 255,
  bit_and_digit (a / 2) 127,
  bit_and_digit (a / 2 / 2) 63,
  bit_and_digit (a / 2 / 2 / 2) 31,
  bit_and_fifteen (a / 2 / 2 / 2 / 2),
)

pub aligned_both : (a b : ℕ) → bit_and (bit_or a b) 7 ≡ 0 → (a % 8 ≡ 0) × (b % 8 ≡ 0)
aligned_both a b h = omega (
  arith,
  bit_and_seven (bit_or a b),
  bit_or_digit a b,
  bit_or_digit (a / 2) (b / 2),
  bit_or_digit (a / 2 / 2) (b / 2 / 2),
)
