-- ===== src/Bits/Digit.antt =====
-- The native `&`, `|` and `^` stand for `bitwise`, a recursion over binary digits on fuel. Each
-- gets one equation for its lowest digit, in which the fuel is gone.
use Prim.Native.Nat.{
  min, max, differ, digits, bitwise, bit_and-bitwise, bit_or-bitwise, bit_xor-bitwise,
}
use disguise_pets.Base.{
  ℕ, zero, suc, ◌+◌, ◌*◌, ◌/◌, ◌%◌, ◌≤◌, bit_and, bit_or, bit_xor, ◌≡◌, refl, arith, ◌<◌,
}

module _ (only_right : ℕ → ℕ) (join : ℕ → ℕ → ℕ) where
  -- Any fuel that covers the left operand gives the same number.
  same_fuel :
      (n m a b : ℕ) → a ≤ n → a ≤ m → digits only_right join n a b ≡ digits only_right join m a b
  same_fuel zero m zero b p q =
      elim m as (λ k. digits only_right join 0 0 b ≡ digits only_right join k 0 b) [
        | zero ↦ refl
        | suc k ↦ refl
      ]
  same_fuel zero m (suc a) b p q = absurd (omega arith)
  same_fuel (suc n) zero zero b p q = refl
  same_fuel (suc n) (suc m) zero b p q = refl
  same_fuel (suc n) zero (suc a) b p q = absurd (omega arith)
  same_fuel (suc n) (suc m) (suc a) b p q =
      let half = suc a / 2 in
      let e = same_fuel n m half (b / 2) (omega arith) (omega arith) in omega (arith, e)

  lowest :
      (a b : ℕ)
      → bitwise only_right join (suc a) b
        ≡ bitwise only_right join (suc a / 2) (b / 2) * 2 + join (suc a % 2) (b % 2)
  lowest a b =
      let half = suc a / 2 in
      omega (arith, same_fuel a half half (b / 2) (omega arith) (omega arith))

pub bit_and_digit : (x y : ℕ) → bit_and x y ≡ min (x % 2) (y % 2) + 2 * bit_and (x / 2) (y / 2)
bit_and_digit zero b = simp bit_and-bitwise (omega arith)
bit_and_digit (suc a) b = simp bit_and-bitwise (omega (arith, lowest (λ _. 0) min a b))

pub bit_or_digit : (x y : ℕ) → bit_or x y ≡ max (x % 2) (y % 2) + 2 * bit_or (x / 2) (y / 2)
bit_or_digit zero b = simp bit_or-bitwise (omega arith)
bit_or_digit (suc a) b = simp bit_or-bitwise (omega (arith, lowest (λ c. c) max a b))

differ_bits : (x y : ℕ) → x < 2 → y < 2 → differ x y ≡ (x + y) % 2
differ_bits zero y p q = omega arith
differ_bits (suc zero) zero p q = refl
differ_bits (suc zero) (suc zero) p q = refl
differ_bits (suc zero) (suc (suc y)) p q = absurd (omega arith)
differ_bits (suc (suc x)) y p q = absurd (omega arith)

pub bit_xor_digit : (a b : ℕ) → bit_xor a b ≡ bit_xor (a / 2) (b / 2) * 2 + (a % 2 + b % 2) % 2
bit_xor_digit zero b = simp bit_xor-bitwise (omega arith)
bit_xor_digit (suc a) b =
    rw (← differ_bits (suc a % 2) (b % 2) (omega arith) (omega arith))
      (simp bit_xor-bitwise (lowest (λ c. c) differ a b))
