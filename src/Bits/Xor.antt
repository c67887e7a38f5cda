-- ===== src/Bits/Xor.antt =====
-- `^` is a commutative, associative operation in which 0 is neutral and each number undoes
-- itself, and it stays within a width.
use mathlib.Core.WellFounded
use native.Mathlib.Nat.{pow-suc}
use disguise_pets.Base.{ℕ, zero, suc, ◌+◌, ◌/◌, ◌%◌, ◌^◌, ◌<◌, bit_xor, ◌≡◌, refl, arith, sym, ◌∙◌}
use disguise_pets.Base.Order.{lt_wf}
use disguise_pets.Bits.Digit.{bit_xor_digit}

-- Induction on a number by its half.
by_half {ℓ} : (P : ℕ → Type ℓ) → P 0 → ((n : ℕ) → P (suc n / 2) → P (suc n)) → (n : ℕ) → P n
by_half P base step n = WellFounded.induction lt_wf {C = P} n go
  where
    go : (n : ℕ) → ((m : ℕ) → m < n → P m) → P n
    go zero ih = base
    go (suc n) ih = step n (ih (suc n / 2) (omega arith))

pub zero-bit_xor : (b : ℕ) → bit_xor 0 b ≡ b
zero-bit_xor = by_half (λ b. bit_xor 0 b ≡ b) refl λ b ih. omega (arith, bit_xor_digit 0 (suc b))

pub bit_xor-zero : (a : ℕ) → bit_xor a 0 ≡ a
bit_xor-zero = by_half (λ a. bit_xor a 0 ≡ a) refl λ a ih. omega (arith, bit_xor_digit (suc a) 0)

half-bit_xor : (a b : ℕ) → bit_xor a b / 2 ≡ bit_xor (a / 2) (b / 2)
half-bit_xor a b = omega (arith, bit_xor_digit a b)

parity-bit_xor : (a b : ℕ) → bit_xor a b % 2 ≡ (a % 2 + b % 2) % 2
parity-bit_xor a b = omega (arith, bit_xor_digit a b)

-- Two numbers with the same half and the same lowest digit are equal.
eq_of_half : (a b : ℕ) → a / 2 ≡ b / 2 → a % 2 ≡ b % 2 → a ≡ b
eq_of_half a b p q = omega arith

pub bit_xor_comm : (a b : ℕ) → bit_xor a b ≡ bit_xor b a
bit_xor_comm =
    by_half (λ a. (b : ℕ) → bit_xor a b ≡ bit_xor b a) (λ b. zero-bit_xor b ∙ sym (bit_xor-zero b))
      λ a ih b. omega (arith, bit_xor_digit (suc a) b, bit_xor_digit b (suc a), ih (b / 2))

pub bit_xor_self : (a : ℕ) → bit_xor a a ≡ 0
bit_xor_self =
    by_half (λ a. bit_xor a a ≡ 0) refl λ a ih. omega (arith, bit_xor_digit (suc a) (suc a))

pub bit_xor_assoc : (a b c : ℕ) → bit_xor (bit_xor a b) c ≡ bit_xor a (bit_xor b c)
bit_xor_assoc =
    by_half (λ a. (b c : ℕ) → bit_xor (bit_xor a b) c ≡ bit_xor a (bit_xor b c))
      (λ b c. rw (zero-bit_xor b) (sym (zero-bit_xor (bit_xor b c))))
      λ a ih b c.
        let x = suc a in
        eq_of_half _ _ (simp half-bit_xor (ih (b / 2) (c / 2))) (
          omega (
            arith,
            parity-bit_xor (bit_xor x b) c,
            parity-bit_xor x b,
            parity-bit_xor x (bit_xor b c),
            parity-bit_xor b c,
          ))

-- Masking twice with the same number gives the first number back.
pub bit_xor_cancel : (a b : ℕ) → bit_xor (bit_xor a b) b ≡ a
bit_xor_cancel a b = rw (bit_xor_assoc a b b, bit_xor_self b) (bit_xor-zero a)

pub bit_xor-lt : (k a b : ℕ) → a < 2 ^ k → b < 2 ^ k → bit_xor a b < 2 ^ k
bit_xor-lt zero zero zero p q = omega arith
bit_xor-lt zero zero (suc b) p q = absurd (omega arith)
bit_xor-lt zero (suc a) b p q = absurd (omega arith)
bit_xor-lt (suc k) a b p q =
    let e = pow-suc 2 k in
    omega (arith, bit_xor_digit a b, e, bit_xor-lt k (a / 2) (b / 2) (omega arith) (omega arith))
