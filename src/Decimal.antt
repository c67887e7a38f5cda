-- ===== src/Decimal.antt =====
-- ltoa of vsim/fpga-auth/eapp/fpga-auth.c, which vsim/fpga-provision/eapp/fpga-provision.c repeats:
-- a `long` in decimal, as a C string in a buffer. A write outside of the buffer is a fault, and so is
-- the negation of the least `long`, which overflows.
pub mod Digits
pub mod Reversal
pub mod Laws
mod Tests
use disguise_pets.Base.{
  ℕ, zero, suc, ◌+◌, ◌-◌, ◌*◌, ◌/◌, ◌%◌, ◌^◌, Bool, true, false, List, Option, none, some,
  get_elem?, ltb, leb, ◌==◌, if◌then◌else◌, ◌>>=◌,
}
use disguise_pets.Base.Arrays.{put}
use disguise_pets.Base.Int.{ℤ, pos, negsuc}

-- while (num != 0) { str[i++] = (num % 10) + '0'; num = num / 10; }
-- The result is i and the buffer.
pub write_digits : (fuel num i : ℕ) → List ℕ → Option (ℕ × List ℕ)
write_digits zero num i str = none
write_digits (suc fuel) num i str = elim (num == 0) [
  | true ↦ some (i, str)
  | false ↦ put str i (num % 10 + b'0') >>= λ str'. write_digits fuel (num / 10) (i + 1) str'
]

-- while (start < end) { swap str[start] and str[end]; start++; end--; }
pub swap_ends : (fuel start end : ℕ) → List ℕ → Option (List ℕ)
swap_ends zero start end str = none
swap_ends (suc fuel) start end str = elim (ltb start end) [
  | true ↦ get_elem? str start >>= λ temp. get_elem? str end >>= λ last.
      put str start last >>= λ str'.
      put str' end temp >>= λ str''. swap_ends fuel (start + 1) (end - 1) str''
  | false ↦ some str
]

-- if (is_negative) str[i++] = '-';
pub write_sign : Bool → ℕ → List ℕ → Option (ℕ × List ℕ)
write_sign true i str = do str ← put str i b'-'; some (i + 1, str)
write_sign false i str = some (i, str)

-- num = -num if num < 0, with is_negative; `none` on overflow.
pub magnitude : ℤ → Option (Bool × ℕ)
magnitude (pos n) = some (false, n)
magnitude (negsuc n) = if ltb (n + 1) (2 ^ 63) then some (true, n + 1) else none

-- Twenty digits are more than a 64-bit number has, and no buffer is longer than its length.
pub ltoa : ℤ → List ℕ → Option (List ℕ)
ltoa num str = do
  (is_negative, n) ← magnitude num
  if n == 0 then (do str ← put str 0 b'0'; put str 1 0) else (do
    (i, str) ← write_digits 20 n 0 str
    (i, str) ← write_sign is_negative i str
    str ← put str i 0
    swap_ends (i + 1) 0 (i - 1) str)
