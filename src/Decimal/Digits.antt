-- ===== src/Decimal/Digits.antt =====
-- The digits that the loop of ltoa writes: least first, with the number as their value.
use mathlib.Core.List.{append_assoc}
use disguise_pets.Base.{
  ℕ, zero, suc, ◌+◌, ◌-◌, ◌*◌, ◌/◌, ◌%◌, ◌^◌, ◌≤◌, ◌<◌, ◌≡◌, ◌≢◌, refl, arith, true, false, List,
  [], ◌∷◌, ◌++◌, some, length, drop, ◌==◌, ℕ_discrete, ap, ◌∙◌, sym, length-append,
}
use disguise_pets.Base.Arrays.{put, put-append}
use disguise_pets.Decimal.{write_digits}
use native.Mathlib.Nat.{pow-suc}

abbrev pub IsDigit : ℕ → Type 0
IsDigit c = (b'0' ≤ c) × (c ≤ b'9')

abbrev pub All : (ℕ → Type 0) → List ℕ → Type 0
All P [] = Unit
All P (x ∷ xs) = P x × All P xs

-- The digits of n, least first, at most as many as the fuel.
pub digits : ℕ → ℕ → List ℕ
digits zero n = []
digits (suc fuel) n = elim (n == 0) [ true ↦ [] | false ↦ (n % 10 + b'0') ∷ digits fuel (n / 10) ]

-- The number that digits spell, least first.
unfoldable pub spelled : List ℕ → ℕ
spelled [] = 0
spelled (c ∷ cs) = (c - b'0') + 10 * spelled cs

pub spelled-digits : (fuel n : ℕ) → n < 10 ^ fuel → spelled (digits fuel n) ≡ n
unfolding spelled digits
spelled-digits zero n h = omega arith
spelled-digits (suc fuel) n h =
    let e = pow-suc 10 fuel in ground (arith, spelled-digits fuel (n / 10) (omega (arith, e)))

pub digits-IsDigit : (fuel n : ℕ) → All IsDigit (digits fuel n)
unfolding digits
digits-IsDigit zero n = tt
digits-IsDigit (suc fuel) n = ground (arith, digits-IsDigit fuel (n / 10))

pub length-digits : (fuel n : ℕ) → length (digits fuel n) ≤ fuel
unfolding digits
length-digits zero n = omega arith
length-digits (suc fuel) n = ground (arith, length-digits fuel (n / 10))

pub digits_pos : (fuel n : ℕ) → n ≢ 0 → n < 10 ^ fuel → 0 < length (digits fuel n)
unfolding digits
digits_pos zero n h lt = absurd (omega arith)
digits_pos (suc fuel) n h lt = ground arith

digits_step : (fuel n : ℕ) → n ≢ 0 → digits (suc fuel) n ≡ (n % 10 + b'0') ∷ digits fuel (n / 10)
unfolding digits
digits_step fuel n nz = let test : (n == 0) ≡ false = ground arith in rw (test, digits)

write_digits_stop : (fuel i : ℕ) (str : List ℕ) → write_digits (suc fuel) 0 i str ≡ some (i, str)
unfolding write_digits
write_digits_stop fuel i str = refl

write_digits_step :
    (fuel n i : ℕ) (str str' : List ℕ)
    → n ≢ 0
    → put str i (n % 10 + b'0') ≡ some str'
    → write_digits (suc fuel) n i str ≡ write_digits fuel (n / 10) (i + 1) str'
unfolding write_digits
write_digits_step fuel n i str str' nz e =
    let test : (n == 0) ≡ false = ground arith in rw (test, write_digits) (rw e)

-- With fuel for every digit and for the test that ends the loop, the digits are written at i.
pub write_digits_lem :
    (fuel n i : ℕ) (pre rest : List ℕ)
    → n < 10 ^ fuel
    → length pre ≡ i
    → length (digits fuel n) ≤ length rest
    → write_digits (suc fuel) n i (pre ++ rest)
      ≡ some
          (i + length (digits fuel n), pre ++ (digits fuel n ++ drop (length (digits fuel n)) rest))
write_digits_lem zero n i pre rest lt e fits =
    let z : n ≡ 0 = omega arith in
    let p : i + 0 ≡ i = omega arith in
    rw (z) (unfold digits in rw p (write_digits_stop zero i (pre ++ rest)))
write_digits_lem (suc fuel) n i pre rest lt e fits = elim (ℕ_discrete n 0) [
  | yes z ↦
      let p : i + 0 ≡ i = omega arith in
      rw z (unfold digits in rw p (write_digits_stop (suc fuel) i (pre ++ rest)))
  | no nz ↦ go nz rest (rw (digits_step fuel n nz) at fits) (λ r.
      write_digits_lem fuel (n / 10) (i + 1) (pre ++ (n % 10 + b'0') ∷ []) r
        (omega (arith, pow-suc 10 fuel))
        (omega (arith, length-append pre ((n % 10 + b'0') ∷ []), e)))
]
  where
    d : ℕ
    d = n % 10 + b'0'

    ds : List ℕ
    ds = digits fuel (n / 10)

    go :
        n ≢ 0
        → (rest : List ℕ) → suc (length ds) ≤ length rest
        → ((r : List ℕ)
            → length ds ≤ length r
            → write_digits (suc fuel) (n / 10) (i + 1) ((pre ++ d ∷ []) ++ r)
              ≡ some (i + 1 + length ds, (pre ++ d ∷ []) ++ (ds ++ drop (length ds) r)))
        → write_digits (suc (suc fuel)) n i (pre ++ rest)
          ≡ some (
            i + length (digits (suc fuel) n),
            pre ++ (digits (suc fuel) n ++ drop (length (digits (suc fuel) n)) rest),
          )
    go nz [] fits ih = absurd (omega arith)
    go nz (x ∷ r) fits ih =
        let count : i + suc (length ds) ≡ i + 1 + length ds = omega arith in
        rw (digits_step fuel n nz) (
          rw count (
            write_digits_step (suc fuel) n i (pre ++ x ∷ r) (pre ++ d ∷ r) nz
              (put-append pre r x i d e)
            ∙ ap (write_digits (suc fuel) (n / 10) (i + 1)) (sym (append_assoc pre (d ∷ []) r))
            ∙ ih r (omega arith)
            ∙ ap (λ l. some (i + 1 + length ds, l))
                (append_assoc pre (d ∷ []) (ds ++ drop (length ds) r))))
