-- ===== src/Decimal/Laws.antt =====
-- ltoa writes the decimal text of its number.
use mathlib.Core.List.{append_assoc, reverse, reverse-append, reverse-cons}
use disguise_pets.Base.{
  ℕ, zero, suc, ◌+◌, ◌-◌, ◌*◌, ◌≤◌, ◌<◌, ◌^◌, ◌≡◌, ◌≢◌, refl, arith, Bool, true, false, List, [],
  ◌∷◌, ◌++◌, some, length, drop, ◌==◌, if◌then◌else◌, ◌>>=◌, ap, ◌∙◌, length-append,
}
use disguise_pets.Base.Arrays.{put, put-append}
use disguise_pets.Base.Int.{ℤ, pos, negsuc}
use disguise_pets.Decimal.{ltoa, magnitude, write_digits, write_sign, swap_ends}
use disguise_pets.Decimal.Digits.{
  IsDigit, All, digits, spelled, spelled-digits, digits-IsDigit, length-digits, digits_pos,
  write_digits_lem,
}
use disguise_pets.Decimal.Reversal.{swap_ends_lem}

-- The number that a text of digits spells behind acc, most significant digit first.
abbrev pub value : ℕ → List ℕ → ℕ
value acc [] = acc
value acc (c ∷ cs) = value (acc * 10 + (c - b'0')) cs

abbrev pub negated : ℕ → ℤ
negated zero = pos 0
negated (suc n) = negsuc n

-- The integer that a text stands for, with a sign before its digits or none.
abbrev pub number_of : List ℕ → ℤ
number_of [] = pos 0
number_of (c ∷ cs) = if c == b'-' then negated (value 0 cs) else pos (value 0 (c ∷ cs))

-- The text without its sign.
abbrev pub unsigned : List ℕ → List ℕ
unsigned [] = []
unsigned (c ∷ cs) = if c == b'-' then cs else c ∷ cs

value-append : (acc : ℕ) (xs ys : List ℕ) → value acc (xs ++ ys) ≡ value (value acc xs) ys
value-append acc [] ys = refl
value-append acc (x ∷ xs) ys = value-append (acc * 10 + (x - b'0')) xs ys

value-reverse : (ds : List ℕ) → value 0 (reverse ds) ≡ spelled ds
unfolding spelled
value-reverse [] = refl
value-reverse (c ∷ cs) =
    rw (reverse-cons c cs, value-append 0 (reverse cs) (c ∷ []), value-reverse cs) (omega arith)

All-append : (xs ys : List ℕ) → All IsDigit xs → All IsDigit ys → All IsDigit (xs ++ ys)
All-append [] ys h k = k
All-append (x ∷ xs) ys h k = (h.0, All-append xs ys h.1 k)

All-reverse : (xs : List ℕ) → All IsDigit xs → All IsDigit (reverse xs)
All-reverse [] h = tt
All-reverse (x ∷ xs) h =
    rw (reverse-cons x xs) (All-append (reverse xs) (x ∷ []) (All-reverse xs h.1) (h.0, tt))

length-reverse : (xs : List ℕ) → length (reverse xs) ≡ length xs
length-reverse [] = refl
length-reverse (x ∷ xs) =
    rw (reverse-cons x xs) (omega (arith, length-append (reverse xs) (x ∷ []), length-reverse xs))

drop_at : (n : ℕ) (xs : List ℕ) → n < length xs → (x : ℕ) × (drop n xs ≡ x ∷ drop (n + 1) xs)
drop_at n [] h = absurd (omega arith)
drop_at zero (x ∷ xs) h = (x, refl)
drop_at (suc n) (x ∷ xs) h =
    let (y, e) = drop_at n xs (omega arith) in
    let count : suc n + 1 ≡ suc (n + 1) = omega arith in (y, rw count e)

-- The 0 behind the text, and the reversal.
finish :
    (m r : List ℕ) (x i : ℕ)
    → length m ≡ i
    → (put (m ++ x ∷ r) i 0 >>= swap_ends (i + 1) 0 (i - 1)) ≡ some (reverse m ++ 0 ∷ r)
finish m r x i e =
    let p : 0 + length m ≡ length m = omega arith in
    rw (put-append m r x i 0 e)
      (rw (← e) (rw p at (swap_ends_lem (length m + 1) [] m (0 ∷ r) (omega arith))))

-- Behind the digits come the sign and the end.
finish_signed :
    (is_negative : Bool) (ds str : List ℕ)
    → length ds + 2 ≤ length str
    → (write_sign is_negative (length ds) (ds ++ drop (length ds) str) >>= λ (i, str).
        put str i 0 >>= swap_ends (i + 1) 0 (i - 1))
      ≡ some (
          reverse (if is_negative then ds ++ b'-' ∷ [] else ds)
          ++ 0 ∷ drop (length (if is_negative then ds ++ b'-' ∷ [] else ds) + 1) str)
unfolding write_sign
finish_signed false ds str h =
    let (x, e) = drop_at (length ds) str (omega arith) in
    rw e (finish ds (drop (length ds + 1) str) x (length ds) refl)
finish_signed true ds str h =
    let (x, e) = drop_at (length ds) str (omega arith) in
    let (y, e') = drop_at (length ds + 1) str (omega arith) in
    let len : length (ds ++ b'-' ∷ []) ≡ length ds + 1 = length-append ds (b'-' ∷ []) in
    rw
      (
        e,
        put-append ds (drop (length ds + 1) str) x (length ds) b'-' refl,
        e',
        ← append_assoc ds (b'-' ∷ []) (y ∷ drop (length ds + 1 + 1) str),
      )
      (rw len (finish (ds ++ b'-' ∷ []) (drop (length ds + 1 + 1) str) y (length ds + 1) len))

-- text is the decimal text of num: it reads as num, is made of digits behind at most one sign, has a
-- digit, and fits a `long`.
pub record IsDecimal (num : ℤ) (text : List ℕ) : Type 0 where
  pub reads : number_of text ≡ num
  pub all_digits : All IsDigit (unsigned text)
  pub some_digit : 0 < length (unsigned text)
  pub short : length text ≤ 20

reverse-IsDecimal :
    (n : ℕ)
    → n ≢ 0
    → n < 2 ^ 63
    → IsDecimal (pos n) (reverse (digits 19 n))
      × IsDecimal (negated n) (b'-' ∷ reverse (digits 19 n))
reverse-IsDecimal n nz lt = (
  plain (reverse ds) reads all pos_length short,
  record {
    reads = ap negated reads;
    all_digits = all;
    some_digit = pos_length;
    short = omega (arith, short);
  },
)
  where
    ds : List ℕ
    ds = digits 19 n

    reads : value 0 (reverse ds) ≡ n
    reads = value-reverse ds ∙ spelled-digits 19 n (omega arith)

    all : All IsDigit (reverse ds)
    all = All-reverse ds (digits-IsDigit 19 n)

    pos_length : 0 < length (reverse ds)
    pos_length = omega (arith, length-reverse ds, digits_pos 19 n nz (omega arith))

    short : length (reverse ds) ≤ 19
    short = omega (arith, length-reverse ds, length-digits 19 n)

    plain :
        (text : List ℕ)
        → value 0 text ≡ n
        → All IsDigit text
        → 0 < length text
        → length text ≤ 19
        → IsDecimal (pos n) text
    plain [] v a p s = absurd (omega arith)
    plain (c ∷ cs) v a p s =
        let test : (c == b'-') ≡ false = ground arith in
        record {
          reads = rw test (ap pos v);
          all_digits = rw test a;
          some_digit = rw test p;
          short = omega arith;
        }

-- A `long`, other than the least one.
abbrev pub IsNegatable : ℤ → Type 0
IsNegatable (pos n) = n < 2 ^ 63
IsNegatable (negsuc n) = n + 1 < 2 ^ 63

ltoa_zero : (str : List ℕ) → 2 ≤ length str → ltoa (pos 0) str ≡ some (b'0' ∷ 0 ∷ drop 2 str)
unfolding ltoa magnitude
ltoa_zero [] h = absurd (omega arith)
ltoa_zero (x ∷ []) h = absurd (omega arith)
ltoa_zero (x ∷ y ∷ str) h = ground arith

ltoa-digits :
    (is_negative : Bool) (n : ℕ) (num : ℤ) (str : List ℕ)
    → magnitude num ≡ some (is_negative, n)
    → n ≢ 0
    → n < 2 ^ 63
    → 22 ≤ length str
    → let m = if is_negative then digits 19 n ++ b'-' ∷ [] else digits 19 n in
      ltoa num str ≡ some (reverse m ++ 0 ∷ drop (length m + 1) str)
unfolding ltoa
ltoa-digits is_negative n num str e nz lt room =
    let ds = digits 19 n in
    let test : (n == 0) ≡ false = ground arith in
    let fits : length ds ≤ 19 = length-digits 19 n in
    let z : 0 + length ds ≡ length ds = omega arith in
    let run : write_digits 20 n 0 str ≡ some (length ds, ds ++ drop (length ds) str) =
      rw z at (write_digits_lem 19 n 0 [] str (omega arith) refl (omega arith)) in
    rw (e) (rw (test) (rw (run) (finish_signed is_negative ds str (omega arith))))

-- Into a buffer of at least 22 bytes ltoa writes the decimal text of every `long` but the least
-- one, then a byte 0, and leaves the rest of the buffer alone.
pub ltoa-IsDecimal :
    (num : ℤ) (str : List ℕ)
    → IsNegatable num
    → 22 ≤ length str
    → (text : List ℕ) × (ltoa num str ≡ some (text ++ 0 ∷ drop (length text + 1) str))
      × IsDecimal num text
ltoa-IsDecimal (pos zero) str fits room = (
  b'0' ∷ [],
  ltoa_zero str (omega arith),
  record {
    reads = refl;
    all_digits = (omega arith);
    some_digit = omega arith;
    short = omega arith;
  },
)
ltoa-IsDecimal (pos (suc n)) str fits room = (
  reverse (digits 19 (suc n)),
  rw length-reverse (
      ltoa-digits false (suc n) (pos (suc n)) str (unfold magnitude in refl) (omega arith) fits
        room),
  (reverse-IsDecimal (suc n) (omega arith) fits).0,
)
ltoa-IsDecimal (negsuc n) str fits room =
    let e : suc n ≡ n + 1 = omega arith in
    let ds = digits 19 (suc n) in
    let run : magnitude (negsuc n) ≡ some (true, suc n) = unfold magnitude in ground (arith, e) in
    let len : length (ds ++ b'-' ∷ []) ≡ suc (length (reverse ds)) =
      omega (arith, length-append ds (b'-' ∷ []), length-reverse ds) in
    let written = ltoa-digits true (suc n) (negsuc n) str run (omega arith) (omega arith) room in
    (
      b'-' ∷ reverse ds,
      rw (reverse-append ds (b'-' ∷ []), len) at written,
      (reverse-IsDecimal (suc n) (omega arith) (omega arith)).1,
    )
