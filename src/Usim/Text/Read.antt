-- ===== src/Usim/Text/Read.antt =====
-- str_to_hex reads a text of hexadecimal digits as the bytes that it stands for, and get_mnc_str prints
-- the digits of a network code.
use mathlib.Core.List.{append_assoc}
use mathlib.Core.Path.{subst}
use disguise_pets.Base.{
  ℕ, ◌+◌, ◌-◌, ◌*◌, ◌/◌, ◌%◌, ◌<◌, ◌≡◌, inl, inr, refl, arith, bit_or, true, List, [], ◌∷◌, ◌++◌,
  length, length-append, some, get_elem?, ltb, ◌==◌, if◌then◌else◌, ap, ◌∙◌, sym, Bool-cases,
}
use disguise_pets.Base.Arrays.{put-append, for_loop, get_elem?-append}
use disguise_pets.Base.Table.{each_passes, passes_at}
use disguise_pets.Hex.Laws.{char_of, hex_text, AreBytes}
use disguise_pets.Usim.Text.{nibble, write_byte, str_to_hex, has_long_mnc, get_mnc_str}

-- A hexadecimal digit of either case, and its value.
abbrev pub upper_of : ℕ → ℕ
upper_of d = if ltb d 10 then b'0' + d else b'A' + (d - 10)

pub data IsDigit : (c d : ℕ) → Type 0 where
  lower : (d : ℕ) → d < 16 → IsDigit (char_of d) d
  upper : (d : ℕ) → d < 16 → IsDigit (upper_of d) d

-- A text in which each byte has two digits, the high one first, each in either case.
pub data IsHexOf : (str bytes : List ℕ) → Type 0 where
  no_bytes : IsHexOf [] []
  one_more :
      (h l a b : ℕ) (str bytes : List ℕ)
      → IsDigit h a
      → IsDigit l b
      → IsHexOf str bytes
      → IsHexOf (h ∷ l ∷ str) ((a * 16 + b) ∷ bytes)

IsDigit-lt : (c d : ℕ) → IsDigit c d → d < 16
IsDigit-lt _ _ (lower d h) = h
IsDigit-lt _ _ (upper d h) = h

nibble_digit : (c d : ℕ) → IsDigit c d → nibble c ≡ d
unfolding nibble each_passes
nibble_digit _ _ (lower d h) = ground (arith, passes_at (λ d. nibble (char_of d) == d) 16 d h refl)
nibble_digit _ _ (upper d h) = ground (arith, passes_at (λ d. nibble (upper_of d) == d) 16 d h refl)

-- The two halves of a byte do not overlap.
halves : (a b : ℕ) → a < 16 → b < 16 → bit_or (a * 16 % 256) b ≡ a * 16 + b
unfolding each_passes
halves a b ha hb =
    let at_byte =
      passes_at (λ n. bit_or (n / 16 * 16 % 256) (n % 16) == n) 256 (a * 16 + b) (omega arith)
        refl in
    let high : (a * 16 + b) / 16 ≡ a = omega arith in
    let low : (a * 16 + b) % 16 ≡ b = omega arith in
    let same = rw (high, low) at at_byte in ground (arith, same)

write_byte_lem :
    (before after pre rest : List ℕ) (h l a b x i : ℕ)
    → length before ≡ i * 2
    → length pre ≡ i
    → IsDigit h a
    → IsDigit l b
    → write_byte (before ++ h ∷ l ∷ after) i (pre ++ x ∷ rest) ≡ some (pre ++ (a * 16 + b) ∷ rest)
unfolding write_byte
write_byte_lem before after pre rest h l a b x i hb hp dh dl =
    let first = get_elem?-append before (l ∷ after) h (i * 2 + 0) (omega arith) in
    let second : get_elem? (before ++ h ∷ l ∷ after) (i * 2 + 1) ≡ some l =
      ap (λ s. get_elem? s (i * 2 + 1)) (sym (append_assoc before (h ∷ []) (l ∷ after)))
      ∙ get_elem?-append (before ++ h ∷ []) after l (i * 2 + 1)
          (omega (arith, length-append before (h ∷ []))) in
    rw (first, nibble_digit h a dh)
      (rw (put-append pre rest x i (a * 16 % 256) hp) (
        rw
          (
            second,
            nibble_digit l b dl,
            get_elem?-append pre rest (a * 16 % 256) i hp,
            put-append pre rest (a * 16 % 256) i (bit_or (a * 16 % 256) b) hp,
            halves a b (IsDigit-lt h a dh) (IsDigit-lt l b dl),
          )
          refl))

read_loop :
    (str bytes before pre rest : List ℕ) (i : ℕ)
    → IsHexOf str bytes
    → length before ≡ i * 2
    → length pre ≡ i
    → length rest ≡ length bytes
    → for_loop (length bytes) i (write_byte (before ++ str)) (pre ++ rest) ≡ some (pre ++ bytes)
read_loop [] [] before pre [] i no_bytes hb hp hr = refl
read_loop [] [] before pre (x ∷ rest) i no_bytes hb hp hr = absurd (omega arith)
read_loop _ _ before pre [] i (one_more h l a b str bytes dh dl more) hb hp hr =
    absurd (omega arith)
read_loop _ _ before pre (x ∷ rest) i (one_more h l a b str bytes dh dl more) hb hp hr =
    let pair = h ∷ l ∷ [] in
    rw (write_byte_lem before str pre rest h l a b x i hb hp dh dl) (
      ap (λ s. for_loop (length bytes) (i + 1) (write_byte s) (pre ++ (a * 16 + b) ∷ rest))
        (sym (append_assoc before pair str))
      ∙ ap (for_loop (length bytes) (i + 1) (write_byte ((before ++ pair) ++ str)))
          (sym (append_assoc pre ((a * 16 + b) ∷ []) rest))
      ∙ read_loop str bytes (before ++ pair) (pre ++ (a * 16 + b) ∷ []) rest (i + 1) more
          (omega (arith, length-append before pair))
          (omega (arith, length-append pre ((a * 16 + b) ∷ []))) (omega arith)
      ∙ ap some (append_assoc pre ((a * 16 + b) ∷ []) bytes))

pub length-IsHexOf : (str bytes : List ℕ) → IsHexOf str bytes → length str ≡ length bytes * 2
length-IsHexOf _ _ no_bytes = refl
length-IsHexOf _ _ (one_more h l a b str bytes dh dl more) =
    omega (arith, length-IsHexOf str bytes more)

-- A text of two hexadecimal digits for each byte, each digit in either case, is read as those bytes by
-- str_to_hex, into an array of their number.
pub str_to_hex_lem :
    (str bytes hex : List ℕ)
    → IsHexOf str bytes
    → length hex ≡ length bytes
    → str_to_hex str hex ≡ some bytes
unfolding str_to_hex
str_to_hex_lem str bytes hex digits size =
    let half : length str / 2 ≡ length bytes = omega (arith, length-IsHexOf str bytes digits) in
    rw half (read_loop str bytes [] [] hex 0 digits refl refl size)

-- The texts of the log are such texts.
pub hex_text-IsHexOf : (xs : List ℕ) → AreBytes xs → IsHexOf (hex_text xs) xs
hex_text-IsHexOf [] h = no_bytes
hex_text-IsHexOf (x ∷ xs) h =
    let byte : x / 16 * 16 + x % 16 ≡ x = omega arith in
    subst (λ y. IsHexOf (hex_text (x ∷ xs)) (y ∷ xs)) byte
      (one_more _ _ (x / 16) (x % 16) (hex_text xs) xs (lower (x / 16) (omega (arith, h.0)))
        (lower (x % 16) (omega arith)) (hex_text-IsHexOf xs h.1))

-- From the digits of an IMSI, get_mnc_str prints the fourth and the fifth, and the sixth too if the
-- country code is 310, 311, 312, 313 or 316.
pub get_mnc_str_lem :
    (a b c d e f : ℕ) (rest mcc_str : List ℕ)
    → d < 10
    → e < 10
    → f < 10
    → get_mnc_str (a ∷ b ∷ c ∷ d ∷ e ∷ f ∷ rest) mcc_str
      ≡ some (
          if has_long_mnc mcc_str
          then (b'0' + d) ∷ (b'0' + e) ∷ (b'0' + f) ∷ []
          else (b'0' + d) ∷ (b'0' + e) ∷ [])
unfolding get_mnc_str
get_mnc_str_lem a b c d e f rest mcc_str hd he hf =
    let one : (x : ℕ) → x < 10 → ltb x 10 ≡ true = λ x h. ground (arith, h) in
    elim (Bool-cases (has_long_mnc mcc_str)) [
      | inl long ↦ rw long (rw (one d hd, one e he, one f hf) refl)
      | inr short ↦ rw short (rw (one d hd, one e he) refl)
    ]
