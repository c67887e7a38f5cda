-- ===== src/Hex/Laws.antt =====
-- The text that print_hex prints reads as the bytes it was given.
use mathlib.Core.List.{append_assoc}
use disguise_pets.Base.{
  ℕ, suc, ◌+◌, ◌-◌, ◌*◌, ◌/◌, ◌%◌, ◌^◌, ◌<◌, ◌≤◌, ◌≡◌, refl, arith, bit_and, Bool, true, false,
  none, List, [], ◌∷◌, ◌++◌, Option, some, length, drop, get_elem?, ltb, ◌==◌, if◌then◌else◌, ap,
  ◌∙◌, sym, ◌⊎◌, length-append, length-drop,
}
use disguise_pets.Base.Arrays.{put, put-append, for_loop, get_elem?-append}
use disguise_pets.Base.Table.{each_passes, passes_at}
use disguise_pets.Bits.Align.{bit_and_fifteen}
use disguise_pets.Enclave.{World, ok, c_string, ocall, ocall_print_string}
use disguise_pets.Hex.{hex_chars, write_hex, fill_hex, print_hex}
use disguise_pets.Report.Laws.{printed}
use disguise_pets.Decimal.Digits.{All}

-- The character of a hexadecimal digit, and the digit of a character.
abbrev pub char_of : ℕ → ℕ
char_of d = if ltb d 10 then b'0' + d else b'a' + (d - 10)

abbrev pub digit_of : ℕ → ℕ
digit_of c = if ltb c b'a' then c - b'0' else c - b'a' + 10

-- The bytes that a text of pairs of digits stands for.
abbrev pub bytes_of : List ℕ → List ℕ
bytes_of (h ∷ l ∷ cs) = (digit_of h * 16 + digit_of l) ∷ bytes_of cs
bytes_of cs = []

-- The characters 0 to 9 and a to f.
abbrev pub IsHexChar : ℕ → Type 0
IsHexChar c = ((b'0' ≤ c) × (c ≤ b'9')) ⊎ ((b'a' ≤ c) × (c ≤ b'f'))

abbrev pub AreBytes : List ℕ → Type 0
AreBytes [] = Unit {0}
AreBytes (x ∷ xs) = (x < 256) × AreBytes xs

abbrev pub hex_text : List ℕ → List ℕ
hex_text [] = []
hex_text (x ∷ xs) = char_of (x / 16) ∷ char_of (x % 16) ∷ hex_text xs

pub digit_of-char_of : (d : ℕ) → d < 16 → digit_of (char_of d) ≡ d
digit_of-char_of d h = ground arith

pub bytes_of-hex_text : (xs : List ℕ) → AreBytes xs → bytes_of (hex_text xs) ≡ xs
bytes_of-hex_text [] h = refl
bytes_of-hex_text (x ∷ xs) h =
    rw
      (
        digit_of-char_of (x / 16) (omega (arith, h.0)),
        digit_of-char_of (x % 16) (omega arith),
        bytes_of-hex_text xs h.1,
      )
      (ap (λ y. y ∷ xs) (omega arith))

char_of-IsHexChar : (d : ℕ) → d < 16 → IsHexChar (char_of d)
char_of-IsHexChar d h = ground arith

hex_text-IsHexChar : (xs : List ℕ) → AreBytes xs → All IsHexChar (hex_text xs)
hex_text-IsHexChar [] h = tt
hex_text-IsHexChar (x ∷ xs) h = (
  char_of-IsHexChar (x / 16) (omega (arith, h.0)),
  (char_of-IsHexChar (x % 16) (omega arith), hex_text-IsHexChar xs h.1),
)

pub length-hex_text : (xs : List ℕ) → length (hex_text xs) ≡ length xs * 2
length-hex_text [] = refl
length-hex_text (x ∷ xs) = omega (arith, length-hex_text xs)

c_string-hex_text : (xs r : List ℕ) → c_string (hex_text xs ++ 0 ∷ r) ≡ hex_text xs
c_string-hex_text [] r = refl
c_string-hex_text (x ∷ xs) r =
    let high : (char_of (x / 16) == 0) ≡ false = ground arith in
    let low : (char_of (x % 16) == 0) ≡ false = ground arith in
    rw high (rw low (ap (λ l. char_of (x / 16) ∷ char_of (x % 16) ∷ l) (c_string-hex_text xs r)))

abbrev pub matches : ℕ → Option ℕ → Bool
matches c none = false
matches c (some x) = x == c

pub matches-eq : (c : ℕ) (o : Option ℕ) → matches c o ≡ true → o ≡ some c
matches-eq c none h = absurd (ground (arith, h))
matches-eq c (some x) h = ap some (ground (arith, h))

hex_char : (d : ℕ) → d < 16 → get_elem? hex_chars d ≡ some (char_of d)
unfolding each_passes
hex_char d h =
    matches-eq (char_of d) (get_elem? hex_chars d)
      (passes_at (λ d. matches (char_of d) (get_elem? hex_chars d)) 16 d h refl)

-- One byte more behind a text.
write_hex_lem :
    (before after pre rest : List ℕ) (x y z i : ℕ)
    → length before ≡ i
    → length pre ≡ i * 2
    → x < 256
    → write_hex (before ++ x ∷ after) i (pre ++ y ∷ z ∷ rest)
      ≡ some (pre ++ char_of (x / 16) ∷ char_of (x % 16) ∷ rest)
unfolding write_hex
write_hex_lem before after pre rest x y z i hb hp hx =
    let high : bit_and (x / 2 ^ 4) 15 ≡ x / 16 = omega (arith, bit_and_fifteen (x / 2 ^ 4)) in
    let low : bit_and x 15 ≡ x % 16 = bit_and_fifteen x in
    let h = char_of (x / 16) in
    let second : put (pre ++ h ∷ z ∷ rest) (i * 2 + 1) (char_of (x % 16))
        ≡ some (pre ++ h ∷ char_of (x % 16) ∷ rest) =
      ap (λ l. put l (i * 2 + 1) (char_of (x % 16))) (sym (append_assoc pre (h ∷ []) (z ∷ rest)))
      ∙ put-append (pre ++ h ∷ []) rest z (i * 2 + 1) (char_of (x % 16))
          (omega (arith, length-append pre (h ∷ [])))
      ∙ ap some (append_assoc pre (h ∷ []) (char_of (x % 16) ∷ rest)) in
    rw (get_elem?-append before after x i hb) (
      rw (high, hex_char (x / 16) (omega arith))
        (rw (low, hex_char (x % 16) (omega arith))
          (rw (put-append pre (z ∷ rest) y (i * 2) h hp) second)))

fill_loop :
    (xs before after pre rest : List ℕ) (i : ℕ)
    → AreBytes xs
    → length before ≡ i
    → length pre ≡ i * 2
    → length xs * 2 ≤ length rest
    → for_loop (length xs) i (write_hex (before ++ (xs ++ after))) (pre ++ rest)
      ≡ some (pre ++ (hex_text xs ++ drop (length xs * 2) rest))
fill_loop [] before after pre rest i hx hb hp hr = refl
fill_loop (x ∷ xs) before after pre [] i hx hb hp hr = absurd (omega arith)
fill_loop (x ∷ xs) before after pre (y ∷ []) i hx hb hp hr = absurd (omega arith)
fill_loop (x ∷ xs) before after pre (y ∷ z ∷ rest) i hx hb hp hr =
    let pair = char_of (x / 16) ∷ char_of (x % 16) ∷ [] in
    let count : suc (length xs) * 2 ≡ suc (suc (length xs * 2)) = omega arith in
    rw (write_hex_lem before (xs ++ after) pre rest x y z i hb hp hx.0) (
      ap (λ l. for_loop (length xs) (i + 1) (write_hex l) (pre ++ (pair ++ rest)))
        (sym (append_assoc before (x ∷ []) (xs ++ after)))
      ∙ ap (for_loop (length xs) (i + 1) (write_hex ((before ++ x ∷ []) ++ (xs ++ after))))
          (sym (append_assoc pre pair rest))
      ∙ fill_loop xs (before ++ x ∷ []) after (pre ++ pair) rest (i + 1) hx.1
          (omega (arith, length-append before (x ∷ []))) (omega (arith, length-append pre pair))
          (omega arith)
      ∙ rw count (ap some (append_assoc pre pair (hex_text xs ++ drop (length xs * 2) rest))))

one_left : (l : List ℕ) → length l ≡ 1 → (y : ℕ) × (l ≡ y ∷ [])
one_left [] e = absurd (omega arith)
one_left (y ∷ []) e = (y, refl)
one_left (y ∷ z ∷ l) e = absurd (omega arith)

fill_hex_lem :
    (xs after hex_string : List ℕ)
    → AreBytes xs
    → length hex_string ≡ length xs * 2 + 1
    → fill_hex (length xs) (xs ++ after) hex_string ≡ some (hex_text xs ++ 0 ∷ [])
unfolding fill_hex
fill_hex_lem xs after hex_string hx size =
    let (y, last) =
      one_left (drop (length xs * 2) hex_string)
        (omega (arith, length-drop (length xs * 2) hex_string)) in
    rw (fill_loop xs [] after [] hex_string 0 hx refl refl (omega arith))
      (rw last (put-append (hex_text xs) [] y (length xs * 2) 0 (length-hex_text xs)))

-- Into a local array of two characters for each byte and one more, print_hex prints a text that has
-- two characters for each of the first `size` bytes of the buffer, all of them hexadecimal digits, the
-- letters in lower case, and which reads as those bytes.
pub print_hex_lem :
    (xs after hex_string : List ℕ) (w : World)
    → AreBytes xs
    → length hex_string ≡ length xs * 2 + 1
    → (text : List ℕ) × (print_hex (xs ++ after) (length xs) hex_string w
        ≡ ok tt (record w { sent = printed text ∷ w.sent }))
      × All IsHexChar text
      × (bytes_of text ≡ xs)
      × (length text ≡ length xs * 2)
unfolding print_hex ocall_print_string ocall
print_hex_lem xs after hex_string w hx size = (
  hex_text xs,
  rw (fill_hex_lem xs after hex_string hx size) (rw (c_string-hex_text xs []) refl),
  hex_text-IsHexChar xs hx,
  bytes_of-hex_text xs hx,
  length-hex_text xs,
)
