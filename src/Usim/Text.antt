-- ===== src/Usim/Text.antt =====
-- The texts of srsue/usim.cc: str_to_hex, get_mnc_str, and the hexadecimal texts of the log.
pub mod Printed
pub mod Read
mod Tests
use disguise_pets.Base.{
  ℕ, ◌+◌, ◌-◌, ◌*◌, ◌/◌, ◌%◌, ◌<◌, ◌≡◌, bit_or, List, [], ◌∷◌, ◌++◌, Option, some, length,
  get_elem?, ◌>>=◌, Bool, true, false, ◌&&◌, ◌||◌, leb, ltb, ◌==◌, if◌then◌else◌,
}
use disguise_pets.Base.Arrays.{put, for_loop}
use disguise_pets.Hex.Laws.{char_of}
use disguise_pets.Enclave.{codes}
use disguise_pets.Usim.{Line, say_hex}
use Prim.Native.String.{String}

-- The value of a character as str_to_hex takes it, for every character, within a uint8_t.
pub nibble : ℕ → ℕ
nibble c =
    if leb b'0' c && leb c b'9'
    then c - b'0'
    else (if leb b'A' c && leb c b'F' then c - b'A' + 0xA else (c + 256 - b'a' + 0xA) % 256)

-- The body of the loop: hex[i] = high << 4; hex[i] |= low;
pub write_byte : (h_str : List ℕ) (i : ℕ) → List ℕ → Option (List ℕ)
write_byte h_str i hex = do
  high ← get_elem? h_str (i * 2 + 0)
  hex ← put hex i (nibble high * 16 % 256)
  low ← get_elem? h_str (i * 2 + 1)
  byte ← get_elem? hex i
  put hex i (bit_or byte (nibble low))

-- usim::str_to_hex
unfoldable pub str_to_hex : (str hex : List ℕ) → Option (List ℕ)
str_to_hex str hex = for_loop (length str / 2) 0 (write_byte str) hex

-- std::ostringstream << (int)x, for a uint8_t x.
abbrev pub decimal : ℕ → List ℕ
decimal x =
    if ltb x 10
    then (b'0' + x) ∷ []
    else (if ltb x 100
        then (b'0' + x / 10) ∷ (b'0' + x % 10) ∷ []
        else (b'0' + x / 100) ∷ (b'0' + x / 10 % 10) ∷ (b'0' + x % 10) ∷ [])

abbrev pub same_text : (a b : List ℕ) → Bool
same_text [] [] = true
same_text (x ∷ xs) (y ∷ ys) = (x == y) && same_text xs ys
same_text xs ys = false

-- The mobile country codes that have three digits of network code.
pub has_long_mnc : List ℕ → Bool
has_long_mnc mcc_str =
    same_text mcc_str (codes "310")
    || same_text mcc_str (codes "311")
    || same_text mcc_str (codes "312")
    || same_text mcc_str (codes "313")
    || same_text mcc_str (codes "316")

-- usim::get_mnc_str
unfoldable pub get_mnc_str : (imsi_vec mcc_str : List ℕ) → Option (List ℕ)
get_mnc_str imsi_vec mcc_str =
    let mcc_len : ℕ = 3 in
    let mnc_len : ℕ = if has_long_mnc mcc_str then 3 else 2 in
    for_loop mnc_len mcc_len (λ i mnc. do x ← get_elem? imsi_vec i; some (mnc ++ decimal x)) []

-- snprintf(temp, sizeof(temp), "%02x", (unsigned int)a[i]); str += temp;
abbrev pub add_pair : (a : List ℕ) (i : ℕ) (str : List ℕ) → Option (List ℕ)
add_pair a i str = do x ← get_elem? a i; some (str ++ char_of (x / 16) ∷ char_of (x % 16) ∷ [])

-- The loop over the first n elements.
unfoldable pub hex_str : (n : ℕ) (a : List ℕ) → Option (List ℕ)
hex_str n a = for_loop n 0 (add_pair a) []

-- That loop and the line of the log with its text.
unfoldable pub log_hex : (label : String) (n : ℕ) (a : List ℕ) → List Line → Option (List Line)
log_hex label n a log = do str ← hex_str n a; some (say_hex label str ∷ log)
