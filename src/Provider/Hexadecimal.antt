-- ===== src/Provider/Hexadecimal.antt =====
-- hexToBytes undoes bytesToHex, and the provider's constant is the quote that the enclave compares with.
use disguise_pets.Base.{
  ℕ, ◌/◌, ◌%◌, ◌<◌, ◌≤◌, ◌≡◌, refl, arith, List, [], ◌∷◌, length, some, take, ap, ◌∙◌,
}
use disguise_pets.Base.Table.{each_passes, passes_at}
use disguise_pets.Channel.Buffers.{take-all}
use disguise_pets.Hex.Laws.{char_of, hex_text, AreBytes, matches, matches-eq}
use disguise_pets.Usim.Text.{hex_str}
use disguise_pets.Usim.Text.Printed.{hex_str_lem}
use disguise_pets.Provision.{provider_hash}
use disguise_pets.Provider.{bytes_to_hex, hex_to_bytes, stoi_byte, ok, hash}

pub bytes_to_hex_lem :
    (n : ℕ) (a : List ℕ) → n ≤ length a → bytes_to_hex a n ≡ some (hex_text (take n a))
unfolding bytes_to_hex hex_str
bytes_to_hex_lem n a le = hex_str_lem n a le

two_digits : (x : ℕ) → x < 256 → stoi_byte (char_of (x / 16) ∷ char_of (x % 16) ∷ []) ≡ some x
unfolding each_passes
two_digits x h =
    matches-eq x (stoi_byte (char_of (x / 16) ∷ char_of (x % 16) ∷ [])) (
      passes_at (λ x. matches x (stoi_byte (char_of (x / 16) ∷ char_of (x % 16) ∷ []))) 256 x h
        refl)

hex_to_bytes-hex_text : (xs : List ℕ) → AreBytes xs → hex_to_bytes (hex_text xs) ≡ ok xs
unfolding hex_to_bytes
hex_to_bytes-hex_text [] h = refl
hex_to_bytes-hex_text (x ∷ xs) h = rw (two_digits x h.0) (rw (hex_to_bytes-hex_text xs h.1) refl)

-- The text that bytesToHex makes of an array of bytes is read back as those bytes by hexToBytes.
pub hex_to_bytes-bytes_to_hex :
    (xs : List ℕ)
    → AreBytes xs
    → (text : List ℕ) × (bytes_to_hex xs (length xs) ≡ some text) × (hex_to_bytes text ≡ ok xs)
hex_to_bytes-bytes_to_hex xs h = (
  hex_text xs,
  bytes_to_hex_lem (length xs) xs (omega arith)
      ∙ ap (λ l. some (hex_text l)) (take-all (length xs) xs refl),
  hex_to_bytes-hex_text xs h,
)

pub hash_bytes : hex_to_bytes hash ≡ ok provider_hash
unfolding hex_to_bytes
hash_bytes = refl
