-- ===== src/Usim/Text/Tests.antt =====
-- Texts in hexadecimal digits of both cases.
use disguise_pets.Base.{◌≡◌, refl, arith, [], ◌∷◌, some}
use disguise_pets.Enclave.{codes}
use disguise_pets.Usim.Text.{str_to_hex, get_mnc_str, has_long_mnc}
use disguise_pets.Usim.Text.Read.{IsHexOf, no_bytes, one_more, lower, upper, str_to_hex_lem}

digits : IsHexOf (codes "0fA9") (0x0f ∷ 0xa9 ∷ [])
digits =
    one_more b'0' b'f' 0 15 (codes "A9") (0xa9 ∷ []) (lower 0 (omega arith))
      (lower 15 (omega arith))
      (one_more b'A' b'9' 10 9 [] [] (upper 10 (omega arith)) (upper 9 (omega arith)) no_bytes)

str_to_hex_lem_example : str_to_hex (codes "0fA9") (7 ∷ 7 ∷ []) ≡ some (0x0f ∷ 0xa9 ∷ [])
str_to_hex_lem_example = str_to_hex_lem (codes "0fA9") (0x0f ∷ 0xa9 ∷ []) (7 ∷ 7 ∷ []) digits refl

three_digits : get_mnc_str (3 ∷ 1 ∷ 0 ∷ 4 ∷ 1 ∷ 0 ∷ []) (codes "310") ≡ some (codes "410")
unfolding get_mnc_str has_long_mnc
three_digits = refl
