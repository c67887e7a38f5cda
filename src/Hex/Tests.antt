-- ===== src/Hex/Tests.antt =====
-- Three bytes, of which two are printed.
use disguise_pets.Base.{ℕ, ◌≡◌, refl, arith, List, [], ◌∷◌, length, replicate, true}
use disguise_pets.Enclave.{World, ok}
use disguise_pets.Hex.{print_hex}
use disguise_pets.Hex.Laws.{bytes_of, IsHexChar, print_hex_lem}
use disguise_pets.Decimal.Digits.{All}
use disguise_pets.Report.Laws.{printed}

abbrev world : World
world = record {
  inbox = [];
  sent = [];
  clock = λ n. 0;
  readings = 0;
  heap_ok = λ n. true;
  allocations = 0;
  fresh = λ n. 9;
}

print_hex_lem_example :
    (text : List ℕ) × (print_hex (0xa5 ∷ 0x0f ∷ 3 ∷ []) 2 (replicate 5 7) world
      ≡ ok tt (record world { sent = printed text ∷ [] }))
    × All IsHexChar text
    × (bytes_of text ≡ 0xa5 ∷ 0x0f ∷ [])
    × (length text ≡ 4)
print_hex_lem_example =
    print_hex_lem (0xa5 ∷ 0x0f ∷ []) (3 ∷ []) (replicate 5 7) world (omega arith, (omega arith, tt))
      refl
