-- ===== src/Decimal/Tests.antt =====
-- ltoa on single numbers.
use disguise_pets.Base.{
  ℕ, ◌+◌, ◌≡◌, refl, arith, List, [], ◌∷◌, ◌++◌, some, none, length, drop, replicate, ◌^◌, ◌-◌,
}
use disguise_pets.Base.Int.{negsuc}
use disguise_pets.Decimal.{ltoa, magnitude, write_digits, write_sign, swap_ends}
use disguise_pets.Decimal.Laws.{IsDecimal, ltoa-IsDecimal}

-- A buffer as eapp_entry has it.
abbrev debug : List ℕ
debug = replicate 100 7

minus_305 : ltoa (negsuc 304) (replicate 6 7) ≡ some (b'-' ∷ b'3' ∷ b'0' ∷ b'5' ∷ 0 ∷ 7 ∷ [])
unfolding ltoa magnitude write_digits write_sign swap_ends
minus_305 = refl

least_long : ltoa (negsuc (2 ^ 63 - 1)) debug ≡ none
unfolding ltoa magnitude
least_long = refl

ltoa-IsDecimal_example :
    (text : List ℕ) × (ltoa (negsuc 304) debug ≡ some (text ++ 0 ∷ drop (length text + 1) debug))
    × IsDecimal (negsuc 304) text
ltoa-IsDecimal_example = ltoa-IsDecimal (negsuc 304) debug (omega arith) (omega arith)
