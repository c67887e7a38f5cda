-- ===== src/CString/Tests.antt =====
-- The functions of string.c on small memories.
use Prim.Native.Nat.{◌<◌, ◌%◌}
use disguise_pets.Base.{ℕ, ◌+◌, ◌≡◌, ◌↔◌, arith, [], ◌∷◌, some, get_or, inr}
use disguise_pets.Base.Int.{pos}
use disguise_pets.CString.{Memory, memcpy, memset, memmove, memcmp}
use disguise_pets.CString.Words.{IsBytes}
use disguise_pets.CString.Copies.{Copied}
use disguise_pets.CString.Memcpy.{memcpy-Copied}
use disguise_pets.CString.Memmove.{memmove-Copied}
use disguise_pets.CString.Memset.{Filled, memset-Filled}
use disguise_pets.CString.Scan.{memcmp-zero_iff}

abbrev ramp : Memory
ramp a = a % 251

ramp-IsBytes : IsBytes ramp
ramp-IsBytes a = omega arith

-- Aligned blocks of eleven bytes: one word, then three bytes.
memcpy-Copied_example : (m' : Memory) × (memcpy 64 16 11 ramp ≡ some m') × Copied 64 16 11 ramp m'
memcpy-Copied_example =
    memcpy-Copied 64 16 11 ramp (inr (omega arith)) (omega arith) (omega arith) (omega arith)
      ramp-IsBytes

memmove-Copied_example : Copied 20 17 10 ramp (memmove 20 17 10 ramp)
memmove-Copied_example = memmove-Copied 20 17 10 ramp (omega arith) (omega arith)

memset-Filled_example :
    (m' : Memory) × (memset 64 0x1ab 16 ramp ≡ some m') × Filled 64 0xab 16 ramp m'
memset-Filled_example = memset-Filled 64 0x1ab 16 ramp (omega arith)

-- "abcX" at 0 and "abcY" at 8.
abbrev texts : Memory
texts a = get_or (97 ∷ 98 ∷ 99 ∷ 88 ∷ 0 ∷ 0 ∷ 0 ∷ 0 ∷ 97 ∷ 98 ∷ 99 ∷ 89 ∷ []) a 0

memcmp-zero_iff_example :
    (memcmp 0 8 3 texts ≡ pos 0) ↔ ((i : ℕ) → i < 3 → texts (0 + i) ≡ texts (8 + i))
memcmp-zero_iff_example = memcmp-zero_iff 0 8 3 texts (omega arith) (omega arith)
