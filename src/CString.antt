-- ===== src/CString.antt =====
-- keytone-patch/string.c: the memory functions of the enclave runtime, over a flat memory of bytes.
-- A pointer is its 64-bit address, and arithmetic on it wraps. `uintptr_t` is 8 bytes, stored little
-- end first (RV64), and a word access at an address that is no multiple of 8 is a fault.
pub mod Words
pub mod Copies
pub mod Memcpy
pub mod Memmove
pub mod Memset
pub mod Scan
mod Tests
use disguise_pets.Base.{
  ℕ, zero, suc, ◌+◌, ◌-◌, ◌*◌, ◌/◌, ◌%◌, ◌^◌, bit_and, bit_or, Bool, true, false, Option, none,
  some, ltb, leb, ◌==◌, if◌then◌else◌, ◌>>=◌,
}
use disguise_pets.Base.Int.{ℤ, pos, sub_ℕ}

abbrev pub Memory : Type 0
Memory = ℕ → ℕ

-- p + n, and p - n for n below the size of the address space.
abbrev pub ptr_add : ℕ → ℕ → ℕ
ptr_add p n = (p + n) % 2 ^ 64

abbrev pub ptr_sub : ℕ → ℕ → ℕ
ptr_sub p n = (p + 2 ^ 64 - n) % 2 ^ 64

-- *p = v for a byte.
pub store : Memory → ℕ → ℕ → Memory
store m p v a = if a == p then v else m a

-- The n bytes at p as a number, little end first.
pub read_bytes : ℕ → Memory → ℕ → ℕ
read_bytes zero m p = 0
read_bytes (suc n) m p = m p + 256 * read_bytes n m (p + 1)

pub write_bytes : ℕ → Memory → ℕ → ℕ → Memory
write_bytes zero m p w = m
write_bytes (suc n) m p w = write_bytes n (store m p (w % 256)) (p + 1) (w / 256)

-- *(uintptr_t*)p, read and written.
pub load_word : Memory → ℕ → Option ℕ
load_word m p = if p % 8 == 0 then some (read_bytes 8 m p) else none

pub store_word : Memory → ℕ → ℕ → Option Memory
store_word m p w = if p % 8 == 0 then some (write_bytes 8 m p w) else none

-- The variables of the loops of memcpy.
pub record Cursor : Type 0 where
  pub d : ℕ
  pub s : ℕ
  pub mem : Memory

-- while (d < limit) { *(uintptr_t*)d = *(const uintptr_t*)s; d += 8; s += 8; }
pub copy_words : ℕ → ℕ → Cursor → Option Cursor
copy_words zero limit c = none
copy_words (suc fuel) limit c = elim (ltb c.d limit) [
  | true ↦ load_word c.mem c.s >>= λ w. store_word c.mem c.d w >>= λ m.
      copy_words fuel limit (record { d = ptr_add c.d 8; s = ptr_add c.s 8; mem = m })
  | false ↦ some c
]

-- while (d < limit) *d++ = *s++;
pub copy_bytes : ℕ → ℕ → Cursor → Option Cursor
copy_bytes zero limit c = none
copy_bytes (suc fuel) limit c = elim (ltb c.d limit) [
  | true ↦
      copy_bytes fuel limit
        (record { d = ptr_add c.d 1; s = ptr_add c.s 1; mem = store c.mem c.d (c.mem c.s) })
  | false ↦ some c
]

-- The test of memcpy: both pointers are aligned.
pub both_aligned : ℕ → ℕ → Bool
both_aligned a b = bit_and (bit_or a b) 7 == 0

pub memcpy : (dest src len : ℕ) → Memory → Option Memory
memcpy dest src len m =
    let start : Cursor = record { d = dest; s = src; mem = m } in
    let words =
      if both_aligned dest src
      then copy_words (len + 1) (ptr_sub (ptr_add dest len) 7) start
      else some start in
    words >>= λ c. copy_bytes (len + 1) (ptr_add dest len) c >>= λ c'. some c'.mem

-- word |= word << 8; word |= word << 16; word |= word << 16 << 16;
pub spread : ℕ → ℕ
spread byte =
    let w = bit_and byte 0xff in
    let w = bit_or w (w * 2 ^ 8 % 2 ^ 64) in
    let w = bit_or w (w * 2 ^ 16 % 2 ^ 64) in bit_or w (w * 2 ^ 16 % 2 ^ 64 * 2 ^ 16 % 2 ^ 64)

-- while (d < limit) *d++ = word;
pub fill_words : ℕ → (word limit d : ℕ) → Memory → Option Memory
fill_words zero word limit d m = none
fill_words (suc fuel) word limit d m = elim (ltb d limit) [
  | true ↦ store_word m d word >>= λ m'. fill_words fuel word limit (ptr_add d 8) m'
  | false ↦ some m
]

-- while (d < limit) *d++ = byte; the store to a `char` keeps the low 8 bits.
pub fill_bytes : ℕ → (byte limit d : ℕ) → Memory → Option Memory
fill_bytes zero byte limit d m = none
fill_bytes (suc fuel) byte limit d m = elim (ltb d limit) [
  | true ↦ fill_bytes fuel byte limit (ptr_add d 1) (store m d (byte % 256))
  | false ↦ some m
]

-- `byte` is the two's complement pattern of the `int`.
pub memset : (dest byte len : ℕ) → Memory → Option Memory
memset dest byte len m =
    if both_aligned dest len
    then fill_words (len + 1) (spread byte) (ptr_add dest len) dest m
    else fill_bytes (len + 1) byte (ptr_add dest len) dest m

-- while (count--) *tmp++ = *s++;
pub move_up : (count tmp s : ℕ) → Memory → Memory
move_up zero tmp s m = m
move_up (suc count) tmp s m = move_up count (ptr_add tmp 1) (ptr_add s 1) (store m tmp (m s))

-- while (count--) *--tmp = *--s;
pub move_down : (count tmp s : ℕ) → Memory → Memory
move_down zero tmp s m = m
move_down (suc count) tmp s m =
    move_down count (ptr_sub tmp 1) (ptr_sub s 1) (store m (ptr_sub tmp 1) (m (ptr_sub s 1)))

pub memmove : (dest src count : ℕ) → Memory → Memory
memmove dest src count m =
    if leb dest src
    then move_up count dest src m
    else move_down count (ptr_add dest count) (ptr_add src count) m

-- u1 - u2 at the first place where the two differ, as an `int`.
pub memcmp : (s1 s2 n : ℕ) → Memory → ℤ
memcmp s1 s2 zero m = pos 0
memcmp s1 s2 (suc n) m =
    let rest = memcmp (ptr_add s1 1) (ptr_add s2 1) n m in
    if m s1 == m s2 then rest else sub_ℕ (m s1) (m s2)

-- The loop of strlen; nothing bounds it but the byte 0 that it looks for.
pub strlen_loop : ℕ → (str len : ℕ) → Memory → Option ℕ
strlen_loop zero str len m = none
strlen_loop (suc fuel) str len m = elim (m str == 0) [
  | true ↦ some len
  | false ↦ strlen_loop fuel (ptr_add str 1) (len + 1) m
]

pub strlen : ℕ → ℕ → Memory → Option ℕ
strlen fuel str m = strlen_loop fuel str 0 m
