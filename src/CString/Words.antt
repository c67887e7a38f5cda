-- ===== src/CString/Words.antt =====
-- A word load and a word store, byte by byte: the number that `read_bytes` makes has the bytes as
-- its digits, and `write_bytes` puts the digits of a number into memory.
use disguise_pets.Base.{ℕ, zero, suc, ◌+◌, ◌*◌, ◌/◌, ◌%◌, ◌≤◌, ◌<◌, ◌≡◌, refl, ◌⊎◌, arith, ◌∙◌}
use disguise_pets.CString.{Memory, store, read_bytes, write_bytes}

abbrev pub IsBytes : Memory → Type 0
IsBytes m = (a : ℕ) → m a < 256

-- The j-th byte of a number, from the little end.
unfoldable pub digit : ℕ → ℕ → ℕ
digit zero w = w % 256
digit (suc j) w = digit j (w / 256)

-- A place is outside of the n places from p on.
abbrev pub Outside : ℕ → ℕ → ℕ → Type 0
Outside p n a = (a < p) ⊎ (p + n ≤ a)

pub store_self : (m : Memory) (p v a : ℕ) → a ≡ p → store m p v a ≡ v
unfolding store
store_self m p v a e = ground arith

pub store_other : (m : Memory) (p v a : ℕ) → Outside p 1 a → store m p v a ≡ m a
unfolding store
store_other m p v a h = ground arith

pub store-IsBytes : (m : Memory) (p v : ℕ) → IsBytes m → v < 256 → IsBytes (store m p v)
unfolding store
store-IsBytes m p v h lt a = ground (arith, h a)

pub digit-read_bytes :
    (n : ℕ) (m : Memory) (p j : ℕ) → IsBytes m → j < n → digit j (read_bytes n m p) ≡ m (p + j)
unfolding digit read_bytes
digit-read_bytes zero m p j h lt = absurd (omega arith)
digit-read_bytes (suc n) m p zero h lt =
    let e : p + 0 ≡ p = omega arith in rw e (omega (arith, h p))
digit-read_bytes (suc n) m p (suc j) h lt =
    let rest = read_bytes n m (p + 1) in
    let tail : (m p + 256 * rest) / 256 ≡ rest = omega (arith, h p) in
    let place : p + suc j ≡ p + 1 + j = omega arith in
    rw (tail, place) (digit-read_bytes n m (p + 1) j h (omega arith))

pub write_bytes-Outside :
    (n : ℕ) (m : Memory) (p w a : ℕ) → Outside p n a → write_bytes n m p w a ≡ m a
unfolding write_bytes
write_bytes-Outside zero m p w a o = refl
write_bytes-Outside (suc n) m p w a o =
    write_bytes-Outside n _ (p + 1) (w / 256) a (omega arith)
    ∙ store_other m p (w % 256) a (omega arith)

pub write_bytes_inside :
    (n : ℕ) (m : Memory) (p w j : ℕ) → j < n → write_bytes n m p w (p + j) ≡ digit j w
unfolding write_bytes digit
write_bytes_inside zero m p w j lt = absurd (omega arith)
write_bytes_inside (suc n) m p w zero lt =
    write_bytes-Outside n _ (p + 1) (w / 256) (p + 0) (omega arith)
    ∙ store_self m p (w % 256) (p + 0) (omega arith)
write_bytes_inside (suc n) m p w (suc j) lt =
    let place : p + suc j ≡ p + 1 + j = omega arith in
    rw place (write_bytes_inside n (store m p (w % 256)) (p + 1) (w / 256) j (omega arith))

digit-lt : (j w : ℕ) → digit j w < 256
unfolding digit
digit-lt zero w = omega arith
digit-lt (suc j) w = digit-lt j (w / 256)

pub write_bytes-IsBytes : (n : ℕ) (m : Memory) (p w : ℕ) → IsBytes m → IsBytes (write_bytes n m p w)
unfolding write_bytes
write_bytes-IsBytes zero m p w h = h
write_bytes-IsBytes (suc n) m p w h =
    write_bytes-IsBytes n _ (p + 1) (w / 256) (store-IsBytes m p (w % 256) h (omega arith))
