-- ===== src/CString/Memset.antt =====
-- memset: the word that it stores holds the byte eight times, so both loops fill every byte.
use disguise_pets.Base.{
  ℕ, zero, suc, ◌+◌, ◌-◌, ◌%◌, ◌^◌, ◌≤◌, ◌<◌, ◌≡◌, refl, arith, dec_lt, Bool-cases, inl, inr, ◌==◌,
  ==_iff, true, ◌∙◌, some, bit_and,
}
use disguise_pets.Base.Table.{each_passes, passes_at}
use mathlib.Core.Path.{subst}
use disguise_pets.Bits.Align.{aligned_both, bit_and_255}
use disguise_pets.CString.{
  Memory, ptr_add, store, spread, store_word, write_bytes, fill_words, fill_bytes, both_aligned,
  memset,
}
use disguise_pets.CString.Words.{
  Outside, digit, store_self, store_other, write_bytes_inside, write_bytes-Outside,
}

-- m' is m with the n bytes from dest on set to v.
pub record Filled (dest v n : ℕ) (m m' : Memory) : Type 0 where
  pub inside : (i : ℕ) → i < n → m' (dest + i) ≡ v
  pub outside : (a : ℕ) → Outside dest n a → m' a ≡ m a

spread_table : each_passes (λ b. let w = spread b in each_passes (λ j. digit j w == b) 8) 256 ≡ true
unfolding each_passes spread digit
spread_table = refl

-- Each byte of the word is the low byte of the argument.
digit-spread : (byte j : ℕ) → j < 8 → digit j (spread byte) ≡ byte % 256
digit-spread byte j lt =
    rw reduce (
      (==_iff _ _).0 (passes_at _ 8 j lt (passes_at _ 256 (byte % 256) (omega arith) spread_table)))
  where
    reduce : spread byte ≡ spread (byte % 256)
    reduce =
        unfold spread in
        let low : bit_and byte 255 ≡ bit_and (byte % 256) 255 =
          omega (arith, bit_and_255 byte, bit_and_255 (byte % 256)) in
        rw low

Filled-nothing : (dest v : ℕ) (m : Memory) → Filled dest v 0 m m
Filled-nothing dest v m = record { inside = λ i lt. absurd (omega arith); outside = λ a o. refl }

module _ (dest byte len : ℕ) (m : Memory) (fits : dest + len < 2 ^ 64) where
  abbrev v : ℕ
  v = byte % 256

  Filled-byte :
      (k : ℕ) (mem : Memory)
      → Filled dest v k m mem
      → Filled dest v (suc k) m (store mem (dest + k) v)
  Filled-byte k mem f = record {
    inside = λ i lt. elim (dec_lt i k) [
      | yes p ↦ store_other mem (dest + k) v (dest + i) (omega arith) ∙ f.inside i p
      | no p ↦ store_self mem (dest + k) v (dest + i) (omega arith)
    ];
    outside = λ a o. store_other mem (dest + k) v a (omega arith) ∙ f.outside a (omega arith);
  }

  Filled-word :
      (k : ℕ) (mem : Memory)
      → Filled dest v k m mem
      → Filled dest v (k + 8) m (write_bytes 8 mem (dest + k) (spread byte))
  Filled-word k mem f = record {
    inside = λ i lt. elim (dec_lt i k) [
      | yes p ↦
          write_bytes-Outside 8 mem (dest + k) (spread byte) (dest + i) (omega arith) ∙ f.inside i p
      | no p ↦
          let j = i - k in
          let e : dest + i ≡ dest + k + (i - k) = omega arith in
          rw e (
            write_bytes_inside 8 mem (dest + k) (spread byte) j (omega arith)
            ∙ digit-spread byte j (omega arith))
    ];
    outside = λ a o.
        write_bytes-Outside 8 mem (dest + k) (spread byte) a (omega arith)
        ∙ f.outside a (omega arith);
  }

  fill_bytes-Filled :
      (fuel k d : ℕ) (mem : Memory)
      → d ≡ dest + k
      → k ≤ len
      → len < fuel + k
      → Filled dest v k m mem
      → (m' : Memory) × (fill_bytes fuel byte (dest + len) d mem ≡ some m') × Filled dest v len m m'
  unfolding fill_bytes
  fill_bytes-Filled zero k d mem at le enough f = absurd (omega arith)
  fill_bytes-Filled (suc fuel) k d mem at le enough f = elim (dec_lt k len) [
    | yes lt ↦
        let next : Filled dest v (suc k) m (store mem d v) = rw at (Filled-byte k mem f) in
        let (m', run, done) =
          fill_bytes-Filled fuel (suc k) (ptr_add d 1) (store mem d v) (omega arith) lt
            (omega arith) next in
        (m', ground (arith, run), done)
    | no ge ↦
        let e : k ≡ len = omega arith in (mem, ground arith, subst (λ n. Filled dest v n m mem) e f)
  ]

  fill_words-Filled :
      dest % 8 ≡ 0
      → len % 8 ≡ 0
      → (fuel k d : ℕ) (mem : Memory) → d ≡ dest + k
      → k % 8 ≡ 0
      → k ≤ len
      → len < fuel + k
      → Filled dest v k m mem
      → (m' : Memory) × (fill_words fuel (spread byte) (dest + len) d mem ≡ some m')
        × Filled dest v len m m'
  unfolding fill_words store_word
  fill_words-Filled da la zero k d mem at ka le enough f = absurd (omega arith)
  fill_words-Filled da la (suc fuel) k d mem at ka le enough f = elim (dec_lt k len) [
    | yes lt ↦
        let mem' = write_bytes 8 mem d (spread byte) in
        let next : Filled dest v (k + 8) m mem' = rw at (Filled-word k mem f) in
        let (m', run, done) =
          fill_words-Filled da la fuel (k + 8) (ptr_add d 8) mem' (omega arith) (omega arith)
            (omega arith) (omega arith) next in
        (m', ground (arith, run), done)
    | no ge ↦
        let e : k ≡ len = omega arith in (mem, ground arith, subst (λ n. Filled dest v n m mem) e f)
  ]

-- memset returns for every length, touches no unaligned word, and sets the len bytes from dest on
-- to the low byte of its argument and changes nothing else, if the block does not wrap around the
-- address space.
pub memset-Filled :
    (dest byte len : ℕ) (m : Memory)
    → dest + len < 2 ^ 64
    → (m' : Memory) × (memset dest byte len m ≡ some m') × Filled dest (byte % 256) len m m'
unfolding memset both_aligned
memset-Filled dest byte len m fits = elim (Bool-cases (both_aligned dest len)) [
  | inl on ↦
      let (da, la) = aligned_both dest len (ground arith) in
      let (m', run, done) =
        fill_words-Filled dest byte len m fits da la (len + 1) 0 dest m (omega arith) refl
          (omega arith) (omega arith) empty in
      (m', rw end (rw on run), done)
  | inr off ↦
      let (m', run, done) =
        fill_bytes-Filled dest byte len m fits (len + 1) 0 dest m (omega arith) (omega arith)
          (omega arith) empty in
      (m', rw end (rw off run), done)
]
  where
    end : ptr_add dest len ≡ dest + len
    end = omega arith

    empty : Filled dest (byte % 256) 0 m m
    empty = Filled-nothing dest (byte % 256) m
