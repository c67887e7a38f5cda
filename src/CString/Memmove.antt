-- ===== src/CString/Memmove.antt =====
-- memmove: from the low end if dest is the lower, else from the high end, so that no byte is
-- overwritten before it is read.
use disguise_pets.Base.{
  ℕ, zero, suc, ◌+◌, ◌^◌, ◌≤◌, ◌<◌, ◌≡◌, refl, arith, dec_lt, inl, inr, leb, true, false, ◌∙◌,
}
use mathlib.Core.Path.{subst}
use disguise_pets.CString.{Memory, ptr_add, ptr_sub, store, move_up, move_down, memmove}
use disguise_pets.CString.Words.{store_self, store_other}
use disguise_pets.CString.Copies.{Copied, Copied-nothing, Copied-byte}

module _ (dest src len : ℕ) (m : Memory) (dest_fits : dest + len < 2 ^ 64)
    (src_fits : src + len < 2 ^ 64) where
  -- k bytes are copied when `count` are left.
  move_up-Copied :
      dest ≤ src
      → (count k : ℕ) (mem : Memory) → count + k ≡ len
      → Copied dest src k m mem
      → Copied dest src len m (move_up count (dest + k) (src + k) mem)
  unfolding move_up
  move_up-Copied lower zero k mem e c =
      let e' : k ≡ len = omega arith in subst (λ n. Copied dest src n m mem) e' c
  move_up-Copied lower (suc count) k mem e c =
      let p : ptr_add (dest + k) 1 ≡ dest + suc k = omega arith in
      let q : ptr_add (src + k) 1 ≡ src + suc k = omega arith in
      rw p (
        rw q (
          move_up-Copied lower count (suc k) (store mem (dest + k) (mem (src + k))) (omega arith)
            (Copied-byte dest src k m mem c (omega arith))))

  -- The bytes from k on are copied, and nothing else has changed.
  record CopiedFrom (k : ℕ) (mem : Memory) : Type 0 where
    inside : (i : ℕ) → k ≤ i → i < len → mem (dest + i) ≡ m (src + i)
    below : (a : ℕ) → a < dest + k → mem a ≡ m a
    above : (a : ℕ) → dest + len ≤ a → mem a ≡ m a

  move_down-Copied :
      src < dest
      → (k : ℕ) (mem : Memory) → k ≤ len
      → CopiedFrom k mem
      → Copied dest src len m (move_down k (dest + k) (src + k) mem)
  unfolding move_down
  move_down-Copied higher zero mem le c = record {
    inside = λ i lt. c.inside i (omega arith) lt;
    outside = λ a o. elim o [ inl low ↦ c.below a (omega arith) | inr high ↦ c.above a high ];
  }
  move_down-Copied higher (suc k) mem le c =
      let p : ptr_sub (dest + suc k) 1 ≡ dest + k = omega arith in
      let q : ptr_sub (src + suc k) 1 ≡ src + k = omega arith in
      rw p
        (rw q (move_down-Copied higher k (store mem (dest + k) (mem (src + k))) (omega arith) step))
    where
      step : CopiedFrom k (store mem (dest + k) (mem (src + k)))
      step = record {
        inside = λ i ge lt. elim (dec_lt k i) [
          | yes more ↦
              store_other mem (dest + k) (mem (src + k)) (dest + i) (omega arith)
              ∙ c.inside i more lt
          | no same ↦
              let e : i ≡ k = omega arith in
              rw e (
                store_self mem (dest + k) (mem (src + k)) (dest + k) refl
                ∙ c.below (src + k) (omega arith))
        ];
        below = λ a lt.
            store_other mem (dest + k) (mem (src + k)) a (omega arith) ∙ c.below a (omega arith);
        above = λ a ge. store_other mem (dest + k) (mem (src + k)) a (omega arith) ∙ c.above a ge;
      }

-- memmove copies the count bytes at src to dest and changes nothing else, however the two blocks
-- overlap, if neither wraps around the address space.
pub memmove-Copied :
    (dest src count : ℕ) (m : Memory)
    → dest + count < 2 ^ 64
    → src + count < 2 ^ 64
    → Copied dest src count m (memmove dest src count m)
unfolding memmove
memmove-Copied dest src count m df sf = elim (dec_lt src dest) [
  | yes higher ↦
      let test : leb dest src ≡ false = ground arith in
      let p : ptr_add dest count ≡ dest + count = omega arith in
      let q : ptr_add src count ≡ src + count = omega arith in
      rw test (
        rw p (rw q (move_down-Copied dest src count m df sf higher count m (omega arith) all_left)))
  | no lower ↦
      let test : leb dest src ≡ true = ground arith in
      let p : dest + 0 ≡ dest = omega arith in
      let q : src + 0 ≡ src = omega arith in
      rw test (
        subst (λ d. Copied dest src count m (move_up count d src m)) p
          (subst (λ s. Copied dest src count m (move_up count (dest + 0) s m)) q
            (move_up-Copied dest src count m df sf (omega arith) count 0 m (omega arith)
              (Copied-nothing dest src m))))
]
  where
    all_left : CopiedFrom dest src count m df sf count m
    all_left = record {
      inside = λ i ge lt. absurd (omega arith);
      below = λ a lt. refl;
      above = λ a ge. refl;
    }
