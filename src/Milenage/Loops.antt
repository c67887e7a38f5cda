-- ===== src/Milenage/Loops.antt =====
-- Each loop of usim.c as one operation on blocks of its fixed length.
use disguise_pets.Base.{
  ℕ, zero, suc, ◌≡◌, refl, arith, ◌≤◌, List, [], ◌∷◌, ◌++◌, take, drop, length, some, Option, ap₂,
  ◌>>=◌,
}
use disguise_pets.Base.Arrays.{copy_at, elements, by_elements, by_two_arrays}
use disguise_pets.Bits.Xor.{bit_xor-zero, bit_xor_comm, bit_xor_cancel}
use disguise_pets.Milenage.{store_xor, xor_into, xor_at, xor_from, store_sqn, store_amf}
use disguise_pets.Milenage.Spec.{xor, rot, constant}

-- An equation about three blocks holds if it holds of blocks of variables.
three_blocks :
    (P : List ℕ → List ℕ → List ℕ → Type 0)
    → ((f g h : ℕ → ℕ) → P (elements 16 f) (elements 16 g) (elements 16 h))
    → (a b c : List ℕ) → length a ≡ 16
    → length b ≡ 16
    → length c ≡ 16
    → P a b c
three_blocks P e a b c ha hb hc =
    by_elements 16 (λ a. P a b c)
      (λ f.
        by_elements 16 (λ b. P (elements 16 f) b c)
          (λ g. by_elements 16 (P (elements 16 f) (elements 16 g)) (e f g) c hc) b hb)
      a ha

pub store_xor_plain :
    (a b input : List ℕ)
    → length a ≡ 16
    → length b ≡ 16
    → length input ≡ 16
    → store_xor 0 a b input ≡ some (xor a b)
unfolding store_xor
store_xor_plain = three_blocks (λ a b c. store_xor 0 a b c ≡ some (xor a b)) (λ f g h. refl)

-- Storing at (i + shift) % 16 rotates by 16 - shift bytes, for the shifts of usim.c.
pub data Rotates : ℕ → ℕ → Type 0 where
  none_at_all : Rotates 0 0
  four : Rotates 12 4
  half : Rotates 8 8

pub store_xor_rotated :
    (shift r : ℕ)
    → Rotates shift r
    → (a b input : List ℕ) → length a ≡ 16
    → length b ≡ 16
    → length input ≡ 16
    → store_xor shift a b input ≡ some (rot r (xor a b))
unfolding store_xor
store_xor_rotated shift r none_at_all =
    three_blocks (λ a b c. store_xor 0 a b c ≡ some (rot 0 (xor a b))) (λ f g h. refl)
store_xor_rotated shift r four =
    three_blocks (λ a b c. store_xor 12 a b c ≡ some (rot 4 (xor a b))) (λ f g h. refl)
store_xor_rotated shift r half =
    three_blocks (λ a b c. store_xor 8 a b c ≡ some (rot 8 (xor a b))) (λ f g h. refl)

pub Rotates-le : (shift r : ℕ) → Rotates shift r → r ≤ 16
Rotates-le shift r none_at_all = omega arith
Rotates-le shift r four = omega arith
Rotates-le shift r half = omega arith

pub xor_into_lem :
    (b out : List ℕ) → length b ≡ 16 → length out ≡ 16 → xor_into 16 b out ≡ some (xor out b)
unfolding xor_into
xor_into_lem = by_two_arrays 16 16 (λ b o. xor_into 16 b o ≡ some (xor o b)) (λ f g. refl)

pub xor_at_last :
    (c : ℕ) (input : List ℕ) → length input ≡ 16 → xor_at 15 c input ≡ some (xor input (constant c))
unfolding xor_at
xor_at_last c =
    by_elements 16 (λ a. xor_at 15 c a ≡ some (xor a (constant c))) (λ f. simp bit_xor-zero)

pub copy_block : (a dst : List ℕ) → length a ≡ 16 → length dst ≡ 16 → copy_at 16 0 0 a dst ≡ some a
copy_block = by_two_arrays 16 16 (λ a d. copy_at 16 0 0 a d ≡ some a) (λ f g. refl)

-- The parts of a block that the functions return.
pub copy_low_half :
    (a dst : List ℕ) → length a ≡ 16 → length dst ≡ 8 → copy_at 8 0 0 a dst ≡ some (take 8 a)
copy_low_half = by_two_arrays 16 8 (λ a d. copy_at 8 0 0 a d ≡ some (take 8 a)) (λ f g. refl)

pub copy_high_half :
    (a dst : List ℕ) → length a ≡ 16 → length dst ≡ 8 → copy_at 8 0 8 a dst ≡ some (drop 8 a)
copy_high_half = by_two_arrays 16 8 (λ a d. copy_at 8 0 8 a d ≡ some (drop 8 a)) (λ f g. refl)

pub copy_six :
    (a dst : List ℕ) → length a ≡ 16 → length dst ≡ 6 → copy_at 6 0 0 a dst ≡ some (take 6 a)
copy_six = by_two_arrays 16 6 (λ a d. copy_at 6 0 0 a d ≡ some (take 6 a)) (λ f g. refl)

-- in1[i] = in1[i + 8] = sqn[i], then in1[i + 6] = in1[i + 14] = amf[i].
pub fill_in1 :
    {B : Type 0} (rest : List ℕ → Option B) (sqn amf in1 : List ℕ)
    → length sqn ≡ 6
    → 2 ≤ length amf
    → length in1 ≡ 16
    → (store_sqn sqn in1 >>= λ a. store_amf amf a >>= rest)
      ≡ rest (sqn ++ take 2 amf ++ sqn ++ take 2 amf)
unfolding store_sqn store_amf
fill_in1 rest sqn [] in1 hs ha hi = absurd (omega arith)
fill_in1 rest sqn (x ∷ []) in1 hs ha hi = absurd (omega arith)
fill_in1 rest sqn (x ∷ y ∷ more) in1 hs ha hi =
    by_two_arrays 6 16
      (λ s a.
        (store_sqn s a >>= λ b. store_amf (x ∷ y ∷ more) b >>= rest)
        ≡ rest (s ++ (x ∷ y ∷ []) ++ s ++ x ∷ y ∷ []))
      (λ f g. refl) sqn in1 hs hi

-- The order in which f1 masks its second block.
pub mask_order :
    (temp rotated : List ℕ)
    → length temp ≡ 16
    → length rotated ≡ 16
    → xor (xor temp rotated) (constant 0) ≡ xor rotated temp
mask_order =
    by_two_arrays 16 16 (λ t r. xor (xor t r) (constant 0) ≡ xor r t)
      (λ f g. simp (bit_xor-zero) (same_order 16 f g))
  where
    same_order :
        (n : ℕ) (f g : ℕ → ℕ)
        → xor (elements n f) (elements n g) ≡ xor (elements n g) (elements n f)
    same_order zero f g = refl
    same_order (suc n) f g =
        ap₂ ◌∷◌ (bit_xor_comm (f 0) (g 0)) (same_order n (λ i. f (suc i)) (λ i. g (suc i)))

-- The loops of the answer: the six bytes of SQN, masked, and the parts of AUTN.
pub xor_six :
    (a b dst : List ℕ)
    → length a ≡ 6
    → length b ≡ 6
    → length dst ≡ 6
    → xor_from 6 a b dst ≡ some (xor a b)
unfolding xor_from
xor_six a b dst ha hb hd =
    by_elements 6 (λ a. xor_from 6 a b dst ≡ some (xor a b))
      (λ f.
        by_two_arrays 6 6 (λ b d. xor_from 6 (elements 6 f) b d ≡ some (xor (elements 6 f) b))
          (λ g h. refl) b dst hb hd)
      a ha

pub xor_six_of_block :
    (a b dst : List ℕ)
    → length a ≡ 16
    → length b ≡ 6
    → length dst ≡ 6
    → xor_from 6 a b dst ≡ some (xor (take 6 a) b)
unfolding xor_from
xor_six_of_block a b dst ha hb hd =
    by_elements 16 (λ a. xor_from 6 a b dst ≡ some (xor (take 6 a) b))
      (λ f.
        by_two_arrays 6 6 (λ b d. xor_from 6 (elements 16 f) b d ≡ some (xor (elements 6 f) b))
          (λ g h. refl) b dst hb hd)
      a ha

pub copy_amf :
    (a dst : List ℕ)
    → length a ≡ 16
    → length dst ≡ 4
    → copy_at 2 0 6 a dst ≡ some (take 2 (drop 6 a) ++ drop 2 dst)
copy_amf =
    by_two_arrays 16 4 (λ a d. copy_at 2 0 6 a d ≡ some (take 2 (drop 6 a) ++ drop 2 d))
      (λ f g. refl)

pub xor_cancel : (a b : List ℕ) → length a ≡ length b → xor (xor a b) b ≡ a
xor_cancel [] b e = refl
xor_cancel (x ∷ a) [] e = absurd (omega arith)
xor_cancel (x ∷ a) (y ∷ b) e = ap₂ ◌∷◌ (bit_xor_cancel x y) (xor_cancel a b (omega arith))
