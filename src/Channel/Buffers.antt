-- ===== src/Channel/Buffers.antt =====
-- Parts of a buffer.
use disguise_pets.Base.{
  ℕ, zero, suc, ◌+◌, ◌≤◌, ◌≡◌, refl, arith, List, [], ◌∷◌, ◌++◌, length, take, drop, leb, true,
  some, ap, ◌∙◌, length-append, length-drop,
}
use disguise_pets.Channel.{slice, write_front}

pub slice_lem :
    (n from : ℕ) (buf : List ℕ)
    → from + n ≤ length buf
    → slice n from buf ≡ some (take n (drop from buf))
slice_lem n from buf h =
    let test : leb (from + n) (length buf) ≡ true = ground arith in rw test refl

pub write_front_lem :
    (bytes buf : List ℕ)
    → length bytes ≤ length buf
    → write_front bytes buf ≡ some (bytes ++ drop (length bytes) buf)
write_front_lem bytes buf h =
    let test : leb (length bytes) (length buf) ≡ true = ground arith in rw test refl

pub length-write_front :
    (bytes buf : List ℕ)
    → length bytes ≤ length buf
    → length (bytes ++ drop (length bytes) buf) ≡ length buf
length-write_front bytes buf h =
    omega (arith, length-append bytes (drop (length bytes) buf), length-drop (length bytes) buf)

-- A part of what stands in front.
pub part-append :
    (n from : ℕ) (xs rest : List ℕ)
    → from + n ≤ length xs
    → take n (drop from (xs ++ rest)) ≡ take n (drop from xs)
part-append zero zero xs rest h = refl
part-append zero (suc from) [] rest h = absurd (omega arith)
part-append (suc n) zero [] rest h = absurd (omega arith)
part-append (suc n) (suc from) [] rest h = absurd (omega arith)
part-append (suc n) zero (x ∷ xs) rest h = ap (◌∷◌ x) (part-append n zero xs rest (omega arith))
part-append n (suc from) (x ∷ xs) rest h = part-append n from xs rest (omega arith)

pub slice-front :
    (n from : ℕ) (xs rest : List ℕ)
    → from + n ≤ length xs
    → slice n from (xs ++ rest) ≡ some (take n (drop from xs))
slice-front n from xs rest h =
    slice_lem n from (xs ++ rest) (omega (arith, length-append xs rest))
    ∙ ap some (part-append n from xs rest h)

pub take-all : (n : ℕ) (xs : List ℕ) → length xs ≡ n → take n xs ≡ xs
take-all zero [] e = refl
take-all zero (x ∷ xs) e = absurd (omega arith)
take-all (suc n) [] e = absurd (omega arith)
take-all (suc n) (x ∷ xs) e = ap (◌∷◌ x) (take-all n xs (omega arith))

pub drop-front : (n : ℕ) (xs rest : List ℕ) → length xs ≡ n → drop n (xs ++ rest) ≡ rest
drop-front zero [] rest e = refl
drop-front zero (x ∷ xs) rest e = absurd (omega arith)
drop-front (suc n) [] rest e = absurd (omega arith)
drop-front (suc n) (x ∷ xs) rest e = drop-front n xs rest (omega arith)

pub drop-none : (n : ℕ) (xs : List ℕ) → length xs ≡ n → drop n xs ≡ []
drop-none zero [] e = refl
drop-none zero (x ∷ xs) e = absurd (omega arith)
drop-none (suc n) [] e = absurd (omega arith)
drop-none (suc n) (x ∷ xs) e = drop-none n xs (omega arith)

pub take-take : (n k : ℕ) (xs : List ℕ) → n ≤ k → take n (take k xs) ≡ take n xs
take-take zero k xs h = refl
take-take (suc n) zero xs h = absurd (omega arith)
take-take (suc n) (suc k) [] h = refl
take-take (suc n) (suc k) (x ∷ xs) h = ap (◌∷◌ x) (take-take n k xs (omega arith))
