-- ===== src/Channel/Copy.antt =====
-- A copy of n bytes of one array into another, both long enough.
use mathlib.Core.List.{append_assoc}
use disguise_pets.Base.{
  ℕ, zero, suc, ◌+◌, ◌<◌, ◌≤◌, ◌≡◌, refl, arith, List, [], ◌∷◌, ◌++◌, some, Option, length, take,
  drop, get_elem?, ◌>>=◌, ap, ◌∙◌, sym, length-append,
}
use disguise_pets.Base.Arrays.{put, put-append, for_loop, copy_at}

elem_at :
    (i : ℕ) (xs : List ℕ)
    → i < length xs
    → (x : ℕ) × (get_elem? xs i ≡ some x) × (drop i xs ≡ x ∷ drop (i + 1) xs)
elem_at i [] h = absurd (omega arith)
elem_at zero (x ∷ xs) h = (x, refl, refl)
elem_at (suc i) (x ∷ xs) h =
    let (y, e, d) = elem_at i xs (omega arith) in
    let count : suc i + 1 ≡ suc (i + 1) = omega arith in (y, e, rw count d)

copy_loop_lem :
    (n i to from : ℕ) (src pre rest : List ℕ)
    → length pre ≡ to + i
    → from + i + n ≤ length src
    → n ≤ length rest
    → for_loop n i (λ i d. get_elem? src (from + i) >>= λ x. put d (to + i) x) (pre ++ rest)
      ≡ some (pre ++ (take n (drop (from + i) src) ++ drop n rest))
copy_loop_lem zero i to from src pre rest e hs hr = refl
copy_loop_lem (suc n) i to from src pre [] e hs hr = absurd (omega arith)
copy_loop_lem (suc n) i to from src pre (y ∷ rest) e hs hr =
    let (x, got, front) = elem_at (from + i) src (omega arith) in
    let step : ℕ → List ℕ → Option (List ℕ) =
      λ i d. get_elem? src (from + i) >>= λ x. put d (to + i) x in
    let next : from + (i + 1) ≡ from + i + 1 = omega arith in
    rw got (
      rw (put-append pre rest y (to + i) x e) (
        ap (for_loop n (i + 1) step) (sym (append_assoc pre (x ∷ []) rest))
        ∙ copy_loop_lem n (i + 1) to from src (pre ++ x ∷ []) rest
            (omega (arith, length-append pre (x ∷ []))) (omega arith) (omega arith)
        ∙ ap some (append_assoc pre (x ∷ []) (take n (drop (from + (i + 1)) src) ++ drop n rest))
        ∙ rw (front, next) refl))

pub copy_at_lem :
    (n to from : ℕ) (src pre rest : List ℕ)
    → length pre ≡ to
    → from + n ≤ length src
    → n ≤ length rest
    → copy_at n to from src (pre ++ rest) ≡ some (pre ++ (take n (drop from src) ++ drop n rest))
copy_at_lem n to from src pre rest e hs hr =
    let z : from + 0 ≡ from = omega arith in
    copy_loop_lem n 0 to from src pre rest (omega arith) (omega arith) hr ∙ rw z refl
