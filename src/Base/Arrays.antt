-- ===== src/Base/Arrays.antt =====
-- C arrays as lists: reads and writes with bounds, counted loops over them, and proofs about arrays
-- of a fixed length by computing with their elements.
use disguise_pets.Base.{
  ℕ, zero, suc, ◌+◌, ◌≡◌, refl, ap, List, [], ◌∷◌, ◌++◌, length-append, length-take, take, drop,
  take-append-drop, dec_lt, ◌≤◌, ◌<◌, Option, none, some, length, get_elem?, get_or, set, ltb,
  if◌then◌else◌, ◌>>=◌, arith,
}
use mathlib.Core.Path.{subst}

-- a[i] = v
abbrev pub put {ℓ} : {A : Type ℓ} → List A → ℕ → A → Option (List A)
put a i v = if ltb i (length a) then some (set a i v) else none

-- for (k = i; k < i + n; k++) body
abbrev pub for_loop {ℓ} : {S : Type ℓ} → ℕ → ℕ → (ℕ → S → Option S) → S → Option S
for_loop zero i body s = some s
for_loop (suc n) i body s = body i s >>= λ s'. for_loop n (i + 1) body s'

-- memcpy(dst + to, src + from, n) between two arrays.
abbrev pub copy_at {ℓ} : {A : Type ℓ} → (n to from : ℕ) → List A → List A → Option (List A)
copy_at n to from src dst =
    for_loop n 0 (λ i d. get_elem? src (from + i) >>= λ x. put d (to + i) x) dst

abbrev pub elements {ℓ} : {A : Type ℓ} → ℕ → (ℕ → A) → List A
elements zero f = []
elements (suc n) f = f 0 ∷ elements n (λ i. f (suc i))

pub elements-get_or {ℓ} :
    {A : Type ℓ} (d : A) (n : ℕ) (xs : List A)
    → length xs ≡ n
    → elements n (λ i. get_or xs i d) ≡ xs
elements-get_or d zero [] e = refl
elements-get_or d zero (x ∷ xs) e = absurd (omega arith)
elements-get_or d (suc n) [] e = absurd (omega arith)
elements-get_or d (suc n) (x ∷ xs) e = ap (◌∷◌ x) (elements-get_or d n xs (omega arith))

-- What holds of every list of n variables holds of every list of length n.
pub by_elements {ℓ} :
    (n : ℕ) (P : List ℕ → Type ℓ)
    → ((f : ℕ → ℕ) → P (elements n f))
    → (xs : List ℕ) → length xs ≡ n
    → P xs
by_elements n P h xs e = subst P (elements-get_or 0 n xs e) (h (λ i. get_or xs i 0))

pub by_two_arrays {ℓ} :
    (n m : ℕ) (P : List ℕ → List ℕ → Type ℓ)
    → ((f g : ℕ → ℕ) → P (elements n f) (elements m g))
    → (xs ys : List ℕ) → length xs ≡ n
    → length ys ≡ m
    → P xs ys
by_two_arrays n m P h xs ys ex ey =
    by_elements n (λ a. P a ys) (λ f. by_elements m (P (elements n f)) (h f) ys ey) xs ex

-- A write behind a prefix, and a read there.
pub put-append :
    (pre rest : List ℕ) (x i v : ℕ)
    → length pre ≡ i
    → put (pre ++ x ∷ rest) i v ≡ some (pre ++ v ∷ rest)
put-append pre rest x i v e = ground (arith, length-append pre (x ∷ rest), set-append pre i e)
  where
    set-append :
        (pre : List ℕ) (i : ℕ) → length pre ≡ i → set (pre ++ x ∷ rest) i v ≡ pre ++ v ∷ rest
    set-append [] zero e = refl
    set-append [] (suc i) e = absurd (omega arith)
    set-append (y ∷ pre) zero e = absurd (omega arith)
    set-append (y ∷ pre) (suc i) e = ap (◌∷◌ y) (set-append pre i (omega arith))

pub get_elem?-append :
    (pre rest : List ℕ) (x i : ℕ) → length pre ≡ i → get_elem? (pre ++ x ∷ rest) i ≡ some x
get_elem?-append [] rest x zero e = refl
get_elem?-append [] rest x (suc i) e = absurd (omega arith)
get_elem?-append (y ∷ pre) rest x zero e = absurd (omega arith)
get_elem?-append (y ∷ pre) rest x (suc i) e = get_elem?-append pre rest x i (omega arith)

-- What holds of every list whose first n elements are variables holds of every list with n elements
-- or more.
pub by_prefix {ℓ} :
    (n : ℕ) (P : List ℕ → Type ℓ)
    → ((f : ℕ → ℕ) (rest : List ℕ) → P (elements n f ++ rest))
    → (xs : List ℕ) → n ≤ length xs
    → P xs
by_prefix n P h xs le = subst P (take-append-drop n xs) (
    by_elements n (λ front. P (front ++ drop n xs)) (λ f. h f (drop n xs)) (take n xs)
      (omega (arith, length-take n xs)))

get_elem?-none : (xs : List ℕ) (i : ℕ) → length xs ≤ i → get_elem? xs i ≡ none
get_elem?-none [] i h = refl
get_elem?-none (x ∷ xs) zero h = absurd (omega arith)
get_elem?-none (x ∷ xs) (suc i) h = get_elem?-none xs i (omega arith)

bind-none {ℓ κ} :
    {A : Type ℓ} {B : Type κ} (m : Option A) (k : A → Option B)
    → ((a : A) → k a ≡ none)
    → (m >>= k) ≡ none
bind-none none k h = refl
bind-none (some a) k h = h a

copy_loop_short :
    (n i to from : ℕ) (src dst : List ℕ)
    → 0 < n
    → length src < from + i + n
    → for_loop n i (λ i d. get_elem? src (from + i) >>= λ x. put d (to + i) x) dst ≡ none
copy_loop_short zero i to from src dst pos h = absurd (omega arith)
copy_loop_short (suc n) i to from src dst pos h = elim (dec_lt (from + i) (length src)) [
  | yes inside ↦
      bind-none (get_elem? src (from + i) >>= λ x. put dst (to + i) x) _
        (λ d. copy_loop_short n (i + 1) to from src d (omega arith) (omega arith))
  | no outside ↦ rw (get_elem?-none src (from + i) (omega arith))
]

-- A copy that reads beyond the end of its source is a fault.
pub copy_at_short :
    (n to from : ℕ) (src dst : List ℕ)
    → 0 < n
    → length src < from + n
    → copy_at n to from src dst ≡ none
copy_at_short n to from src dst pos h = copy_loop_short n 0 to from src dst pos (omega arith)
