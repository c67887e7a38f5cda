-- ===== src/Usim/Vsim/Changing.antt =====
-- A copy out of an array that other processes write meanwhile.
use mathlib.Core.List.{append_assoc}
use disguise_pets.Base.{
  ℕ, zero, suc, ◌+◌, ◌<◌, ◌≤◌, ◌≡◌, refl, arith, List, [], ◌∷◌, ◌++◌, drop, length, length-append,
  some, get_elem?, get_or, ap, ap₂, ◌∙◌, sym, ◌>>=◌,
}
use disguise_pets.Base.Arrays.{put, for_loop, put-append}
use disguise_pets.Channel.Buffers.{drop-none}
use disguise_pets.Usim.Standard.Laws.{append_nil}
use disguise_pets.Usim.Vsim.{copy_changing}

-- The n bytes from place i on, each from the array of the moment at which it is read.
abbrev pub as_read : (n i : ℕ) (arrays : ℕ → List ℕ) → List ℕ
as_read zero i arrays = []
as_read (suc n) i arrays = get_or (arrays i) i 0 ∷ as_read n (i + 1) arrays

pub length-as_read : (n i : ℕ) (arrays : ℕ → List ℕ) → length (as_read n i arrays) ≡ n
length-as_read zero i arrays = refl
length-as_read (suc n) i arrays = ap suc (length-as_read n (i + 1) arrays)

get_elem?-inside : (xs : List ℕ) (i : ℕ) → i < length xs → get_elem? xs i ≡ some (get_or xs i 0)
get_elem?-inside [] i lt = absurd (omega arith)
get_elem?-inside (x ∷ xs) zero lt = refl
get_elem?-inside (x ∷ xs) (suc i) lt = get_elem?-inside xs i (omega arith)

get_or-append : (pre rest : List ℕ) (x i : ℕ) → length pre ≡ i → get_or (pre ++ x ∷ rest) i 0 ≡ x
get_or-append [] rest x zero e = refl
get_or-append [] rest x (suc i) e = absurd (omega arith)
get_or-append (y ∷ pre) rest x zero e = absurd (omega arith)
get_or-append (y ∷ pre) rest x (suc i) e = get_or-append pre rest x i (omega arith)

-- Of an array that does not change, the bytes themselves.
as_read_from :
    (pre xs : List ℕ) (i : ℕ) → length pre ≡ i → as_read (length xs) i (λ j. pre ++ xs) ≡ xs
as_read_from pre [] i e = refl
as_read_from pre (x ∷ xs) i e = ap₂ ◌∷◌ (get_or-append pre xs x i e) (
    ap (λ l. as_read (length xs) (i + 1) (λ j. l)) (sym (append_assoc pre (x ∷ []) xs))
    ∙ as_read_from (pre ++ x ∷ []) xs (i + 1) (omega (arith, length-append pre (x ∷ []))))

pub as_read-same : (n : ℕ) (xs : List ℕ) → length xs ≡ n → as_read n 0 (λ j. xs) ≡ xs
as_read-same n xs e = ap (λ n. as_read n 0 (λ j. xs)) (sym e) ∙ as_read_from [] xs 0 refl

changing_loop :
    (n i size : ℕ) (arrays : ℕ → List ℕ) (pre dst : List ℕ)
    → ((j : ℕ) → length (arrays j) ≡ size)
    → i + n ≤ size
    → length pre ≡ i
    → n ≤ length dst
    → for_loop n i (λ i dst. do x ← get_elem? (arrays i) i; put dst i x) (pre ++ dst)
      ≡ some (pre ++ (as_read n i arrays ++ drop n dst))
changing_loop zero i size arrays pre dst sized le e room = refl
changing_loop (suc n) i size arrays pre [] sized le e room = absurd (omega arith)
changing_loop (suc n) i size arrays pre (y ∷ dst) sized le e room =
    let x = get_or (arrays i) i 0 in
    rw (get_elem?-inside (arrays i) i (omega (arith, sized i)), put-append pre dst y i x e)
      (ap (for_loop n (i + 1) (λ i dst. do x ← get_elem? (arrays i) i; put dst i x))
          (sym (append_assoc pre (x ∷ []) dst))
        ∙ changing_loop n (i + 1) size arrays (pre ++ x ∷ []) dst sized (omega arith)
            (omega (arith, length-append pre (x ∷ []))) (omega arith)
        ∙ ap some (append_assoc pre (x ∷ []) (as_read n (i + 1) arrays ++ drop n dst)))

pub copy_changing_lem :
    (n : ℕ) (arrays : ℕ → List ℕ) (dst : List ℕ)
    → ((j : ℕ) → length (arrays j) ≡ n)
    → n ≤ length dst
    → copy_changing n arrays dst ≡ some (as_read n 0 arrays ++ drop n dst)
unfolding copy_changing
copy_changing_lem n arrays dst sized room =
    changing_loop n 0 n arrays [] dst sized (omega arith) refl room

pub copy_changing_whole :
    (n : ℕ) (arrays : ℕ → List ℕ) (dst : List ℕ)
    → ((j : ℕ) → length (arrays j) ≡ n)
    → length dst ≡ n
    → copy_changing n arrays dst ≡ some (as_read n 0 arrays)
copy_changing_whole n arrays dst sized same =
    copy_changing_lem n arrays dst sized (omega arith)
    ∙ rw (drop-none n dst same) (ap some (append_nil (as_read n 0 arrays)))
