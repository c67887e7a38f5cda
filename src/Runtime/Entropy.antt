-- ===== src/Runtime/Entropy.antt =====
-- The entropy is a fixed table of 512 bytes, handed out in order.
use mathlib.Core.List.{append_assoc, append-nil}
use Prim.Native.Nat.{min}
use disguise_pets.Base.{
  ℕ, zero, suc, ◌+◌, ◌-◌, ◌%◌, ◌≤◌, ◌≡◌, refl, arith, true, List, [], ◌∷◌, ◌++◌, some, none, Option,
  length, drop, ap, ◌∙◌, sym, length-append, ltb,
}
use disguise_pets.Base.Arrays.{put, for_loop, put-append}
use disguise_pets.Base.Int.{pos}
use disguise_pets.Runtime.{
  Pool, started, exit, fill_entropy, magic_random_init, take_entropy, syscall,
}

-- n bytes of the table from place d on.
unfoldable pub table : ℕ → ℕ → List ℕ
table d zero = []
table d (suc n) = d % 255 ∷ table (d + 1) n

abbrev pub pool : ℕ → ℕ → Pool
pool d n = record { remaining_bytes = n; entropy_bytes = table d n }

-- A list that a loop has filled up to i, one more byte.
prefix_step : (pre rest : List ℕ) (v i : ℕ) → length pre ≡ i → length (pre ++ v ∷ []) ≡ i + 1
prefix_step pre rest v i e = omega (arith, length-append pre (v ∷ []))

fill_loop_lem :
    (n i : ℕ) (pre rest : List ℕ)
    → length pre ≡ i
    → n ≤ length rest
    → for_loop n i (λ i bytes. put bytes i (i % 255)) (pre ++ rest)
      ≡ some (pre ++ (table i n ++ drop n rest))
unfolding table
fill_loop_lem zero i pre rest e h = refl
fill_loop_lem (suc n) i pre [] e h = absurd (omega arith)
fill_loop_lem (suc n) i pre (x ∷ rest) e h =
    let v = i % 255 in
    rw (put-append pre rest x i v e) (
      ap (for_loop n (i + 1) (λ i bytes. put bytes i (i % 255)))
        (sym (append_assoc pre (v ∷ []) rest))
      ∙ fill_loop_lem n (i + 1) (pre ++ v ∷ []) rest (prefix_step pre rest v i e) (omega arith)
      ∙ ap some (append_assoc pre (v ∷ []) (table (i + 1) n ++ drop n rest)))

first_round :
    (left done d n : ℕ) (pre buf rest : List ℕ)
    → put (pre ++ rest) done (d % 255) ≡ some buf
    → take_entropy (suc left) done (pool d (suc n)) (pre ++ rest)
      ≡ take_entropy left (done + 1) (pool (d + 1) n) buf
unfolding take_entropy table
first_round left done d n pre buf rest e =
    let test : ltb 0 (suc n) ≡ true = ground arith in
    let q : suc n - 1 ≡ n = omega arith in rw (test, take_entropy) (rw e (rw q))

-- The outcome when k bytes are drawn: done, the pool and the buffer.
abbrev drawn : (k done d n : ℕ) (pre rest : List ℕ) → Option (ℕ × Pool × List ℕ)
drawn k done d n pre rest = some (done + k, pool (d + k) (n - k), pre ++ (table d k ++ drop k rest))

drawn_none :
    (done d n : ℕ) (pre rest : List ℕ)
    → some (done, pool d n, pre ++ rest) ≡ drawn 0 done d n pre rest
unfolding table
drawn_none done d n pre rest =
    let p : done + 0 ≡ done = omega arith in
    let q : d + 0 ≡ d = omega arith in let r : n - 0 ≡ n = omega arith in rw (p, q, r)

drawn_more :
    (k done d n : ℕ) (pre rest : List ℕ) (x : ℕ)
    → drawn k (done + 1) (d + 1) n (pre ++ d % 255 ∷ []) rest
      ≡ drawn (suc k) done d (suc n) pre (x ∷ rest)
unfolding table
drawn_more k done d n pre rest x =
    let p : done + suc k ≡ done + 1 + k = omega arith in
    let q : d + suc k ≡ d + 1 + k = omega arith in
    let r : suc n - suc k ≡ n - k = omega arith in
    rw (p, q, r, append_assoc pre (d % 255 ∷ []) (table (d + 1) k ++ drop k rest))

take_entropy_lem :
    (left done d n k : ℕ) (pre rest : List ℕ)
    → k ≡ min left n
    → length pre ≡ done
    → left ≤ length rest
    → take_entropy left done (pool d n) (pre ++ rest) ≡ drawn k done d n pre rest
unfolding take_entropy
take_entropy_lem zero done d n k pre rest m e h =
    let z : k ≡ 0 = omega arith in rw z (drawn_none done d n pre rest)
take_entropy_lem (suc left) done d zero k pre rest m e h =
    let z : k ≡ 0 = omega arith in rw z (drawn_none done d 0 pre rest)
take_entropy_lem (suc left) done d (suc n) k pre [] m e h = absurd (omega arith)
take_entropy_lem (suc left) done d (suc n) k pre (x ∷ rest) m e h =
    let v = d % 255 in
    let z : k ≡ suc (min left n) = omega arith in
    rw z (
      first_round left done d n pre (pre ++ v ∷ rest) (x ∷ rest) (put-append pre rest x done v e)
      ∙ ap (take_entropy left (done + 1) (pool (d + 1) n)) (sym (append_assoc pre (v ∷ []) rest))
      ∙ take_entropy_lem left (done + 1) (d + 1) n (min left n) (pre ++ v ∷ []) rest refl
          (prefix_step pre rest v done e) (omega arith)
      ∙ drawn_more (min left n) done d n pre rest x)

-- The entropy pool after d bytes were drawn: exactly the rest of the table is left.
pub record Drawn (d : ℕ) (p : Pool) : Type 0 where
  pub total : p.remaining_bytes + d ≡ 512
  pub bytes : p.entropy_bytes ≡ table d p.remaining_bytes

-- With a block of 512 bytes from malloc, magic_random_init starts the pool at the front of the
-- table i % 255; without one the program ends with code 5.
pub magic_random_init-Drawn :
    (magic_random_init none ≡ some (exit 5))
    × ((block : List ℕ)
        → length block ≡ 512
        → (p : Pool) × (magic_random_init (some block) ≡ some (started p)) × Drawn 0 p)
unfolding magic_random_init fill_entropy
magic_random_init-Drawn =
    (refl, λ block e. (pool 0 512, rw (filled block e) refl, record { total = refl; bytes = refl }))
  where
    drop_all : (n : ℕ) (xs : List ℕ) → length xs ≡ n → drop n xs ≡ []
    drop_all zero [] e = refl
    drop_all zero (x ∷ xs) e = absurd (omega arith)
    drop_all (suc n) [] e = refl
    drop_all (suc n) (x ∷ xs) e = drop_all n xs (omega arith)

    filled : (block : List ℕ) → length block ≡ 512 → fill_entropy 512 block ≡ some (table 0 512)
    filled block e =
        fill_loop_lem 512 0 [] block refl (omega arith)
        ∙ ap some (ap (λ l. table 0 512 ++ l) (drop_all 512 block e) ∙ append-nil (table 0 512))

-- Randomness is predictable: after d bytes, getrandom into a buffer of enough room returns the
-- number of bytes drawn, which is count or what is left of 512, and puts bytes d, d + 1, ... of the
-- table at the front of the buffer; so the state after it is again known. When the 512 bytes are used up
-- the number is smaller than count, even 0, and the program goes on.
pub syscall-Drawn :
    (count d : ℕ) (p : Pool) (buf : List ℕ)
    → Drawn d p
    → count ≤ length buf
    → let k = min count (512 - d) in
      (p' : Pool) × (syscall 278 count p buf ≡ some (pos k, p', table d k ++ drop k buf))
      × Drawn (d + k) p'
unfolding syscall
syscall-Drawn count d p buf at room = (
  pool (d + k) (n - k),
  rw run (rw count_from_zero),
  record { total = omega (arith, at.total); bytes = refl },
)
  where
    n : ℕ
    n = p.remaining_bytes

    k : ℕ
    k = min count (512 - d)

    count_from_zero : 0 + k ≡ k
    count_from_zero = omega arith

    same : p ≡ pool d n
    same = λ i. record { remaining_bytes = n; entropy_bytes = at.bytes i }

    run : take_entropy count 0 p buf ≡ drawn k 0 d n [] buf
    run =
        ap (λ q. take_entropy count 0 q buf) same
        ∙ take_entropy_lem count 0 d n k [] buf (omega (arith, at.total)) refl room
