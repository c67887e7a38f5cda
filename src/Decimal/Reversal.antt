-- ===== src/Decimal/Reversal.antt =====
-- The loop that swaps the ends of the text, as the reversal of the part between them.
use mathlib.Core.Path.{subst}
use mathlib.Core.List.{append_assoc, reverse, reverse-append, reverse-cons}
use disguise_pets.Base.{
  ℕ, zero, suc, ◌+◌, ◌-◌, ◌≤◌, ◌<◌, ◌≡◌, refl, arith, true, List, [], ◌∷◌, ◌++◌, some, length,
  get_elem?, ltb, ap, ◌∙◌, sym, length-append,
}
use disguise_pets.Base.Arrays.{put, put-append, get_elem?-append}
use disguise_pets.Decimal.{swap_ends}

-- A list has a last element.
unsnoc :
    (x : ℕ) (xs : List ℕ)
    → (ys : List ℕ) × (y : ℕ) × (x ∷ xs ≡ ys ++ y ∷ []) × (length ys ≡ length xs)
unsnoc x [] = ([], x, refl, refl)
unsnoc x (z ∷ xs) = let (ys, y, e, l) = unsnoc z xs in (x ∷ ys, y, ap (◌∷◌ x) e, ap suc l)

swap_stop :
    (fuel start end : ℕ) (str : List ℕ)
    → end ≤ start
    → swap_ends (suc fuel) start end str ≡ some str
unfolding swap_ends
swap_stop fuel start end str h = ground arith

-- One round exchanges the two ends.
swap_step :
    (fuel : ℕ) (a m b : List ℕ) (x y : ℕ)
    → swap_ends (suc fuel) (length a) (length a + suc (length m)) (a ++ x ∷ (m ++ y ∷ b))
      ≡ swap_ends fuel (length a + 1) (length a + suc (length m) - 1) (a ++ y ∷ (m ++ x ∷ b))
unfolding swap_ends
swap_step fuel a m b x y =
    let start = length a in
    let end = length a + suc (length m) in
    let test : ltb start end ≡ true = ground arith in
    rw (test, swap_ends)
      (rw (get_elem?-append a (m ++ y ∷ b) x start refl)
        (rw (far_read x) (rw (put-append a (m ++ y ∷ b) x start y refl) (rw far_write))))
  where
    split : (z w : ℕ) → a ++ z ∷ (m ++ w ∷ b) ≡ (a ++ z ∷ m) ++ w ∷ b
    split z w = sym (append_assoc a (z ∷ m) (w ∷ b))

    count : (z : ℕ) → length (a ++ z ∷ m) ≡ length a + suc (length m)
    count z = length-append a (z ∷ m)

    far_read : (z : ℕ) → get_elem? (a ++ z ∷ (m ++ y ∷ b)) (length a + suc (length m)) ≡ some y
    far_read z = rw (split z y) (get_elem?-append (a ++ z ∷ m) b y _ (count z))

    far_write :
        put (a ++ y ∷ (m ++ y ∷ b)) (length a + suc (length m)) x ≡ some (a ++ y ∷ (m ++ x ∷ b))
    far_write =
        rw (split y y) (put-append (a ++ y ∷ m) b y _ x (count y)) ∙ ap some (sym (split y x))

reverse_ends :
    (x y : ℕ) (m b : List ℕ) → reverse (x ∷ (m ++ y ∷ [])) ++ b ≡ y ∷ (reverse m ++ x ∷ b)
reverse_ends x y m b =
    ap (λ l. l ++ b) (reverse-cons x (m ++ y ∷ []))
    ∙ ap (λ l. (l ++ x ∷ []) ++ b) (reverse-append m (y ∷ []))
    ∙ ap (◌∷◌ y) (append_assoc (reverse m) (x ∷ []) b)

pub swap_ends_lem :
    (fuel : ℕ) (a m b : List ℕ)
    → length m < fuel
    → swap_ends fuel (length a) (length a + length m - 1) (a ++ (m ++ b))
      ≡ some (a ++ (reverse m ++ b))
swap_ends_lem zero a m b h = absurd (omega arith)
swap_ends_lem (suc fuel) a [] b h =
    swap_stop fuel (length a) (length a + 0 - 1) (a ++ b) (omega arith)
swap_ends_lem (suc fuel) a (x ∷ []) b h =
    swap_stop fuel (length a) (length a + 1 - 1) (a ++ x ∷ b) (omega arith)
swap_ends_lem (suc fuel) a (x ∷ z ∷ m) b h =
    let (ms, y, e, len) = unsnoc z m in
    subst
      (λ l.
        swap_ends (suc fuel) (length a) (length a + suc (length l) - 1) (a ++ x ∷ (l ++ b))
        ≡ some (a ++ (reverse (x ∷ l) ++ b)))
      (sym e) (round ms y (swap_ends_lem fuel (a ++ y ∷ []) ms (x ∷ b) (omega arith)))
  where
    round :
        (ms : List ℕ) (y : ℕ)
        → swap_ends fuel
            (length (a ++ y ∷ []))
            (length (a ++ y ∷ []) + length ms - 1)
            ((a ++ y ∷ []) ++ (ms ++ x ∷ b))
          ≡ some ((a ++ y ∷ []) ++ (reverse ms ++ x ∷ b))
        → swap_ends
            (suc fuel)
            (length a)
            (length a + suc (length (ms ++ y ∷ [])) - 1)
            (a ++ x ∷ ((ms ++ y ∷ []) ++ b))
          ≡ some (a ++ (reverse (x ∷ (ms ++ y ∷ [])) ++ b))
    round ms y ih =
        let end : length a + suc (length (ms ++ y ∷ [])) - 1 ≡ length a + suc (length ms) =
          omega (arith, length-append ms (y ∷ [])) in
        let start' : length (a ++ y ∷ []) ≡ length a + 1 = length-append a (y ∷ []) in
        let end' : length a + 1 + length ms - 1 ≡ length a + suc (length ms) - 1 = omega arith in
        let ih' : swap_ends fuel (length a + 1) (length a + suc (length ms) - 1)
              (a ++ y ∷ (ms ++ x ∷ b))
            ≡ some (a ++ y ∷ (reverse ms ++ x ∷ b)) =
          rw
            (
              start',
              end',
              append_assoc a (y ∷ []) (ms ++ x ∷ b),
              append_assoc a (y ∷ []) (reverse ms ++ x ∷ b),
            )
            at ih in
        rw (end, append_assoc ms (y ∷ []) b, reverse_ends x y ms b)
          (swap_step fuel a ms b x y ∙ ih')
