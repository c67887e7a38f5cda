-- ===== src/Provision/Compare.antt =====
-- The two comparisons of arrays.
use disguise_pets.Base.{
  ℕ, ◌≡◌, ◌≢◌, refl, arith, true, false, List, [], ◌∷◌, ◌==◌, ap, ◌∙◌, sym, ℕ_discrete, Bool-cases,
  inl, inr, ◌⊎◌,
}
use disguise_pets.Base.Int.{ℤ, pos, negsuc}
use disguise_pets.Channel.{Sodium, SodiumLaws}
use disguise_pets.Provision.{is_zero, same_bytes}

same_bytes-equal : (xs : List ℕ) → same_bytes xs xs ≡ true
same_bytes-equal [] = refl
same_bytes-equal (x ∷ xs) =
    let test : (x == x) ≡ true = ground arith in rw test (same_bytes-equal xs)

pub same_bytes-eq : (xs ys : List ℕ) → same_bytes xs ys ≡ true → xs ≡ ys
same_bytes-eq [] [] h = refl
same_bytes-eq [] (y ∷ ys) h = absurd (ground (arith, h))
same_bytes-eq (x ∷ xs) [] h = absurd (ground (arith, h))
same_bytes-eq (x ∷ xs) (y ∷ ys) h = elim (ℕ_discrete x y) [
  | yes e ↦
      let test : (x == y) ≡ true = ground arith in
      rw e (ap (◌∷◌ y) (same_bytes-eq xs ys (rw test at h)))
  | no ne ↦ let test : (x == y) ≡ false = ground arith in absurd (ground (arith, (rw test at h)))
]

pub same_bytes-same : (xs ys : List ℕ) → xs ≡ ys → same_bytes xs ys ≡ true
same_bytes-same xs ys e = ap (same_bytes xs) (sym e) ∙ same_bytes-equal xs

pub same_bytes-differ : (xs ys : List ℕ) → xs ≢ ys → same_bytes xs ys ≡ false
same_bytes-differ xs ys ne = elim (Bool-cases (same_bytes xs ys)) [
  | inl e ↦ absurd (ne (same_bytes-eq xs ys e))
  | inr e ↦ e
]

pub same-or-differ : (xs ys : List ℕ) → (xs ≡ ys) ⊎ (xs ≢ ys)
same-or-differ xs ys = elim (Bool-cases (same_bytes xs ys)) [
  | inl e ↦ inl (same_bytes-eq xs ys e)
  | inr e ↦ inr (λ h. absurd (ground (arith, e, same_bytes-same xs ys h)))
]

is_zero-eq : (z : ℤ) → is_zero z ≡ true → z ≡ pos 0
is_zero-eq (pos n) h = ap pos (ground (arith, h))
is_zero-eq (negsuc n) h = absurd (ground (arith, h))

module _ (s : Sodium) (laws : SodiumLaws s) where
  pub memcmp-is_zero : (a b : List ℕ) → a ≡ b → is_zero (s.memcmp a b) ≡ true
  memcmp-is_zero a b e = ap (λ c. is_zero (s.memcmp a c)) (sym e) ∙ ap is_zero (laws.memcmp-equal a)

  pub memcmp-not_zero : (a b : List ℕ) → a ≢ b → is_zero (s.memcmp a b) ≡ false
  memcmp-not_zero a b ne = elim (Bool-cases (is_zero (s.memcmp a b))) [
    | inl e ↦ absurd (ne (laws.memcmp-differs a b (is_zero-eq (s.memcmp a b) e)))
    | inr e ↦ e
  ]
