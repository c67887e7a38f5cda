-- ===== src/CString/Scan.antt =====
-- memcmp and strlen: the loops that read memory and change nothing.
use disguise_pets.Base.{
  ℕ, zero, suc, ◌+◌, ◌-◌, ◌^◌, ◌<◌, ◌≡◌, ◌≢◌, ◌↔◌, arith, ℕ_discrete, ◌∙◌, some, ap,
}
use disguise_pets.Base.Int.{pos, sub_ℕ}
use disguise_pets.CString.{Memory, ptr_add, memcmp, strlen, strlen_loop}

-- memcmp stops at the first place at which the blocks differ.
memcmp_skip :
    (k s1 s2 n : ℕ) (m : Memory)
    → s1 + k + n < 2 ^ 64
    → s2 + k + n < 2 ^ 64
    → ((i : ℕ) → i < k → m (s1 + i) ≡ m (s2 + i))
    → memcmp s1 s2 (k + n) m ≡ memcmp (s1 + k) (s2 + k) n m
unfolding memcmp
memcmp_skip zero s1 s2 n m f g same =
    let p : s1 + 0 ≡ s1 = omega arith in
    let q : s2 + 0 ≡ s2 = omega arith in let r : 0 + n ≡ n = omega arith in rw (p, q, r)
memcmp_skip (suc k) s1 s2 n m f g same =
    let count : suc k + n ≡ suc (k + n) = omega arith in
    let p : ptr_add s1 1 ≡ s1 + 1 = omega arith in
    let q : ptr_add s2 1 ≡ s2 + 1 = omega arith in
    let p' : s1 + suc k ≡ s1 + 1 + k = omega arith in
    let q' : s2 + suc k ≡ s2 + 1 + k = omega arith in
    let first : m s1 ≡ m s2 = head in
    rw (count, p', q')
      (ground
        (arith, first, p, q, memcmp_skip k (s1 + 1) (s2 + 1) n m (omega arith) (omega arith) tail))
  where
    head : m s1 ≡ m s2
    head =
        let p : s1 + 0 ≡ s1 = omega arith in
        let q : s2 + 0 ≡ s2 = omega arith in ap m (omega arith) ∙ same 0 (omega arith) ∙ ap m q

    tail : (i : ℕ) → i < k → m (s1 + 1 + i) ≡ m (s2 + 1 + i)
    tail i lt = ap m (omega arith) ∙ same (suc i) (omega arith) ∙ ap m (omega arith)

-- If two blocks of n bytes, which do not wrap around the address space, differ first at place k,
-- then memcmp returns the difference u1 - u2 of their bytes there.
pub memcmp_first_difference :
    (k s1 s2 n : ℕ) (m : Memory)
    → k < n
    → s1 + n < 2 ^ 64
    → s2 + n < 2 ^ 64
    → ((i : ℕ) → i < k → m (s1 + i) ≡ m (s2 + i))
    → m (s1 + k) ≢ m (s2 + k)
    → memcmp s1 s2 n m ≡ sub_ℕ (m (s1 + k)) (m (s2 + k))
unfolding memcmp
memcmp_first_difference k s1 s2 n m lt f g same ne =
    let split : n ≡ k + suc (n - k - 1) = omega arith in
    rw split
      (memcmp_skip k s1 s2 (suc (n - k - 1)) m (omega arith) (omega arith) same ∙ ground arith)

sub_ℕ-ne : (a b : ℕ) → a ≢ b → sub_ℕ a b ≢ pos 0
sub_ℕ-ne a b h = ground arith

memcmp_same :
    (s1 s2 n : ℕ) (m : Memory)
    → s1 + n < 2 ^ 64
    → s2 + n < 2 ^ 64
    → memcmp s1 s2 n m ≡ pos 0
    → (i : ℕ) → i < n
    → m (s1 + i) ≡ m (s2 + i)
unfolding memcmp
memcmp_same s1 s2 zero m f g e i lt = absurd (omega arith)
memcmp_same s1 s2 (suc n) m f g e i lt = elim (ℕ_discrete (m s1) (m s2)) [
  | yes eq ↦
      let p : ptr_add s1 1 ≡ s1 + 1 = omega arith in
      let q : ptr_add s2 1 ≡ s2 + 1 = omega arith in
      let later : memcmp (s1 + 1) (s2 + 1) n m ≡ pos 0 = ground (arith, p, q) in
      go (memcmp_same (s1 + 1) (s2 + 1) n m (omega arith) (omega arith) later) eq i lt
  | no ne ↦ absurd (sub_ℕ-ne (m s1) (m s2) ne (ground arith))
]
  where
    go :
        ((j : ℕ) → j < n → m (s1 + 1 + j) ≡ m (s2 + 1 + j))
        → m s1 ≡ m s2
        → (i : ℕ) → i < suc n
        → m (s1 + i) ≡ m (s2 + i)
    go tail eq zero lt = ap m (omega arith) ∙ eq ∙ ap m (omega arith)
    go tail eq (suc i) lt = ap m (omega arith) ∙ tail i (omega arith) ∙ ap m (omega arith)

-- memcmp returns 0 exactly when the two blocks of n bytes are equal, if neither wraps around the
-- address space.
pub memcmp-zero_iff :
    (s1 s2 n : ℕ) (m : Memory)
    → s1 + n < 2 ^ 64
    → s2 + n < 2 ^ 64
    → (memcmp s1 s2 n m ≡ pos 0) ↔ ((i : ℕ) → i < n → m (s1 + i) ≡ m (s2 + i))
unfolding memcmp
memcmp-zero_iff s1 s2 n m f g = (
  memcmp_same s1 s2 n m f g,
  λ same.
      let split : n ≡ n + 0 = omega arith in
      rw split (memcmp_skip n s1 s2 0 m (omega arith) (omega arith) same),
)

strlen_loop_lem :
    (n fuel str len : ℕ) (m : Memory)
    → str + n < 2 ^ 64
    → n < fuel
    → ((i : ℕ) → i < n → m (str + i) ≢ 0)
    → m (str + n) ≡ 0
    → strlen_loop fuel str len m ≡ some (len + n)
unfolding strlen_loop
strlen_loop_lem n zero str len m f lt live end = absurd (omega arith)
strlen_loop_lem zero (suc fuel) str len m f lt live end =
    let p : str + 0 ≡ str = omega arith in ground (arith, ap m p)
strlen_loop_lem (suc n) (suc fuel) str len m f lt live end =
    let p : ptr_add str 1 ≡ str + 1 = omega arith in
    let first : m str ≢ 0 = λ e. live 0 (omega arith) (ap m (omega arith) ∙ e) in
    ground (
      arith,
      ap m p,
      strlen_loop_lem n fuel (str + 1) (len + 1) m (omega arith) (omega arith)
          (λ i lt e. live (suc i) (omega arith) (ap m (omega arith) ∙ e))
          (ap m (omega arith) ∙ end),
    )

-- strlen returns the number of bytes before the first byte 0, with any fuel above that number, if
-- the string does not wrap around the address space.
pub strlen_lem :
    (n fuel str : ℕ) (m : Memory)
    → str + n < 2 ^ 64
    → n < fuel
    → ((i : ℕ) → i < n → m (str + i) ≢ 0)
    → m (str + n) ≡ 0
    → strlen fuel str m ≡ some n
unfolding strlen
strlen_lem n fuel str m f lt live end =
    strlen_loop_lem n fuel str 0 m f lt live end ∙ ap some (omega arith)
