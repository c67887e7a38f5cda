-- ===== src/Usim/Standard/Verdict.antt =====
-- The comparison of two AUTNs, and what it says of the challenge's MAC.
use disguise_pets.Base.{
  ℕ, ◌≡◌, ◌≢◌, refl, arith, List, [], ◌∷◌, ◌++◌, take, drop, length, length-take, length-drop,
  length-append, some, ◌==◌, if◌then◌else◌, ap, ap₂, ◌∙◌, sym, true, Bool-cases, inl, inr, ◌>>=◌,
  Option,
}
use disguise_pets.Base.Arrays.{elements, by_elements, by_two_arrays, copy_at}
use disguise_pets.Milenage.{xor_from}
use disguise_pets.Milenage.Spec.{xor, length-xor}
use disguise_pets.Milenage.Loops.{xor_six, xor_six_of_block, xor_cancel}
use disguise_pets.Usim.{Usim, UsimSized, AuthResult, auth_ok, auth_failed}
use disguise_pets.Usim.Check.{compare_autn, Checked, check_autn}
use mathlib.Core.Path.{subst}

-- The result of the comparison, element by element.
abbrev pub verdict : (xs ys : List ℕ) → AuthResult → AuthResult
verdict [] ys r = r
verdict (x ∷ xs) [] r = r
verdict (x ∷ xs) (y ∷ ys) r = verdict xs ys (if x == y then r else auth_failed)

compare_autn_lem :
    (a b : List ℕ) → length a ≡ 16 → length b ≡ 16 → compare_autn a b ≡ some (verdict a b auth_ok)
unfolding compare_autn
compare_autn_lem =
    by_two_arrays 16 16 (λ a b. compare_autn a b ≡ some (verdict a b auth_ok)) (λ f g. refl)

verdict-failed : (xs ys : List ℕ) → verdict xs ys auth_failed ≡ auth_failed
verdict-failed [] ys = refl
verdict-failed (x ∷ xs) [] = refl
verdict-failed (x ∷ xs) (y ∷ ys) = elim (Bool-cases (x == y)) [
  | inl e ↦ rw e (verdict-failed xs ys)
  | inr e ↦ rw e (verdict-failed xs ys)
]

pub verdict_same : (xs : List ℕ) → verdict xs xs auth_ok ≡ auth_ok
verdict_same [] = refl
verdict_same (x ∷ xs) = let same : (x == x) ≡ true = ground arith in rw same (verdict_same xs)

abbrev IsOk : AuthResult → Type 0
IsOk auth_ok = Unit {0}
IsOk auth_failed = ⊥

pub failed-ok : auth_failed ≢ auth_ok
failed-ok e = subst IsOk (sym e) tt

pub verdict_differs :
    (xs ys : List ℕ) → length xs ≡ length ys → xs ≢ ys → verdict xs ys auth_ok ≡ auth_failed
verdict_differs [] [] e ne = absurd (ne refl)
verdict_differs [] (y ∷ ys) e ne = absurd (omega arith)
verdict_differs (x ∷ xs) [] e ne = absurd (omega arith)
verdict_differs (x ∷ xs) (y ∷ ys) e ne = elim (Bool-cases (x == y)) [
  | inl same ↦
      let head : x ≡ y = ground (arith, same) in
      rw same (verdict_differs xs ys (omega arith) (λ tail. ne (ap₂ ◌∷◌ head tail)))
  | inr other ↦ rw other (verdict-failed xs ys)
]

-- The AUTN that is built from a challenge's SQN and AMF.
abbrev pub rebuilt : (autn_enb mac : List ℕ) → List ℕ
rebuilt a mac = take 6 a ++ take 2 (drop 6 a) ++ mac

pub length-rebuilt : (a m : List ℕ) → length a ≡ 16 → length m ≡ 8 → length (rebuilt a m) ≡ 16
length-rebuilt a m ha hm = omega (
  arith,
  length-append (take 6 a ++ take 2 (drop 6 a)) m,
  length-append (take 6 a) (take 2 (drop 6 a)),
  length-take 6 a,
  length-take 2 (drop 6 a),
  length-drop 6 a,
)

parts_same : (a : List ℕ) → length a ≡ 16 → take 6 a ++ take 2 (drop 6 a) ++ drop 8 a ≡ a
parts_same = by_elements 16 (λ a. take 6 a ++ take 2 (drop 6 a) ++ drop 8 a ≡ a) (λ f. refl)

last_part :
    (a m : List ℕ) → length a ≡ 16 → length m ≡ 8 → drop 8 (take 6 a ++ take 2 (drop 6 a) ++ m) ≡ m
last_part =
    by_two_arrays 16 8 (λ a m. drop 8 (take 6 a ++ take 2 (drop 6 a) ++ m) ≡ m) (λ f g. refl)

pub right_mac :
    (a m : List ℕ)
    → length a ≡ 16
    → length m ≡ 8
    → drop 8 a ≡ m
    → verdict (rebuilt a m) a auth_ok ≡ auth_ok
right_mac a m ha hm e =
    let same : rebuilt a m ≡ a = rw (sym e) (parts_same a ha) in rw same (verdict_same a)

pub wrong_mac :
    (a m : List ℕ)
    → length a ≡ 16
    → length m ≡ 8
    → drop 8 a ≢ m
    → verdict (rebuilt a m) a auth_ok ≡ auth_failed
wrong_mac a m ha hm ne =
    verdict_differs (rebuilt a m) a (length-rebuilt a m ha hm ∙ sym ha)
      (λ e. ne (sym (ap (drop 8) e) ∙ last_part a m ha hm))

-- The loops over a challenge.
copy_two :
    (a dst : List ℕ)
    → length a ≡ 16
    → length dst ≡ 2
    → copy_at 2 0 6 a dst ≡ some (take 2 (drop 6 a))
copy_two = by_two_arrays 16 2 (λ a d. copy_at 2 0 6 a d ≡ some (take 2 (drop 6 a))) (λ f g. refl)

copy_eight : (a dst : List ℕ) → length a ≡ 8 → length dst ≡ 8 → copy_at 8 0 0 a dst ≡ some a
copy_eight = by_two_arrays 8 8 (λ a d. copy_at 8 0 0 a d ≡ some a) (λ f g. refl)

build_parts :
    {B : Type 0} (rest : List ℕ → Option B) (s k amf mac dst : List ℕ)
    → length s ≡ 6
    → length k ≡ 6
    → length amf ≡ 2
    → length mac ≡ 8
    → length dst ≡ 16
    → (xor_from 6 s k dst >>= λ d. copy_at 2 6 0 amf d >>= λ d. copy_at 8 8 0 mac d >>= rest)
      ≡ rest (xor s k ++ amf ++ mac)
unfolding xor_from
build_parts rest s k amf mac dst hs hk ha hm hd =
    by_two_arrays 6 6
      (λ s k.
        (xor_from 6 s k dst >>= λ d. copy_at 2 6 0 amf d >>= λ d. copy_at 8 8 0 mac d >>= rest)
        ≡ rest (xor s k ++ amf ++ mac))
      (λ f g.
        by_two_arrays 2 8
          (λ a m.
            (xor_from 6 (elements 6 f) (elements 6 g) dst >>= λ d.
            copy_at 2 6 0 a d >>= λ d. copy_at 8 8 0 m d >>= rest)
            ≡ rest (xor (elements 6 f) (elements 6 g) ++ a ++ m))
          (λ h e.
            by_elements 16
              (λ d.
                (xor_from 6 (elements 6 f) (elements 6 g) d >>= λ d.
                copy_at 2 6 0 (elements 2 h) d >>= λ d. copy_at 8 8 0 (elements 8 e) d >>= rest)
                ≡ rest (xor (elements 6 f) (elements 6 g) ++ elements 2 h ++ elements 8 e))
              (λ c. refl) dst hd)
          amf mac ha hm)
      s k hs hk

-- What the check of a challenge leaves behind.
abbrev pub checked : (f1 : (sqn amf : List ℕ) → List ℕ) (ak autn_enb : List ℕ) → Checked
checked f1 ak a =
    let sqn = xor (take 6 a) ak in
    let amf = take 2 (drop 6 a) in
    record {
      sqn = sqn;
      amf = amf;
      mac = f1 sqn amf;
      autn = rebuilt a (f1 sqn amf);
      ak_xor_sqn = take 6 a;
      result = verdict (rebuilt a (f1 sqn amf)) a auth_ok;
    }

pub check_autn_lem :
    (f1 : (sqn amf : List ℕ) → List ℕ) (u : Usim) (ak a sqn ak_xor_sqn : List ℕ)
    → ((s amf : List ℕ) → length s ≡ 6 → length amf ≡ 2 → length (f1 s amf) ≡ 8)
    → UsimSized u
    → length ak ≡ 6
    → length a ≡ 16
    → length sqn ≡ 6
    → length ak_xor_sqn ≡ 6
    → check_autn f1 u ak a sqn ak_xor_sqn ≡ some (checked f1 ak a)
unfolding check_autn
check_autn_lem f1 u ak a sqn ak_xor_sqn h1 sized hk ha hs hx =
    let s = xor (take 6 a) ak in
    let six : length (take 6 a) ≡ 6 = omega (arith, length-take 6 a) in
    let ls : length s ≡ 6 = length-xor (take 6 a) ak (six ∙ sym hk) ∙ hk in
    let amf = take 2 (drop 6 a) in
    let la : length amf ≡ 2 = omega (arith, length-take 2 (drop 6 a), length-drop 6 a) in
    let lm : length (f1 s amf) ≡ 8 = h1 s amf ls la in
    rw
      (
        xor_six_of_block a ak sqn ha hk hs,
        copy_two a u.amf ha sized.amf,
        copy_eight (f1 s amf) u.mac lm sized.mac,
      )
      (build_parts _ s ak amf (f1 s amf) u.autn ls hk la lm sized.autn
        ∙ rw (xor_cancel (take 6 a) ak (six ∙ sym hk)) (
            rw
              (
                compare_autn_lem (rebuilt a (f1 s amf)) a (length-rebuilt a (f1 s amf) ha lm) ha,
                xor_six s ak ak_xor_sqn ls hk hx,
              )
              (rw (xor_cancel (take 6 a) ak (six ∙ sym hk)))))

-- The MAC that belongs to a challenge has eight bytes.
pub length-mac :
    (f1 : (sqn amf : List ℕ) → List ℕ) (ak a : List ℕ)
    → ((s amf : List ℕ) → length s ≡ 6 → length amf ≡ 2 → length (f1 s amf) ≡ 8)
    → length ak ≡ 6
    → length a ≡ 16
    → length (checked f1 ak a).mac ≡ 8
length-mac f1 ak a h1 hk ha =
    h1 (xor (take 6 a) ak) (take 2 (drop 6 a))
      (length-xor (take 6 a) ak (omega (arith, length-take 6 a)) ∙ hk)
      (omega (arith, length-take 2 (drop 6 a), length-drop 6 a))
