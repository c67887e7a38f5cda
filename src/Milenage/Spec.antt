-- ===== src/Milenage/Spec.antt =====
-- The Milenage algorithm set as 3GPP TS 35.206 states it (section 4.1), over a block cipher E under
-- the subscriber key: OUT1 to OUT4 with their rotations and constants, and f1 to f5 as parts of them.
use disguise_pets.Base.{
  ℕ, suc, ◌≡◌, refl, arith, bit_xor, List, [], ◌∷◌, ◌++◌, take, drop, replicate, length,
  length-append, length-take, length-drop, ap, ◌≤◌,
}

abbrev pub xor : List ℕ → List ℕ → List ℕ
xor [] ys = []
xor (x ∷ xs) [] = []
xor (x ∷ xs) (y ∷ ys) = bit_xor x y ∷ xor xs ys

-- Cyclic rotation by n bytes towards the most significant end.
abbrev pub rot : ℕ → List ℕ → List ℕ
rot n xs = drop n xs ++ take n xs

-- The 128-bit constant with the value c.
abbrev pub constant : ℕ → List ℕ
constant c = replicate 15 0 ++ c ∷ []

module _ (E : List ℕ → List ℕ) (op_c rand : List ℕ) where
  unfoldable pub temp_block : List ℕ
  temp_block = E (xor rand op_c)

  -- OUT2, OUT3 and OUT4: E[rot(TEMP ⊕ OPc, r) ⊕ c] ⊕ OPc.
  unfoldable pub out_block : (r c : ℕ) → List ℕ
  out_block r c = xor (E (xor (rot r (xor temp_block op_c)) (constant c))) op_c

  -- OUT1: E[TEMP ⊕ rot(IN1 ⊕ OPc, 64) ⊕ 0] ⊕ OPc, with IN1 = SQN || AMF || SQN || AMF.
  unfoldable pub out1_block : (sqn amf : List ℕ) → List ℕ
  out1_block sqn amf =
      let in1 = sqn ++ amf ++ sqn ++ amf in
      xor (E (xor (xor temp_block (rot 8 (xor in1 op_c))) (constant 0))) op_c

  -- MAC-A, RES, CK, IK and AK.
  unfoldable pub mac_a : (sqn amf : List ℕ) → List ℕ
  mac_a sqn amf = take 8 (out1_block sqn amf)

  unfoldable pub res : List ℕ
  res = drop 8 (out_block 0 1)

  unfoldable pub ck : List ℕ
  ck = out_block 4 2

  unfoldable pub ik : List ℕ
  ik = out_block 8 4

  unfoldable pub ak : List ℕ
  ak = take 6 (out_block 0 1)

pub length-xor : (xs ys : List ℕ) → length xs ≡ length ys → length (xor xs ys) ≡ length ys
length-xor [] ys e = e
length-xor (x ∷ xs) [] e = refl
length-xor (x ∷ xs) (y ∷ ys) e = ap suc (length-xor xs ys (omega arith))

pub length-rot : (n : ℕ) (xs : List ℕ) → n ≤ length xs → length (rot n xs) ≡ length xs
length-rot n xs h =
    omega (arith, length-append (drop n xs) (take n xs), length-take n xs, length-drop n xs)
