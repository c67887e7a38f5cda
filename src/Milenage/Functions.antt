-- ===== src/Milenage/Functions.antt =====
-- liblte_security_milenage_f1 and _f2345 compute the functions of 3GPP TS 35.206.
use disguise_pets.Base.{
  ℕ, ◌≡◌, refl, arith, List, ◌++◌, take, length, length-append, length-take, length-drop, some, ◌∙◌,
  sym, ◌≤◌,
}
use disguise_pets.Milenage.{Aes, Locals, Derived, success, derive, f2345, f1}
use disguise_pets.Milenage.Spec.{
  xor, rot, constant, length-xor, length-rot, temp_block, out_block, out1_block,
}
use disguise_pets.Milenage.Spec
use disguise_pets.Milenage.Loops.{
  store_xor_plain, store_xor_rotated, Rotates, none_at_all, four, half, Rotates-le, xor_into_lem,
  xor_at_last, copy_block, copy_low_half, copy_high_half, copy_six, fill_in1, mask_order,
}

-- The local arrays have the lengths that they are declared with.
pub record IsSized (l : Locals) : Type 0 where
  pub temp : length l.temp ≡ 16
  pub out : length l.out ≡ 16
  pub input : length l.input ≡ 16
  pub in1 : length l.in1 ≡ 16

module _ (aes : Aes) (k op_c rand : List ℕ) (hop : length op_c ≡ 16) (hr : length rand ≡ 16) where
  open aes use {Ctx, init_ctx, ecb_encrypt, length-ecb_encrypt}

  -- The block cipher under the key.
  abbrev pub E : List ℕ → List ℕ
  E = ecb_encrypt (init_ctx k)

  length-temp_block : length (temp_block E op_c rand) ≡ 16
  unfolding temp_block
  length-temp_block = length-ecb_encrypt _ _ (length-xor rand op_c (hr ∙ sym hop) ∙ hop)

  length-rotated : (r : ℕ) → r ≤ 16 → length (rot r (xor (temp_block E op_c rand) op_c)) ≡ 16
  length-rotated r le =
      let h : length (xor (temp_block E op_c rand) op_c) ≡ 16 =
        length-xor (temp_block E op_c rand) op_c (length-temp_block ∙ sym hop) ∙ hop in
      length-rot r _ (rw h le) ∙ h

  length-E-xor :
      (a b : List ℕ) → length a ≡ 16 → length b ≡ 16 → length (xor (E (xor a b)) op_c) ≡ 16
  length-E-xor a b ha hb =
      length-xor _ op_c (length-ecb_encrypt _ _ (length-xor a b (ha ∙ sym hb) ∙ hb) ∙ sym hop) ∙ hop

  pub length-out_block : (r c : ℕ) → r ≤ 16 → length (out_block E op_c rand r c) ≡ 16
  unfolding out_block
  length-out_block r c le =
      length-E-xor (rot r (xor (temp_block E op_c rand) op_c)) (constant c) (length-rotated r le)
        refl

  pub length-res : length (Spec.res E op_c rand) ≡ 8
  unfolding Spec.res
  length-res =
      omega (arith, length-drop 8 (out_block E op_c rand 0 1), length-out_block 0 1 (omega arith))

  pub length-ck : length (Spec.ck E op_c rand) ≡ 16
  unfolding Spec.ck
  length-ck = length-out_block 4 2 (omega arith)

  pub length-ik : length (Spec.ik E op_c rand) ≡ 16
  unfolding Spec.ik
  length-ik = length-out_block 8 4 (omega arith)

  -- One output, whatever its input and out arrays held before; both are full again afterwards.
  derive_lem :
      (shift r c : ℕ) (input out : List ℕ)
      → Rotates shift r
      → length input ≡ 16
      → length out ≡ 16
      → (input' : List ℕ) × (derive aes (init_ctx k) shift c op_c (temp_block E op_c rand) input out
          ≡ some (input', out_block E op_c rand r c))
        × (length input' ≡ 16)
  unfolding derive out_block
  derive_lem shift r c input out rotates hi ho =
      let temp = temp_block E op_c rand in
      let masked = rot r (xor temp op_c) in
      let hm : length masked ≡ 16 = length-rotated r (Rotates-le shift r rotates) in
      let block = xor masked (constant c) in
      let hb : length block ≡ 16 = length-xor masked (constant c) hm in
      (
        block,
        rw
            (
              store_xor_rotated shift r rotates temp op_c input length-temp_block hop hi,
              xor_at_last c masked hm,
              copy_block block out hb ho,
            )
            (rw (xor_into_lem op_c (E block) hop (length-ecb_encrypt _ block hb)) refl),
        hb,
      )

  -- f2 to f5.
  abbrev pub outputs : Derived
  outputs = record {
    code = success;
    res = some (Spec.res E op_c rand);
    ck = some (Spec.ck E op_c rand);
    ik = some (Spec.ik E op_c rand);
    ak = some (Spec.ak E op_c rand);
  }

  -- With no pointer NULL, op_c and rand of 16 bytes, and the other arrays of the lengths that the
  -- code writes, liblte_security_milenage_f2345 succeeds, and it fills res, ck, ik and ak with f2,
  -- f3, f4 and f5 of 3GPP TS 35.206, whatever the arrays and the local arrays held before.
  pub f2345_lem :
      (l : Locals) (res ck ik ak : List ℕ)
      → IsSized l
      → length res ≡ 8
      → length ck ≡ 16
      → length ik ≡ 16
      → length ak ≡ 6
      → f2345 aes l (some k) (some op_c) (some rand) (some res) (some ck) (some ik) (some ak)
        ≡ some outputs
  unfolding f2345 temp_block Spec.res Spec.ck Spec.ik Spec.ak
  f2345_lem l res ck ik ak sized hres hck hik hak =
      let first = xor rand op_c in
      let hf : length first ≡ 16 = length-xor rand op_c (hr ∙ sym hop) ∙ hop in
      let (in2, run2, h2) = derive_lem 0 0 1 first l.out none_at_all hf sized.out in
      let out2 = out_block E op_c rand 0 1 in
      let ho2 : length out2 ≡ 16 = length-out_block 0 1 (omega arith) in
      let (in3, run3, h3) = derive_lem 12 4 2 in2 out2 four h2 ho2 in
      let out3 = out_block E op_c rand 4 2 in
      let ho3 : length out3 ≡ 16 = length-out_block 4 2 (omega arith) in
      let (in4, run4, h4) = derive_lem 8 8 4 in3 out3 half h3 ho3 in
      let out4 = out_block E op_c rand 8 4 in
      let ho4 : length out4 ≡ 16 = length-out_block 8 4 (omega arith) in
      rw
        (
          store_xor_plain rand op_c l.input hr hop sized.input,
          copy_block first l.temp hf sized.temp,
        )
        (rw run2 (
          rw (copy_high_half out2 res ho2 hres, copy_six out2 ak ho2 hak)
            (rw run3
              (rw (copy_block out3 ck ho3 hck) (rw run4 (rw (copy_block out4 ik ho4 hik)))))))

  -- IN1, rotated by half a block.
  length-in1 :
      (sqn amf : List ℕ)
      → length sqn ≡ 6
      → length amf ≡ 2
      → length (rot 8 (xor (sqn ++ amf ++ sqn ++ amf) op_c)) ≡ 16
  length-in1 sqn amf hs ha =
      let in1 = sqn ++ amf ++ sqn ++ amf in
      let hi : length in1 ≡ 16 = omega (
        arith,
        length-append (sqn ++ amf ++ sqn) amf,
        length-append (sqn ++ amf) sqn,
        length-append sqn amf,
      ) in
      let hx : length (xor in1 op_c) ≡ 16 = length-xor in1 op_c (hi ∙ sym hop) ∙ hop in
      length-rot 8 (xor in1 op_c) (rw hx (omega arith)) ∙ hx

  pub length-mac_a :
      (sqn amf : List ℕ)
      → length sqn ≡ 6
      → length amf ≡ 2
      → length (Spec.mac_a E op_c rand sqn amf) ≡ 8
  unfolding Spec.mac_a out1_block
  length-mac_a sqn amf hs ha =
      let rotated = rot 8 (xor (sqn ++ amf ++ sqn ++ amf) op_c) in
      let hrot : length rotated ≡ 16 = length-in1 sqn amf hs ha in
      let temp = temp_block E op_c rand in
      let ho =
        length-E-xor (xor temp rotated) (constant 0)
          (length-xor temp rotated (length-temp_block ∙ sym hrot) ∙ hrot) refl in
      omega (arith, length-take 8 (xor (E (xor (xor temp rotated) (constant 0))) op_c), ho)

  -- With no pointer NULL, op_c and rand of 16 bytes, sqn of 6, amf of at least 2, and mac_a of 8
  -- bytes, liblte_security_milenage_f1 succeeds, and it fills mac_a with f1 of 3GPP TS 35.206 for
  -- sqn and the first two bytes of amf.
  pub f1_lem :
      (l : Locals) (sqn amf mac_a : List ℕ)
      → IsSized l
      → length sqn ≡ 6
      → 2 ≤ length amf
      → length mac_a ≡ 8
      → f1 aes l (some k) (some op_c) (some rand) (some sqn) (some amf) (some mac_a)
        ≡ some (success, some (Spec.mac_a E op_c rand sqn (take 2 amf)))
  unfolding f1 temp_block out1_block Spec.mac_a
  f1_lem l sqn amf mac_a sized hs ha hm =
      let first = xor rand op_c in
      let hf : length first ≡ 16 = length-xor rand op_c (hr ∙ sym hop) ∙ hop in
      let temp = E first in
      let ht : length temp ≡ 16 = length-temp_block in
      let amf2 = take 2 amf in
      let in1 = sqn ++ amf2 ++ sqn ++ amf2 in
      let hi : length in1 ≡ 16 = omega (
        arith,
        length-append (sqn ++ amf2 ++ sqn) amf2,
        length-append (sqn ++ amf2) sqn,
        length-append sqn amf2,
        length-take 2 amf,
      ) in
      let rotated = rot 8 (xor in1 op_c) in
      let hrot : length rotated ≡ 16 = length-in1 sqn amf2 hs (omega (arith, length-take 2 amf)) in
      let block = xor rotated temp in
      let hb : length block ≡ 16 = length-xor rotated temp (hrot ∙ sym ht) ∙ ht in
      let out = xor (E block) op_c in
      let ho : length out ≡ 16 = length-E-xor rotated temp hrot ht in
      rw (mask_order temp rotated ht hrot) (
        rw
          (
            store_xor_plain rand op_c l.input hr hop sized.input,
            copy_block temp l.temp ht sized.temp,
          )
          (fill_in1 _ sqn amf l.in1 hs ha sized.in1
            ∙ rw
                (
                  store_xor_rotated 8 8 half in1 op_c temp hi hop ht,
                  xor_into_lem temp rotated ht hrot,
                )
                (rw (xor_into_lem op_c (E block) hop (length-ecb_encrypt _ block hb))
                  (rw (copy_block out l.out ho sized.out, copy_low_half out mac_a ho hm)))))
