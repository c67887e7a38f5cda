-- ===== src/Milenage/Answer/Laws.antt =====
-- What the answer to a challenge holds, and what the challenge's MAC has to do with it.
use disguise_pets.Base.{
  ℕ, ◌≡◌, ◌≢◌, refl, arith, List, ◌++◌, take, drop, length, length-take, length-drop, length-append,
  some, ap, ◌∙◌,
}
use disguise_pets.Base.Arrays.{elements, by_elements, by_two_arrays}
use disguise_pets.Milenage.{Aes, success, xor_from}
use disguise_pets.Milenage.Spec.{xor, length-xor}
use disguise_pets.Milenage.Spec
use disguise_pets.Milenage.Functions.{IsSized, f2345_lem, f1_lem, length-out_block, length-mac_a}
use disguise_pets.Milenage.Loops.{xor_six, xor_six_of_block, copy_amf, xor_cancel}
use disguise_pets.Milenage.Answer.{
  AnswerLocals, Answer, gen_auth_res_milenage, build_autn, subscriber_key,
}

-- The local arrays have the lengths that they are declared with.
pub record AnswerSized (l : AnswerLocals) : Type 0 where
  pub sqn : length l.sqn ≡ 6
  pub amf : length l.amf ≡ 4
  pub ak : length l.ak ≡ 6
  pub mac : length l.mac ≡ 8
  pub autn : length l.autn ≡ 16
  pub f2345 : IsSized l.f2345
  pub f1 : IsSized l.f1

-- AUTN is built from its parts, whatever the array held.
build_autn_parts :
    (sqn ak amf mac dst : List ℕ)
    → length sqn ≡ 6
    → length ak ≡ 6
    → length amf ≡ 4
    → length mac ≡ 8
    → length dst ≡ 16
    → build_autn sqn ak amf mac dst ≡ some (xor sqn ak ++ take 2 amf ++ mac)
unfolding build_autn xor_from
build_autn_parts sqn ak amf mac dst hs hk h4 hm hd =
    by_two_arrays 6 6 (λ s k. build_autn s k amf mac dst ≡ some (xor s k ++ take 2 amf ++ mac))
      (λ f g.
        by_two_arrays 4 8
          (λ a m.
            build_autn (elements 6 f) (elements 6 g) a m dst
            ≡ some (xor (elements 6 f) (elements 6 g) ++ take 2 a ++ m))
          (λ h e.
            by_elements 16
              (λ d.
                build_autn (elements 6 f) (elements 6 g) (elements 4 h) (elements 8 e) d
                ≡ some (xor (elements 6 f) (elements 6 g) ++ elements 2 h ++ elements 8 e))
              (λ c. refl) dst hd)
          amf mac h4 hm)
      sqn ak hs hk

drop-parts :
    (six two mac : List ℕ) → length six ≡ 6 → length two ≡ 2 → drop 8 (six ++ two ++ mac) ≡ mac
drop-parts six two mac h6 h2 =
    by_two_arrays 6 2 (λ a b. drop 8 (a ++ b ++ mac) ≡ mac) (λ f g. refl) six two h6 h2

module _ (aes : Aes) (opc rand autn_enb : List ℕ) (hop : length opc ≡ 16) (hr : length rand ≡ 16)
    (ha : length autn_enb ≡ 16) where
  abbrev E : List ℕ → List ℕ
  E = aes.ecb_encrypt (aes.init_ctx subscriber_key)

  -- SQN, AMF and MAC as the challenge gives them, and the MAC that belongs to them.
  abbrev ak : List ℕ
  ak = Spec.ak E opc rand

  abbrev sqn : List ℕ
  sqn = xor (take 6 autn_enb) ak

  abbrev amf : List ℕ
  amf = take 2 (drop 6 autn_enb)

  abbrev expected_mac : List ℕ
  expected_mac = Spec.mac_a E opc rand sqn amf

  length-ak : length ak ≡ 6
  unfolding Spec.ak
  length-ak = omega (
    arith,
    length-take 6 (Spec.out_block E opc rand 0 1),
    length-out_block aes subscriber_key opc rand hop hr 0 1 (omega arith),
  )

  length-sqn : length sqn ≡ 6
  length-sqn =
      length-xor (take 6 autn_enb) ak (omega (arith, length-take 6 autn_enb, length-ak)) ∙ length-ak

  build_autn_lem :
      (amf4 mac dst : List ℕ)
      → length amf4 ≡ 4
      → length mac ≡ 8
      → length dst ≡ 16
      → build_autn sqn ak amf4 mac dst ≡ some (take 6 autn_enb ++ take 2 amf4 ++ mac)
  build_autn_lem amf4 mac dst h4 hm hd =
      build_autn_parts sqn ak amf4 mac dst length-sqn length-ak h4 hm hd
      ∙ rw (xor_cancel (take 6 autn_enb) ak (omega (arith, length-take 6 autn_enb, length-ak)))

  answer_lem :
      (l : AnswerLocals) (res ak_xor_sqn ck ik : List ℕ)
      → AnswerSized l
      → length res ≡ 8
      → length ak_xor_sqn ≡ 6
      → length ck ≡ 16
      → length ik ≡ 16
      → gen_auth_res_milenage aes l opc rand autn_enb res ak_xor_sqn ck ik
        ≡ some (record {
          code = success;
          res = Spec.res E opc rand;
          ak_xor_sqn = take 6 autn_enb;
          ck = Spec.ck E opc rand;
          ik = Spec.ik E opc rand;
        })
  unfolding gen_auth_res_milenage
  answer_lem l res ak_xor_sqn ck ik sized hres hak hck hik =
      rw
        (f2345_lem aes subscriber_key opc rand hop hr l.f2345 res ck ik l.ak sized.f2345 hres hck
          hik sized.ak)
        (rw
          (
            xor_six_of_block autn_enb ak l.sqn ha length-ak sized.sqn,
            copy_amf autn_enb l.amf ha sized.amf,
          )
          (rw
            (f1_lem aes subscriber_key opc rand hop hr l.f1 sqn amf4 l.mac sized.f1 length-sqn
              (omega (arith, h4)) sized.mac)
            (rw (build_autn_lem amf4 mac l.autn h4 hmac sized.autn) (
              rw (
                xor_six sqn ak ak_xor_sqn length-sqn length-ak hak,
                xor_cancel (take 6 autn_enb) ak (omega (arith, length-take 6 autn_enb, length-ak)),
              )))))
    where
      amf4 : List ℕ
      amf4 = amf ++ drop 2 l.amf

      h4 : length amf4 ≡ 4
      h4 = omega (
        arith,
        length-append amf (drop 2 l.amf),
        length-take 2 (drop 6 autn_enb),
        length-drop 6 autn_enb,
        length-drop 2 l.amf,
        sized.amf,
      )

      mac : List ℕ
      mac = Spec.mac_a E opc rand sqn (take 2 amf4)

      hmac : length mac ≡ 8
      hmac =
          length-mac_a aes subscriber_key opc rand hop hr sqn (take 2 amf4) length-sqn
            (omega (arith, length-take 2 amf4, h4))

  length-expected_mac : length expected_mac ≡ 8
  length-expected_mac =
      length-mac_a aes subscriber_key opc rand hop hr sqn amf length-sqn
        (omega (arith, length-take 2 (drop 6 autn_enb), length-drop 6 autn_enb))

  -- The AUTN that is built ends in the expected MAC.
  built-eq :
      (amf4 dst : List ℕ)
      → length amf4 ≡ 4
      → length dst ≡ 16
      → build_autn sqn ak amf4 expected_mac dst ≡ some autn_enb
      → drop 8 autn_enb ≡ expected_mac
  built-eq amf4 dst h4 hd e =
      let same : autn_enb ≡ take 6 autn_enb ++ take 2 amf4 ++ expected_mac =
        cc (build_autn_lem amf4 expected_mac dst h4 length-expected_mac hd) in
      ap (drop 8) same
      ∙ drop-parts (take 6 autn_enb) (take 2 amf4) expected_mac
          (omega (arith, length-take 6 autn_enb)) (omega (arith, length-take 2 amf4))

-- With arrays of their lengths, the answer to a challenge is success, RES, CK and IK of Milenage
-- for the subscriber key, and the first six bytes of the challenge's AUTN as SQN ⊕ AK.
pub gen_auth_res_milenage_lem :
    (aes : Aes) (l : AnswerLocals) (opc rand autn_enb res ak_xor_sqn ck ik : List ℕ)
    → AnswerSized l
    → length opc ≡ 16
    → length rand ≡ 16
    → length autn_enb ≡ 16
    → length res ≡ 8
    → length ak_xor_sqn ≡ 6
    → length ck ≡ 16
    → length ik ≡ 16
    → let E = aes.ecb_encrypt (aes.init_ctx subscriber_key) in
      gen_auth_res_milenage aes l opc rand autn_enb res ak_xor_sqn ck ik
      ≡ some (record {
        code = success;
        res = Spec.res E opc rand;
        ak_xor_sqn = take 6 autn_enb;
        ck = Spec.ck E opc rand;
        ik = Spec.ik E opc rand;
      })
gen_auth_res_milenage_lem aes l opc rand autn_enb res ak_xor_sqn ck ik sized hop hr ha =
    answer_lem aes opc rand autn_enb hop hr ha l res ak_xor_sqn ck ik sized

-- With arrays of their lengths, a challenge whose MAC is not the f1 of its SQN and AMF is answered
-- with success all the same, although the AUTN that the code builds then differs from the
-- challenge's.
pub wrong_mac_accepted :
    (aes : Aes) (l : AnswerLocals) (opc rand autn_enb res ak_xor_sqn ck ik : List ℕ)
    → AnswerSized l
    → length opc ≡ 16
    → length rand ≡ 16
    → length autn_enb ≡ 16
    → length res ≡ 8
    → length ak_xor_sqn ≡ 6
    → length ck ≡ 16
    → length ik ≡ 16
    → let E = aes.ecb_encrypt (aes.init_ctx subscriber_key) in
      let ak = Spec.ak E opc rand in
      let sqn = xor (take 6 autn_enb) ak in
      let amf = take 2 (drop 6 autn_enb) in
      let mac = Spec.mac_a E opc rand sqn amf in
      drop 8 autn_enb ≢ mac
      → (a : Answer) × (gen_auth_res_milenage aes l opc rand autn_enb res ak_xor_sqn ck ik ≡ some a)
        × (a.code ≡ success)
        × (build_autn sqn ak (amf ++ drop 2 l.amf) mac l.autn ≢ some autn_enb)
wrong_mac_accepted aes l opc rand autn_enb res ak_xor_sqn ck ik sized hop hr ha hres hx hck hik
      wrong =
    (
      _,
      gen_auth_res_milenage_lem aes l opc rand autn_enb res ak_xor_sqn ck ik sized hop hr ha hres hx
          hck hik,
      refl,
      λ e. wrong (built-eq aes opc rand autn_enb hop hr ha _ l.autn h4 sized.autn e),
    )
  where
    h4 : length (take 2 (drop 6 autn_enb) ++ drop 2 l.amf) ≡ 4
    h4 = omega (
      arith,
      length-append (take 2 (drop 6 autn_enb)) (drop 2 l.amf),
      length-take 2 (drop 6 autn_enb),
      length-drop 6 autn_enb,
      length-drop 2 l.amf,
      sized.amf,
    )
