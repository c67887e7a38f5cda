-- ===== src/Milenage/Tests.antt =====
-- Milenage with a toy cipher in the place of AES.
use disguise_pets.Base.{
  ℕ, ◌≡◌, ◌≢◌, refl, arith, List, [], ◌∷◌, some, none, ap, get_or, drop, replicate,
}
use disguise_pets.Milenage.{success, error_invalid_inputs, f2345, f1}
use disguise_pets.Milenage.Spec.{xor, temp_block, out_block, out1_block}
use disguise_pets.Milenage.Spec
use disguise_pets.Milenage.Functions.{f2345_lem, f1_lem, outputs}
use disguise_pets.Milenage.Answer.{Answer, gen_auth_res_milenage, build_autn, subscriber_key}
use disguise_pets.Milenage.Answer.Laws.{gen_auth_res_milenage_lem, wrong_mac_accepted}
use disguise_pets.Milenage.Toy.{
  toy, zeros, challenge, locals, locals-IsSized, answer_locals, answer_locals-AnswerSized,
}

f2345_lem_example :
    f2345 toy locals
      (some subscriber_key)
      (some zeros)
      (some challenge)
      (some (replicate 8 0))
      (some zeros)
      (some zeros)
      (some (replicate 6 0))
    ≡ some (outputs toy subscriber_key zeros challenge refl refl)
f2345_lem_example =
    f2345_lem toy subscriber_key zeros challenge refl refl locals (replicate 8 0) zeros zeros
      (replicate 6 0) locals-IsSized refl refl refl refl

f1_lem_example :
    f1 toy locals
      (some subscriber_key)
      (some zeros)
      (some challenge)
      (some (replicate 6 1))
      (some (0x80 ∷ 0 ∷ []))
      (some (replicate 8 0))
    ≡ some (
      success,
      some (
          Spec.mac_a
            (toy.ecb_encrypt (toy.init_ctx subscriber_key))
            zeros
            challenge
            (replicate 6 1)
            (0x80 ∷ 0 ∷ [])),
    )
f1_lem_example =
    f1_lem toy subscriber_key zeros challenge refl refl locals (replicate 6 1) (0x80 ∷ 0 ∷ [])
      (replicate 8 0) locals-IsSized refl (omega arith) refl

null_rand :
    f2345 toy locals
      (some subscriber_key)
      (some zeros)
      none
      (some challenge)
      (some zeros)
      (some zeros)
      (some challenge)
    ≡ some (record {
      code = error_invalid_inputs;
      res = some challenge;
      ck = some zeros;
      ik = some zeros;
      ak = some challenge;
    })
unfolding f2345
null_rand = refl

abbrev E : List ℕ → List ℕ
E = toy.ecb_encrypt (toy.init_ctx subscriber_key)

gen_auth_res_milenage_lem_example :
    gen_auth_res_milenage toy answer_locals zeros zeros challenge
      (replicate 8 0)
      (replicate 6 0)
      zeros
      zeros
    ≡ some (record {
      code = success;
      res = Spec.res E zeros zeros;
      ak_xor_sqn = 1 ∷ 2 ∷ 3 ∷ 4 ∷ 5 ∷ 6 ∷ [];
      ck = Spec.ck E zeros zeros;
      ik = Spec.ik E zeros zeros;
    })
gen_auth_res_milenage_lem_example =
    gen_auth_res_milenage_lem toy answer_locals zeros zeros challenge (replicate 8 0)
      (replicate 6 0) zeros zeros answer_locals-AnswerSized refl refl refl refl refl refl refl

abbrev ak : List ℕ
ak = Spec.ak E zeros zeros

abbrev mac : List ℕ
mac = Spec.mac_a E zeros zeros (xor (1 ∷ 2 ∷ 3 ∷ 4 ∷ 5 ∷ 6 ∷ []) ak) (7 ∷ 8 ∷ [])

wrong : drop 8 challenge ≢ mac
unfolding Spec.mac_a Spec.ak out1_block out_block temp_block
wrong e = absurd (omega (arith, ap (λ l. get_or l 0 0) e))

wrong_mac_accepted_example :
    (a : Answer) × (gen_auth_res_milenage toy answer_locals zeros zeros challenge
        (replicate 8 0)
        (replicate 6 0)
        zeros
        zeros
      ≡ some a)
    × (a.code ≡ success)
    × (build_autn (xor (1 ∷ 2 ∷ 3 ∷ 4 ∷ 5 ∷ 6 ∷ []) ak) ak (7 ∷ 8 ∷ 0 ∷ 0 ∷ []) mac zeros
        ≢ some challenge)
wrong_mac_accepted_example =
    wrong_mac_accepted toy answer_locals zeros zeros challenge (replicate 8 0) (replicate 6 0) zeros
      zeros answer_locals-AnswerSized refl refl refl refl refl refl refl wrong
