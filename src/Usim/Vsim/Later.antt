-- ===== src/Usim/Vsim/Later.antt =====
-- The challenges after the first, which srsUE answers alone.
use disguise_pets.Base.{ℕ, ◌≤◌, ◌≡◌, ◌≢◌, refl, true, List, ◌∷◌, take, drop, length, some, ◌∙◌}
use disguise_pets.Milenage.Spec.{xor}
use disguise_pets.Shared.{SharedData}
use disguise_pets.Usim.{Usim, UsimSized, SrsRan, SrsRanSized, auth_ok, auth_failed, Line, say}
use disguise_pets.Usim.Standard.{Outcome, gen_auth_res_milenage}
use disguise_pets.Usim.Standard.Laws.{answered, answered_lem, by_mac}
use disguise_pets.Usim.Vsim.{Interference, answer_alone, gen_auth_res_milenage_vsim}
use disguise_pets.Usim.Vsim.Answer.{with_log}
use disguise_pets.Usim.Vsim.Laws.{request_lines, later_call}

module _ (srs : SrsRan) (u : Usim) (sized : UsimSized u) (rand autn_enb : List ℕ)
    (hr : length rand ≡ 16) (ha : length autn_enb ≡ 16) where
  abbrev pub later_lines : List Line
  later_lines =
      say "Using cached vSIM results from previous initialization"
      ∷ request_lines srs u sized rand autn_enb hr ha

  pub later_answer :
      (laws : SrsRanSized srs)
      → (others : Interference) (s : SharedData) (res ak_xor_sqn sqn : List ℕ) (res_len : ℕ)
      → u.fpga_initialized ≡ true
      → 8 ≤ length res
      → length ak_xor_sqn ≡ 6
      → length sqn ≡ 6
      → gen_auth_res_milenage_vsim srs others u s rand autn_enb res ak_xor_sqn sqn res_len
        ≡ some (record {
          outcome =
              answered srs laws
                (record u { log = later_lines })
                (with_log u later_lines sized)
                rand
                autn_enb
                hr
                ha
                auth_ok
                res;
          shared = s;
        })
  unfolding answer_alone
  later_answer laws others s res ak_xor_sqn sqn res_len used h8 hx hs =
      later_call srs u sized rand autn_enb hr ha others s res ak_xor_sqn sqn res_len used
      ∙ rw
          (answered_lem srs laws (record u { log = later_lines }) (with_log u later_lines sized)
            rand autn_enb hr ha res ak_xor_sqn sqn h8 hx hs)
          refl

  -- Every answer after the first is AUTH_OK: for a challenge whose MAC is wrong, where
  -- gen_auth_res_milenage alone returns AUTH_FAILED, gen_auth_res_milenage_vsim returns AUTH_OK with
  -- the same arrays. The enclave is not asked.
  pub wrong_mac_accepted_later :
      (laws : SrsRanSized srs)
      → (others : Interference) (s : SharedData) (res ak_xor_sqn sqn : List ℕ) (res_len : ℕ)
      → u.fpga_initialized ≡ true
      → 8 ≤ length res
      → length ak_xor_sqn ≡ 6
      → length sqn ≡ 6
      → let f = srs.security_milenage_f2345 u.k u.opc rand in
        drop 8 autn_enb
          ≢ srs.security_milenage_f1 u.k u.opc rand
              (xor (take 6 autn_enb) f.ak)
              (take 2 (drop 6 autn_enb))
        → (log : List Line) × (o : Outcome) × (gen_auth_res_milenage srs
              (record u { log = log })
              rand
              autn_enb
              res
              ak_xor_sqn
              sqn
            ≡ some o)
          × (o.result ≡ auth_failed)
          × (gen_auth_res_milenage_vsim srs others u s rand autn_enb res ak_xor_sqn sqn res_len
              ≡ some (record { outcome = record o { result = auth_ok }; shared = s }))
  wrong_mac_accepted_later laws others s res ak_xor_sqn sqn res_len used h8 hx hs ne =
      let alone =
        (by_mac srs laws (record u { log = later_lines }) (with_log u later_lines sized) rand
            autn_enb hr ha res ak_xor_sqn sqn h8 hx hs).1
          ne in
      (
        later_lines,
        _,
        alone,
        refl,
        later_answer laws others s res ak_xor_sqn sqn res_len used h8 hx hs,
      )
