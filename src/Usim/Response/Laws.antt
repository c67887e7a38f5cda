-- ===== src/Usim/Response/Laws.antt =====
-- Which challenges srsUE derives keys for.
use disguise_pets.Base.{
  ℕ, ◌≤◌, ◌≡◌, ◌≢◌, refl, arith, Bool, true, false, List, take, drop, length, Option, some, ap, ap₂,
  Bool-cases, inl, inr, ◌∙◌, if◌then◌else◌, ◌>>=◌,
}
use disguise_pets.Milenage.Spec.{xor}
use disguise_pets.Runtime.{Timeval}
use disguise_pets.Shared.{SharedData}
use disguise_pets.Usim.{
  Usim, UsimSized, SrsRan, SrsRanSized, auth_algo_milenage, auth_ok, auth_failed, say_ms,
}
use disguise_pets.Usim.Text.{same_text}
use disguise_pets.Usim.Standard.{gen_auth_res_milenage, gen_auth_res_xor}
use disguise_pets.Usim.Standard.Laws.{copy_whole, answered, by_mac, right_mac_only}
use Prim.Native.String.{String}
use disguise_pets.Base.Int.{ℤ}
use disguise_pets.Channel.Buffers.{slice_lem}
use disguise_pets.Timing.Laws.{IsTime, milliseconds-IsTime}
use disguise_pets.Usim.Vsim.{Interference, VsimOutcome}
use disguise_pets.Usim.Vsim.Answer.{with_log}
use disguise_pets.Usim.Vsim.Later.{later_answer}
use disguise_pets.Usim.Response.{
  Locals, Response5g, get_time_diff_ms, is_xor, uses_vsim, answer_5g, vsim_5g, standard_5g, xor_5g,
  vsim_begun, standard_begun, with_keys, derive_keys, finish_lte, finish_5g, add_line,
  generate_authentication_response, generate_authentication_response_5g,
}

pub record LocalsSized (l : Locals) : Type 0 where
  pub ak_xor_sqn : length l.ak_xor_sqn ≡ 6
  pub sqn : length l.sqn ≡ 6
  pub res : length l.res ≡ 16
  pub k_ausf : length l.k_ausf ≡ 32
  pub k_seaf : length l.k_seaf ≡ 32

-- The keys that srsRAN's functions write have the lengths of 3GPP TS 33.401 and 33.501.
pub record KeysSized (srs : SrsRan) : Type 0 where
  pub k_asme :
      (ck ik x : List ℕ) (mcc mnc : ℕ) → length (srs.security_generate_k_asme ck ik x mcc mnc) ≡ 32
  pub res_star :
      (ck ik name rand res : List ℕ) (n : ℕ)
      → length (srs.security_generate_res_star ck ik name rand res n) ≡ 16
  pub k_ausf : (ck ik x name : List ℕ) → length (srs.security_generate_k_ausf ck ik x name) ≡ 32
  pub k_seaf : (k name : List ℕ) → length (srs.security_generate_k_seaf k name) ≡ 32
  pub k_amf :
      (k imsi abba : List ℕ) (n : ℕ) → length (srs.security_generate_k_amf k imsi abba n) ≡ 32

derive_keys_lem :
    (srs : SrsRan) (keys : KeysSized srs) (l : Locals) (locals : LocalsSized l) (v : VsimOutcome)
    → (rand name abba : List ℕ) (abba_len : ℕ) (res_star k_amf : List ℕ) → length res_star ≡ 16
    → length k_amf ≡ 32
    → abba_len ≤ length abba
    → let o = v.outcome in
      let u = o.usim in
      let k_seaf =
        srs.security_generate_k_seaf
          (srs.security_generate_k_ausf u.ck u.ik o.ak_xor_sqn name)
          name in
      (r : Response5g) × (derive_keys srs l v rand name abba abba_len res_star k_amf ≡ some r)
      × (r.result ≡ auth_ok)
      × (r.k_amf ≡ srs.security_generate_k_amf k_seaf u.imsi_str abba abba_len)
unfolding derive_keys
derive_keys_lem srs keys l locals v rand name abba abba_len res_star k_amf h16 h32 inside =
    let o = v.outcome in
    let u = o.usim in
    let star = srs.security_generate_res_star u.ck u.ik name rand o.res o.res_len in
    let ausf = srs.security_generate_k_ausf u.ck u.ik o.ak_xor_sqn name in
    let seaf = srs.security_generate_k_seaf ausf name in
    let amf = srs.security_generate_k_amf seaf u.imsi_str abba abba_len in
    (
      with_keys v (take abba_len abba) star ausf seaf amf,
      rw
          (
            copy_whole 16 star res_star (keys.res_star u.ck u.ik name rand o.res o.res_len) h16,
            copy_whole 32 ausf l.k_ausf (keys.k_ausf u.ck u.ik o.ak_xor_sqn name) locals.k_ausf,
          )
          (rw (copy_whole 32 seaf l.k_seaf (keys.k_seaf ausf name) locals.k_seaf) (
            rw (copy_whole 32 amf k_amf (keys.k_amf seaf u.imsi_str abba abba_len) h32)
              (rw (slice_lem abba_len 0 abba (omega arith)) refl))),
      refl,
      refl,
    )

-- An accepted answer ends with the keys.
finish_accepted :
    (srs : SrsRan) (keys : KeysSized srs) (l : Locals) (locals : LocalsSized l)
    → (rand name abba : List ℕ) (abba_len : ℕ) (res_star k_amf : List ℕ) → length res_star ≡ 16
    → length k_amf ≡ 32
    → abba_len ≤ length abba
    → (answer : Option VsimOutcome) (v : VsimOutcome) → answer ≡ some v
    → v.outcome.result ≡ auth_ok
    → let o = v.outcome in
      let u = o.usim in
      let k_seaf =
        srs.security_generate_k_seaf
          (srs.security_generate_k_ausf u.ck u.ik o.ak_xor_sqn name)
          name in
      (r : Response5g) × ((answer >>= finish_5g srs l rand name abba abba_len res_star k_amf)
        ≡ some r)
      × (r.result ≡ auth_ok)
      × (r.k_amf ≡ srs.security_generate_k_amf k_seaf u.imsi_str abba abba_len)
unfolding finish_5g derive_keys_lem
finish_accepted srs keys l locals rand name abba abba_len res_star k_amf h16 h32 inside answer v e
      accepted =
    let (r, run, ok, amf) =
      derive_keys_lem srs keys l locals v rand name abba abba_len res_star k_amf h16 h32 inside in
    (r, rw e (rw accepted run), ok, amf)

module _ (srs : SrsRan) (laws : SrsRanSized srs) (keys : KeysSized srs) (l : Locals)
    (locals : LocalsSized l) (u : Usim) (sized : UsimSized u) (rand autn_enb : List ℕ)
    (hr : length rand ≡ 16) (ha : length autn_enb ≡ 16)
    (algo : u.auth_algo ≡ auth_algo_milenage) where
  milenage : is_xor u.auth_algo ≡ false
  unfolding is_xor
  milenage = ap is_xor algo

  -- An LTE challenge with Milenage: K_asme is derived, from CK, IK and the challenge's SQN ⊕ AK, if the
  -- challenge's MAC is the right one; if it is not, the result is AUTH_FAILED and the caller's K_asme
  -- keeps its contents.
  pub k_asme_for_right_mac_only :
      (mcc mnc : ℕ) (res k_asme : List ℕ)
      → 8 ≤ length res
      → length k_asme ≡ 32
      → let f = srs.security_milenage_f2345 u.k u.opc rand in
        let mac =
          srs.security_milenage_f1 u.k u.opc rand
            (xor (take 6 autn_enb) f.ak)
            (take 2 (drop 6 autn_enb)) in
        let right = same_text (drop 8 autn_enb) mac in
        generate_authentication_response srs l u rand autn_enb mcc mnc res k_asme
        ≡ some (record {
          outcome =
              answered srs laws u sized rand autn_enb hr ha
                (if right then auth_ok else auth_failed)
                res;
          k_asme =
              if right
              then srs.security_generate_k_asme f.ck f.ik (take 6 autn_enb) mcc mnc
              else k_asme;
        })
  unfolding generate_authentication_response finish_lte
  k_asme_for_right_mac_only mcc mnc res k_asme h8 h32 =
      let f = srs.security_milenage_f2345 u.k u.opc rand in
      let key = srs.security_generate_k_asme f.ck f.ik (take 6 autn_enb) mcc mnc in
      let mac =
        srs.security_milenage_f1 u.k u.opc rand (xor (take 6 autn_enb) f.ak)
          (take 2 (drop 6 autn_enb)) in
      let answer =
        ap
          (λ b.
            (if b
              then gen_auth_res_xor srs u rand autn_enb res l.ak_xor_sqn l.sqn l.res_
              else gen_auth_res_milenage srs u rand autn_enb res l.ak_xor_sqn l.sqn)
            >>= finish_lte srs mcc mnc k_asme)
          milenage
        ∙ ap (λ o. o >>= finish_lte srs mcc mnc k_asme)
            (right_mac_only srs laws u sized rand autn_enb hr ha res l.ak_xor_sqn l.sqn h8
              locals.ak_xor_sqn locals.sqn) in
      let stored = copy_whole 32 key k_asme (keys.k_asme f.ck f.ik (take 6 autn_enb) mcc mnc) h32 in
      answer ∙ elim (Bool-cases (same_text (drop 8 autn_enb) mac)) [
        | inl same ↦ rw same (rw stored refl)
        | inr other ↦ rw other refl
      ]

  chosen :
      (others : Interference) (use_vsim : Option (List ℕ)) (b : Bool) (start end : Timeval)
      (s : SharedData)
      → uses_vsim use_vsim ≡ b
      → answer_5g srs l others use_vsim start end u s rand autn_enb ≡ (
          if b
          then vsim_5g srs l others start end u s rand autn_enb
          else standard_5g srs l start end u s rand autn_enb)
  unfolding answer_5g
  chosen others use_vsim b start end s e =
      ap₂
        (λ x c.
          if x
          then xor_5g srs l u s rand autn_enb
          else (if c
              then vsim_5g srs l others start end u s rand autn_enb
              else standard_5g srs l start end u s rand autn_enb))
        milenage e

  module _ (others : Interference) (start end : Timeval) (s : SharedData) (name abba : List ℕ)
      (abba_len : ℕ) (res_star k_amf : List ℕ) (used : u.fpga_initialized ≡ true)
      (h16 : length res_star ≡ 16) (h32 : length k_amf ≡ 32) (inside : abba_len ≤ length abba)
      (start_time : IsTime start) (end_time : IsTime end) where
    abbrev run : Option (List ℕ) → Option Response5g
    run use_vsim =
        generate_authentication_response_5g srs l others use_vsim start end u s rand autn_enb name
          abba abba_len res_star k_amf

    -- K_AMF from CK, IK and the challenge's SQN ⊕ AK.
    abbrev derived_amf : List ℕ
    derived_amf =
        let f = srs.security_milenage_f2345 u.k u.opc rand in
        srs.security_generate_k_amf
          (srs.security_generate_k_seaf
            (srs.security_generate_k_ausf f.ck f.ik (take 6 autn_enb) name) name)
          u.imsi_str abba abba_len

    time : (ms : ℤ) × (get_time_diff_ms start end ≡ some ms)
    unfolding get_time_diff_ms
    time = milliseconds-IsTime start end start_time end_time

    timed :
        (label : String) (v : VsimOutcome)
        → (get_time_diff_ms start end >>= λ ms. some (add_line (say_ms label ms) v))
          ≡ some (add_line (say_ms label time.0) v)
    timed label v = rw time.1 refl

    with_enclave :
        (use_vsim : Option (List ℕ))
        → uses_vsim use_vsim ≡ true
        → (r : Response5g) × (run use_vsim ≡ some r)
          × (r.result ≡ auth_ok)
          × (r.k_amf ≡ derived_amf)
    unfolding generate_authentication_response_5g vsim_5g
    with_enclave use_vsim on =
        let accepted =
          later_answer srs (vsim_begun u) (with_log u _ sized) rand autn_enb hr ha laws others s
            l.res l.ak_xor_sqn l.sqn l.res_len used (omega (arith, locals.res)) locals.ak_xor_sqn
            locals.sqn in
        finish_accepted srs keys l locals rand name abba abba_len res_star k_amf h16 h32 inside _ _
          (chosen others use_vsim true start end s on
            ∙ ap
                (λ o. o >>= λ v. do
                  ms ← get_time_diff_ms start end
                  some (add_line (say_ms "vSIM 5G authentication time: %ld ms" ms) v))
                accepted
            ∙ timed "vSIM 5G authentication time: %ld ms" _)
          refl

    without_enclave :
        (use_vsim : Option (List ℕ))
        → uses_vsim use_vsim ≡ false
        → drop 8 autn_enb
          ≢ srs.security_milenage_f1 u.k u.opc rand
              (xor (take 6 autn_enb) (srs.security_milenage_f2345 u.k u.opc rand).ak)
              (take 2 (drop 6 autn_enb))
        → (r : Response5g) × (run use_vsim ≡ some r) × (r.result ≡ auth_failed) × (r.k_amf ≡ k_amf)
    unfolding generate_authentication_response_5g standard_5g finish_5g
    without_enclave use_vsim off ne =
        let rejected =
          (by_mac srs laws (standard_begun u) (with_log u _ sized) rand autn_enb hr ha l.res
              l.ak_xor_sqn l.sqn (omega (arith, locals.res)) locals.ak_xor_sqn locals.sqn).1
            ne in
        (
          _,
          ap (λ o. o >>= finish_5g srs l rand name abba abba_len res_star k_amf)
              (chosen others use_vsim false start end s off
                ∙ ap
                    (λ o. o >>= λ o. do
                      ms ← get_time_diff_ms start end
                      some (
                          add_line (say_ms "Standard milenage 5G authentication time: %ld ms" ms)
                            (record { outcome = o; shared = s })))
                    rejected
                ∙ timed "Standard milenage 5G authentication time: %ld ms" _),
          refl,
          refl,
        )

    -- A 5G challenge whose MAC is wrong, with Milenage, after the enclave was asked once: with USE_VSIM
    -- set to "true" the result is AUTH_OK, and K_AMF is derived from CK, IK and the challenge's SQN ⊕ AK;
    -- with another value, or none, it is AUTH_FAILED, and the caller's K_AMF keeps its contents. ABBA has
    -- abba_len bytes or more, and the two times of the log have fewer than 2 ^ 53 seconds.
    pub wrong_mac_5g :
        (use_vsim : Option (List ℕ))
        → drop 8 autn_enb
          ≢ srs.security_milenage_f1 u.k u.opc rand
              (xor (take 6 autn_enb) (srs.security_milenage_f2345 u.k u.opc rand).ak)
              (take 2 (drop 6 autn_enb))
        → (r : Response5g) × (generate_authentication_response_5g srs l others use_vsim start end u
              s rand autn_enb name abba abba_len res_star k_amf
            ≡ some r)
          × (r.result ≡ (if uses_vsim use_vsim then auth_ok else auth_failed))
          × (r.k_amf ≡ (if uses_vsim use_vsim then derived_amf else k_amf))
    wrong_mac_5g use_vsim ne = elim (Bool-cases (uses_vsim use_vsim)) [
      | inl on ↦ rw on (with_enclave use_vsim on)
      | inr off ↦ rw off (without_enclave use_vsim off ne)
    ]
