-- ===== src/Usim/Standard/Laws.antt =====
-- What srsUE answers itself: RES, CK, IK, and AUTH_OK for a challenge with the right MAC only.
use disguise_pets.Base.{
  ℕ, ◌≡◌, ◌≢◌, refl, arith, List, [], ◌∷◌, ◌++◌, take, drop, length, length-take, some, ◌∙◌, ◌≤◌,
  ap, Bool-cases, inl, inr, if◌then◌else◌, length-append,
}
use disguise_pets.Base.Arrays.{copy_at}
use disguise_pets.Channel.Copy.{copy_at_lem}
use disguise_pets.Channel.Buffers.{take-all, drop-none}
use disguise_pets.Milenage.Spec.{xor}
use disguise_pets.Usim.{
  Usim, UsimSized, SrsRan, SrsRanSized, F2345, AuthResult, auth_ok, auth_failed, Line, say, say_hex,
}
use disguise_pets.Usim.Check.{Checked}
use disguise_pets.Usim.Text.{same_text}
use disguise_pets.Usim.Text.Printed.{log_hex_lem, same_text-eq, same_text-ne}
use disguise_pets.Usim.Standard.{
  Outcome, log_derived, log_compared, log_dumps, with_answer, gen_auth_res_milenage,
}
use disguise_pets.Usim.Standard.Verdict.{
  check_autn_lem, checked, length-rebuilt, length-mac, right_mac, wrong_mac,
}
use disguise_pets.Hex.Laws.{hex_text}

-- An output of f2345 in the array that it is written to.
pub copy_front :
    (n : ℕ) (a dst : List ℕ)
    → length a ≡ n
    → n ≤ length dst
    → copy_at n 0 0 a dst ≡ some (a ++ drop n dst)
copy_front n a dst ha hd = copy_at_lem n 0 0 a [] dst refl (omega arith) hd ∙ rw (take-all n a ha)

pub append_nil : (l : List ℕ) → l ++ [] ≡ l
append_nil [] = refl
append_nil (x ∷ l) = ap (◌∷◌ x) (append_nil l)

pub copy_whole :
    (n : ℕ) (a dst : List ℕ) → length a ≡ n → length dst ≡ n → copy_at n 0 0 a dst ≡ some a
copy_whole n a dst ha hd =
    copy_front n a dst ha (omega arith) ∙ rw (drop-none n dst hd) (ap some (append_nil a))

-- The lines of the log on the inputs and the outputs, and on the comparison.
abbrev pub derived_lines : (k opc rand ak ck ik res : List ℕ) → List Line → List Line
derived_lines k opc rand ak ck ik res log =
    say_hex "CK (hex): %s" (hex_text (take 8 res))
    ∷ say_hex "CK (hex): %s" (hex_text (take 16 ik))
    ∷ say_hex "CK (hex): %s" (hex_text (take 16 ck))
    ∷ say_hex "AK (hex): %s" (hex_text (take 6 ak))
    ∷ say_hex "RAND (hex): %s" (hex_text (take 16 rand))
    ∷ say_hex "OPC (hex): %s" (hex_text (take 16 opc))
    ∷ say_hex "K (hex): %s" (hex_text (take 16 k))
    ∷ log

abbrev pub compared_lines : (autn autn_enb ak_xor_sqn : List ℕ) → List Line → List Line
compared_lines autn autn_enb ak_xor_sqn log =
    say_hex "ak_xor_sqn (hex): %s" (hex_text (take 6 ak_xor_sqn))
    ∷ say_hex "AUT_ENB (hex): %s" (hex_text (take 16 autn_enb))
    ∷ say_hex "AUTN (hex): %s" (hex_text (take 16 autn))
    ∷ log

log_derived_lem :
    (k opc rand ak ck ik res : List ℕ) (log : List Line)
    → 16 ≤ length k
    → 16 ≤ length opc
    → 16 ≤ length rand
    → 6 ≤ length ak
    → 16 ≤ length ck
    → 16 ≤ length ik
    → 8 ≤ length res
    → log_derived k opc rand ak ck ik res log ≡ some (derived_lines k opc rand ak ck ik res log)
unfolding log_derived
log_derived_lem k opc rand ak ck ik res log hk ho hr ha hc hi h8 =
    rw (log_hex_lem "K (hex): %s" 16 k log hk) (
      rw (log_hex_lem "OPC (hex): %s" 16 opc _ ho) (
        rw (log_hex_lem "RAND (hex): %s" 16 rand _ hr) (
          rw (log_hex_lem "AK (hex): %s" 6 ak _ ha) (
            rw (log_hex_lem "CK (hex): %s" 16 ck _ hc) (
              rw (log_hex_lem "CK (hex): %s" 16 ik _ hi)
                (log_hex_lem "CK (hex): %s" 8 res _ h8))))))

log_compared_lem :
    (autn autn_enb ak_xor_sqn : List ℕ) (log : List Line)
    → 16 ≤ length autn
    → 16 ≤ length autn_enb
    → 6 ≤ length ak_xor_sqn
    → log_compared autn autn_enb ak_xor_sqn log ≡ some (compared_lines autn autn_enb ak_xor_sqn log)
unfolding log_compared
log_compared_lem autn autn_enb ak_xor_sqn log ha he hx =
    rw (log_hex_lem "AUTN (hex): %s" 16 autn log ha) (
      rw (log_hex_lem "AUT_ENB (hex): %s" 16 autn_enb _ he)
        (log_hex_lem "ak_xor_sqn (hex): %s" 6 ak_xor_sqn _ hx))

module _ (srs : SrsRan) (laws : SrsRanSized srs) (u : Usim) (sized : UsimSized u)
    (rand autn_enb : List ℕ) (hr : length rand ≡ 16) (ha : length autn_enb ≡ 16) where
  abbrev f : F2345
  f = srs.security_milenage_f2345 u.k u.opc rand

  abbrev c : Checked
  c = checked (srs.security_milenage_f1 u.k u.opc rand) f.ak autn_enb

  mac_sized :
      (s amf : List ℕ)
      → length s ≡ 6
      → length amf ≡ 2
      → length (srs.security_milenage_f1 u.k u.opc rand s amf) ≡ 8
  mac_sized s amf hs ha = laws.milenage_f1 u.k u.opc rand s amf sized.opc hr hs ha

  -- The answer with a given result.
  abbrev pub answered : AuthResult → (res : List ℕ) → Outcome
  answered result res =
      let lines =
        derived_lines u.k u.opc rand f.ak f.ck f.ik (f.res ++ drop 8 res)
          (say "Sent challenge:" ∷ u.log) in
      record {
        result = result;
        usim =
            with_answer u f.ck f.ik f.ak c
              (log_dumps f.ck f.ik f.ak c (compared_lines c.autn autn_enb c.ak_xor_sqn lines));
        res = f.res ++ drop 8 res;
        res_len = 8;
        ak_xor_sqn = take 6 autn_enb;
      }

  pub answered_lem :
      (res ak_xor_sqn sqn : List ℕ)
      → 8 ≤ length res
      → length ak_xor_sqn ≡ 6
      → length sqn ≡ 6
      → gen_auth_res_milenage srs u rand autn_enb res ak_xor_sqn sqn ≡ some (answered c.result res)
  unfolding gen_auth_res_milenage
  answered_lem res ak_xor_sqn sqn h8 hx hs =
      let fs = laws.milenage_f2345 u.k u.opc rand sized.opc hr in
      let f1 = srs.security_milenage_f1 u.k u.opc rand in
      let h16 : length c.autn ≡ 16 =
        length-rebuilt autn_enb c.mac ha (length-mac f1 f.ak autn_enb mac_sized fs.ak ha) in
      rw
        (
          copy_front 8 f.res res fs.res h8,
          copy_whole 16 f.ck u.ck fs.ck sized.ck,
          copy_whole 16 f.ik u.ik fs.ik sized.ik,
          copy_whole 6 f.ak u.ak fs.ak sized.ak,
        )
        (rw
          (log_derived_lem u.k u.opc rand f.ak f.ck f.ik (f.res ++ drop 8 res) _
            (omega (arith, sized.k)) (omega (arith, sized.opc)) (omega arith) (omega (arith, fs.ak))
            (omega (arith, fs.ck)) (omega (arith, fs.ik))
            (omega (arith, length-append f.res (drop 8 res), fs.res)))
          (rw (check_autn_lem f1 u f.ak autn_enb sqn ak_xor_sqn mac_sized sized fs.ak ha hs hx) (
            rw (
              log_compared_lem c.autn autn_enb (take 6 autn_enb) _ (omega (arith, h16))
                (omega arith) (omega (arith, length-take 6 autn_enb))))))

  pub by_mac :
      (res ak_xor_sqn sqn : List ℕ)
      → 8 ≤ length res
      → length ak_xor_sqn ≡ 6
      → length sqn ≡ 6
      → let run = gen_auth_res_milenage srs u rand autn_enb res ak_xor_sqn sqn in
        let mac =
          srs.security_milenage_f1 u.k u.opc rand
            (xor (take 6 autn_enb) f.ak)
            (take 2 (drop 6 autn_enb)) in
        (drop 8 autn_enb ≡ mac → run ≡ some (answered auth_ok res))
        × (drop 8 autn_enb ≢ mac → run ≡ some (answered auth_failed res))
  by_mac res ak_xor_sqn sqn h8 hx hs =
      let run = answered_lem res ak_xor_sqn sqn h8 hx hs in
      let fs = laws.milenage_f2345 u.k u.opc rand sized.opc hr in
      let f1 = srs.security_milenage_f1 u.k u.opc rand in
      let hm = length-mac f1 f.ak autn_enb mac_sized fs.ak ha in
      (
        λ e. run ∙ ap (λ r. some (answered r res)) (right_mac autn_enb c.mac ha hm e),
        λ ne. run ∙ ap (λ r. some (answered r res)) (wrong_mac autn_enb c.mac ha hm ne),
      )

  -- srsUE's own answer, of arrays of their lengths: the caller's array begins with RES, ck, ik and ak
  -- are those of f2345, and SQN ⊕ AK is the challenge's. The result is AUTH_OK if the challenge ends
  -- in the MAC that f1 gives for its SQN and AMF, and AUTH_FAILED if it does not.
  pub right_mac_only :
      (res ak_xor_sqn sqn : List ℕ)
      → 8 ≤ length res
      → length ak_xor_sqn ≡ 6
      → length sqn ≡ 6
      → let mac =
          srs.security_milenage_f1 u.k u.opc rand
            (xor (take 6 autn_enb) f.ak)
            (take 2 (drop 6 autn_enb)) in
        gen_auth_res_milenage srs u rand autn_enb res ak_xor_sqn sqn
        ≡ some (answered (if same_text (drop 8 autn_enb) mac then auth_ok else auth_failed) res)
  right_mac_only res ak_xor_sqn sqn h8 hx hs =
      let both = by_mac res ak_xor_sqn sqn h8 hx hs in
      elim (Bool-cases (same_text (drop 8 autn_enb) c.mac)) [
        | inl same ↦ both.0 (same_text-eq (drop 8 autn_enb) c.mac same) ∙ rw same refl
        | inr other ↦ both.1 (same_text-ne (drop 8 autn_enb) c.mac other) ∙ rw other refl
      ]
