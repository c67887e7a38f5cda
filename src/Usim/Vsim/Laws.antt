-- ===== src/Usim/Vsim/Laws.antt =====
-- What srsUE makes of the enclave's answer, and of its absence.
use mathlib.Core.Path.{subst}
use disguise_pets.Base.{
  ℕ, ◌≤◌, ◌≡◌, ◌≢◌, refl, arith, Bool, true, false, List, ◌∷◌, ◌++◌, take, length, replicate,
  Option, some, if◌then◌else◌, ◌>>=◌, ap, ◌∙◌, sym,
}
use disguise_pets.Shared.{SharedData}
use disguise_pets.Usim.{
  Usim, UsimSized, SrsRan, Mapping, null, map_failed, mapped, auth_failed, Line, say, say_hex,
}
use disguise_pets.Usim.Text.{log_hex}
use disguise_pets.Usim.Text.Printed.{log_hex_lem}
use disguise_pets.Hex.Laws.{hex_text}
use disguise_pets.Usim.Vsim.{
  Interference, ask_vsim, answer_alone, gen_auth_res_milenage_vsim, is_mapped,
}
use disguise_pets.Usim.Vsim.Polls.{seen, Ends, poll-Ends}
use disguise_pets.Usim.Vsim.Answer.{
  RequestSized, ReplySized, requested, taken, taken_changing, AreSized, write_request_lem,
  read_answer_lem, taken_settled,
}

test_true : {A : Type 0} {b : Bool} (x y : A) → b ≡ true → (if b then x else y) ≡ x
test_true x y e = ap (λ b. if b then x else y) e

test_false : {A : Type 0} {b : Bool} (x y : A) → b ≡ false → (if b then x else y) ≡ y
test_false x y e = ap (λ b. if b then x else y) e

module _ (srs : SrsRan) (u : Usim) (sized : UsimSized u) (rand autn_enb : List ℕ)
    (hr : length rand ≡ 16) (ha : length autn_enb ≡ 16) where
  -- The log after the three lines on the request.
  abbrev pub request_lines : List Line
  request_lines =
      say_hex "autn_enb_str (hex): %s" (hex_text (take 16 autn_enb))
      ∷ say_hex "RAND (hex): %s" (hex_text (take 16 rand))
      ∷ say_hex "OPC (hex): %s" (hex_text (take 16 u.opc))
      ∷ u.log

  log_request :
      {B : Type 0} (rest : List Line → Option B)
      → (log_hex "OPC (hex): %s" 16 u.opc u.log >>= λ log.
          log_hex "RAND (hex): %s" 16 rand log >>= λ log.
          log_hex "autn_enb_str (hex): %s" 16 autn_enb log >>= rest)
        ≡ rest request_lines
  log_request rest = rw (log_hex_lem "OPC (hex): %s" 16 u.opc u.log (omega (arith, sized.opc))) (
      rw (log_hex_lem "RAND (hex): %s" 16 rand _ (omega arith))
        (rw (log_hex_lem "autn_enb_str (hex): %s" 16 autn_enb _ (omega arith)) refl))

  -- The two branches of the call, behind the three lines.
  first_call :
      (others : Interference) (s : SharedData) (res ak_xor_sqn sqn : List ℕ) (res_len : ℕ)
      → u.fpga_initialized ≡ false
      → gen_auth_res_milenage_vsim srs others u s rand autn_enb res ak_xor_sqn sqn res_len
        ≡ ask_vsim others u s rand autn_enb res ak_xor_sqn res_len request_lines
  unfolding gen_auth_res_milenage_vsim
  first_call others s res ak_xor_sqn sqn res_len fresh =
      log_request _
      ∙ ap
          (λ b.
            if b
            then answer_alone srs u s rand autn_enb res ak_xor_sqn sqn request_lines
            else ask_vsim others u s rand autn_enb res ak_xor_sqn res_len request_lines)
          fresh

  pub later_call :
      (others : Interference) (s : SharedData) (res ak_xor_sqn sqn : List ℕ) (res_len : ℕ)
      → u.fpga_initialized ≡ true
      → gen_auth_res_milenage_vsim srs others u s rand autn_enb res ak_xor_sqn sqn res_len
        ≡ answer_alone srs u s rand autn_enb res ak_xor_sqn sqn request_lines
  unfolding gen_auth_res_milenage_vsim
  later_call others s res ak_xor_sqn sqn res_len used =
      log_request _
      ∙ ap
          (λ b.
            if b
            then answer_alone srs u s rand autn_enb res ak_xor_sqn sqn request_lines
            else ask_vsim others u s rand autn_enb res ak_xor_sqn res_len request_lines)
          used

  -- The first answer, whatever the other processes do to the memory before, between and during the
  -- copies, as long as its arrays keep their lengths: the waits end after five at most, the result is
  -- AUTH_OK, and each byte of RES, CK, IK and SQN ⊕ AK is the one that the memory holds when the copy
  -- reads it, so that an answer that is written during the copies is taken in part. The next call will
  -- not ask the enclave.
  pub first_answer :
      (others : Interference) (s : SharedData) (res ak_xor_sqn sqn : List ℕ) (res_len : ℕ)
      → u.fpga_initialized ≡ false
      → u.shared_data ≡ mapped
      → RequestSized s
      → ((n : ℕ)
          → Ends others.loads (requested rand u.opc autn_enb s) 0 5 n
          → AreSized others.copies (seen others.loads (requested rand u.opc autn_enb s) n))
      → 8 ≤ length res
      → length ak_xor_sqn ≡ 6
      → (n : ℕ) × Ends others.loads (requested rand u.opc autn_enb s) 0 5 n
        × (log : List Line) × (gen_auth_res_milenage_vsim srs others u s rand autn_enb res
              ak_xor_sqn sqn res_len
            ≡ some (
                taken_changing others.copies u res
                  (seen others.loads (requested rand u.opc autn_enb s) n)
                  log))
  unfolding ask_vsim is_mapped
  first_answer others s res ak_xor_sqn sqn res_len fresh map request reply h8 hx =
      let req = requested rand u.opc autn_enb s in
      let sent =
        say "Authentication request written to shared memory (Checking w/ atomic)"
        ∷ say "Calling vSIM (for fpga) with rand, autn, and opc"
        ∷ request_lines in
      let (n, ends, run) = poll-Ends others.loads req sent in
      let (log, read) =
        read_answer_lem others.copies u res ak_xor_sqn (seen others.loads req n)
          (replicate n (say "Waiting...") ++ sent) sized (reply n ends) h8 hx in
      let ask : ask_vsim others u s rand autn_enb res ak_xor_sqn res_len request_lines
          ≡ some (taken_changing others.copies u res (seen others.loads req n) log) =
        test_true _ _ (ap is_mapped map)
        ∙ rw (write_request_lem rand u.opc autn_enb s request hr sized.opc ha) (rw run read) in
      (n, ends, log, first_call others s res ak_xor_sqn sqn res_len fresh ∙ ask)

  -- If the memory does not change between the last load and the end of the copies, the answer is the
  -- one that it holds at the last load.
  pub settled_answer :
      (others : Interference) (s : SharedData) (res ak_xor_sqn sqn : List ℕ) (res_len : ℕ)
      → u.fpga_initialized ≡ false
      → u.shared_data ≡ mapped
      → RequestSized s
      → ((n : ℕ) → ReplySized (seen others.loads (requested rand u.opc autn_enb s) n))
      → ((n k i : ℕ)
          → Ends others.loads (requested rand u.opc autn_enb s) 0 5 n
          → let m = seen others.loads (requested rand u.opc autn_enb s) n in
            others.copies k i m ≡ m)
      → 8 ≤ length res
      → length ak_xor_sqn ≡ 6
      → (n : ℕ) × Ends others.loads (requested rand u.opc autn_enb s) 0 5 n
        × (log : List Line) × (gen_auth_res_milenage_vsim srs others u s rand autn_enb res
              ak_xor_sqn sqn res_len
            ≡ some (taken u res (seen others.loads (requested rand u.opc autn_enb s) n) log))
  unfolding AreSized
  settled_answer others s res ak_xor_sqn sqn res_len fresh map request reply still h8 hx =
      let m = seen others.loads (requested rand u.opc autn_enb s) in
      let (n, ends, log, run) =
        first_answer others s res ak_xor_sqn sqn res_len fresh map request
          (λ n ends k i. subst ReplySized (sym (still n k i ends)) (reply n)) h8 hx in
      (
        n,
        ends,
        log,
        run
            ∙ ap some
                (taken_settled others.copies u res (m n) log (reply n) (λ k i. still n k i ends)),
      )

  -- If srsUE did not map the memory, its first call fails, and the caller's arrays, the length and
  -- the memory keep their contents.
  pub unmapped_fails :
      (others : Interference) (s : SharedData) (res ak_xor_sqn sqn : List ℕ) (res_len : ℕ)
      → u.fpga_initialized ≡ false
      → u.shared_data ≢ mapped
      → (log : List Line) × (gen_auth_res_milenage_vsim srs others u s rand autn_enb res ak_xor_sqn
            sqn res_len
          ≡ some (record {
            outcome = record {
              result = auth_failed;
              usim = record u { log = log };
              res = res;
              res_len = res_len;
              ak_xor_sqn = ak_xor_sqn;
            };
            shared = s;
          }))
  unfolding ask_vsim is_mapped
  unmapped_fails others s res ak_xor_sqn sqn res_len fresh ne =
      let not_mapped : is_mapped u.shared_data ≡ false = is_mapped-false u.shared_data ne in
      (
        say "Shared memory not initialized"
            ∷ say "Calling vSIM (for fpga) with rand, autn, and opc"
            ∷ request_lines,
        first_call others s res ak_xor_sqn sqn res_len fresh ∙ test_false _ _ not_mapped,
      )
    where
      is_mapped-false : (m : Mapping) → m ≢ mapped → is_mapped m ≡ false
      is_mapped-false null ne = refl
      is_mapped-false map_failed ne = refl
      is_mapped-false mapped ne = absurd (ne refl)
