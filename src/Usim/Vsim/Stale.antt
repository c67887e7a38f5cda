-- ===== src/Usim/Vsim/Stale.antt =====
-- Answers that srsUE takes although the enclave has not seen the challenge.
use disguise_pets.Base.{
  ℕ, zero, suc, ◌≤◌, ◌≡◌, arith, true, false, List, length, some, ap, ◌∙◌, sym, dec_lt,
}
use mathlib.Core.Path.{subst}
use disguise_pets.Shared.{SharedData}
use disguise_pets.Usim.{Usim, UsimSized, SrsRan, mapped, Line}
use disguise_pets.Usim.Vsim.{Others, Interference, gen_auth_res_milenage_vsim}
use disguise_pets.Usim.Vsim.Polls.{seen, Ends}
use disguise_pets.Usim.Vsim.Answer.{RequestSized, ReplySized, requested, taken}
use disguise_pets.Usim.Vsim.Laws.{settled_answer}

seen_same :
    (others : Others) (req : SharedData)
    → ((t : ℕ) → others t req ≡ req)
    → (n : ℕ) → seen others req n ≡ req
seen_same others req same zero = same 0
seen_same others req same (suc n) = rw (seen_same others req same n) (same (suc n))

module _ (srs : SrsRan) (u : Usim) (sized : UsimSized u) (rand autn_enb : List ℕ)
    (hr : length rand ≡ 16) (ha : length autn_enb ≡ 16) (fresh : u.fpga_initialized ≡ false)
    (map : u.shared_data ≡ mapped) where
  -- On srsUE's first challenge, if no other process changes the memory while srsUE waits and copies, the call still
  -- succeeds: the result is AUTH_OK, and RES, CK, IK and SQN ⊕ AK are whatever the memory held before
  -- the request. It makes no difference whether the flag of an earlier answer is still set.
  pub unanswered_accepted :
      (others : Interference) (s : SharedData) (res ak_xor_sqn sqn : List ℕ) (res_len : ℕ)
      → RequestSized s
      → ReplySized s
      → ((t : ℕ)
          → others.loads t (requested rand u.opc autn_enb s) ≡ requested rand u.opc autn_enb s)
      → ((k i : ℕ)
          → others.copies k i (requested rand u.opc autn_enb s) ≡ requested rand u.opc autn_enb s)
      → 8 ≤ length res
      → length ak_xor_sqn ≡ 6
      → (log : List Line) × (gen_auth_res_milenage_vsim srs others u s rand autn_enb res ak_xor_sqn
            sqn res_len
          ≡ some (taken u res (requested rand u.opc autn_enb s) log))
  unanswered_accepted others s res ak_xor_sqn sqn res_len request reply same still_same h8 hx =
      let req = requested rand u.opc autn_enb s in
      let still = seen_same others.loads req same in
      let reply' : ReplySized req = record {
        res = reply.res;
        ak_xor_sqn = reply.ak_xor_sqn;
        ck = reply.ck;
        ik = reply.ik;
      } in
      let (n, ends, log, run) =
        settled_answer srs u sized rand autn_enb hr ha others s res ak_xor_sqn sqn res_len fresh map
          request (λ n. subst ReplySized (sym (still n)) reply')
          (λ n k i ends. subst (λ m. others.copies k i m ≡ m) (sym (still n)) (still_same k i)) h8
          hx in
      (log, run ∙ ap (λ m. some (taken u res m log)) (still n))

  -- On srsUE's first challenge, if the flag of an earlier answer is still set, the host has not taken
  -- the request by srsUE's first load, and nobody writes the memory during the copies, srsUE takes the
  -- earlier answer without a wait: the result is AUTH_OK for a challenge that the enclave has not seen.
  pub stale_answer_taken :
      (others : Interference) (s : SharedData) (res ak_xor_sqn sqn : List ℕ) (res_len : ℕ)
      → RequestSized s
      → ((n : ℕ) → ReplySized (seen others.loads (requested rand u.opc autn_enb s) n))
      → s.auth_response_ready ≡ true
      → others.loads 0 (requested rand u.opc autn_enb s) ≡ requested rand u.opc autn_enb s
      → ((k i : ℕ)
          → others.copies k i (requested rand u.opc autn_enb s) ≡ requested rand u.opc autn_enb s)
      → 8 ≤ length res
      → length ak_xor_sqn ≡ 6
      → (log : List Line) × (gen_auth_res_milenage_vsim srs others u s rand autn_enb res ak_xor_sqn
            sqn res_len
          ≡ some (taken u res (requested rand u.opc autn_enb s) log))
  stale_answer_taken others s res ak_xor_sqn sqn res_len request reply ready same still_same h8 hx =
      let req = requested rand u.opc autn_enb s in
      let at_first : (n : ℕ) → Ends others.loads req 0 5 n → seen others.loads req n ≡ req =
        λ n ends.
          let at_once : n ≡ 0 = elim (dec_lt 0 n) [
            | yes later ↦
                let both : true ≡ false =
                  sym ready
                  ∙ sym (ap (λ m. m.auth_response_ready) same)
                  ∙ ends.waited 0 (omega arith) later in
                absurd (ground (arith, both))
            | no first ↦ omega arith
          ] in
          ap (seen others.loads req) at_once ∙ same in
      let (n, ends, log, run) =
        settled_answer srs u sized rand autn_enb hr ha others s res ak_xor_sqn sqn res_len fresh map
          request reply
          (λ n k i ends.
            subst (λ m. others.copies k i m ≡ m) (sym (at_first n ends)) (still_same k i))
          h8 hx in
      (log, run ∙ ap (λ m. some (taken u res m log)) (at_first n ends))
