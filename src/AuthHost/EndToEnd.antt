-- ===== src/AuthHost/EndToEnd.antt =====
-- srsUE, the host and the enclave together on srsUE's first challenge.
use disguise_pets.Base.{
  ℕ, zero, suc, ◌≤◌, ◌<◌, ◌≡◌, inl, inr, refl, arith, true, false, List, take, length, length-take,
  none, some, ◌==◌, if◌then◌else◌, dec_lt, ap, ◌∙◌, sym,
}
use mathlib.Core.Path.{subst}
use disguise_pets.Milenage.{Aes}
use disguise_pets.Milenage.Spec
use disguise_pets.Milenage.Answer.{subscriber_key}
use disguise_pets.Milenage.Functions.{length-res, length-ck, length-ik}
use disguise_pets.Enclave.{World}
use disguise_pets.Auth.{EntryLocals}
use disguise_pets.Auth.Laws.{LocalsSized}
use disguise_pets.Shared.{SharedData}
use disguise_pets.Usim.{Usim, UsimSized, SrsRan, mapped, Line}
use disguise_pets.Usim.Vsim.{Others, gen_auth_res_milenage_vsim}
use disguise_pets.Usim.Vsim.Polls.{seen, Ends}
use disguise_pets.Usim.Vsim.Answer.{RequestSized, ReplySized, requested, taken, undisturbed}
use disguise_pets.Usim.Vsim.Laws.{settled_answer}
use disguise_pets.AuthHost.{HostArrays}
use disguise_pets.AuthHost.Relay.{ArraysSized}
use disguise_pets.AuthHost.Service.{Ready, serve, served, serve_lem}

-- The host serves the request before load j, and does nothing before the other loads.
abbrev pub serves_at : Aes → EntryLocals → World → (buffer : List ℕ) → HostArrays → (j : ℕ) → Others
serves_at aes l w buffer h j t s =
    if t == j then (elim (serve aes l w (some buffer) h s) [ none ↦ s | some s' ↦ s' ]) else s

module _ (aes : Aes) (l : EntryLocals) (w : World) (buffer : List ℕ) (h : HostArrays) (j : ℕ)
    (req : SharedData) (sized : LocalsSized l) (ready : Ready w) (hb : length buffer ≡ 48)
    (arrays : ArraysSized h) (request : RequestSized req) (reply : ReplySized req)
    (served_once : serve aes l w (some buffer) h req ≡ some (served aes req)) where
  abbrev others : Others
  others = serves_at aes l w buffer h j

  seen_before : (i : ℕ) → i < j → seen others req i ≡ req
  seen_before zero lt = let early : (zero == j) ≡ false = ground arith in rw early refl
  seen_before (suc i) lt =
      let early : (suc i == j) ≡ false = ground arith in rw early (seen_before i (omega arith))

  seen_at : (i : ℕ) → i ≡ j → seen others req i ≡ served aes req
  seen_at zero e = let now : (zero == j) ≡ true = ground arith in rw now (rw served_once refl)
  seen_at (suc i) e =
      let now : (suc i == j) ≡ true = ground arith in
      rw now (rw (seen_before i (omega arith)) (rw served_once refl))

  seen_after : (i : ℕ) → j ≤ i → seen others req i ≡ served aes req
  seen_after zero le = seen_at zero (omega arith)
  seen_after (suc i) le = elim (dec_lt i j) [
    | yes lt ↦ seen_at (suc i) (omega arith)
    | no ge ↦ let late : (suc i == j) ≡ false = ground arith in rw late (seen_after i (omega arith))
  ]

  served-ReplySized : ReplySized (served aes req)
  served-ReplySized =
      let d = req.auth_data in
      let h_opc = request.opc_bytes in
      let h_rand = request.rand_bytes in
      record {
        res = length-res aes subscriber_key d.opc_bytes d.rand_bytes h_opc h_rand;
        ak_xor_sqn = omega (arith, length-take 6 d.autenb_bytes, request.autenb_bytes);
        ck = length-ck aes subscriber_key d.opc_bytes d.rand_bytes h_opc h_rand;
        ik = length-ik aes subscriber_key d.opc_bytes d.rand_bytes h_opc h_rand;
      }

  seen-ReplySized : (i : ℕ) → ReplySized (seen others req i)
  seen-ReplySized i = elim (dec_lt i j) [
    | yes lt ↦ subst ReplySized (sym (seen_before i lt)) reply
    | no ge ↦ subst ReplySized (sym (seen_after i (omega arith))) served-ReplySized
  ]

  -- srsUE stops at the load before which the host served.
  Ends-seen :
      (n : ℕ)
      → j ≤ 5
      → req.auth_response_ready ≡ false
      → Ends others req 0 5 n
      → seen others req n ≡ served aes req
  Ends-seen n le unset ends = elim (dec_lt n j) [
    | yes early ↦ absurd (elim ends.reason [
      | inl last ↦ omega arith
      | inr ready ↦
          let both : true ≡ false =
            sym ready ∙ ap (λ s. s.auth_response_ready) (seen_before n early) ∙ unset in
          ground (arith, both)
    ])
    | no later ↦ seen_after n (omega arith)
  ]

-- On srsUE's first challenge, with the memory mapped and the flag of an earlier answer clear, a host
-- that serves the request before one of srsUE's six loads, and a memory that nobody else writes until the
-- answer is copied, make the call succeed: RES, CK and IK are
-- those of Milenage for the key in the enclave, srsUE's OPc and RAND, and SQN ⊕ AK is the challenge's,
-- whatever srsUE's own key is, and whether the challenge's MAC is right or wrong.
pub enclave_answers_first :
    (srs : SrsRan) (aes : Aes) (l : EntryLocals) (w : World) (buffer : List ℕ) (h : HostArrays)
    → (j : ℕ) (u : Usim) (s : SharedData) (rand autn_enb res ak_xor_sqn sqn : List ℕ) (res_len : ℕ)
    → LocalsSized l
    → Ready w
    → length buffer ≡ 48
    → ArraysSized h
    → UsimSized u
    → RequestSized s
    → ReplySized s
    → j ≤ 5
    → s.auth_response_ready ≡ false
    → u.fpga_initialized ≡ false
    → u.shared_data ≡ mapped
    → length rand ≡ 16
    → length autn_enb ≡ 16
    → 8 ≤ length res
    → length ak_xor_sqn ≡ 6
    → let E = aes.ecb_encrypt (aes.init_ctx subscriber_key) in
      (m : SharedData) × (log : List Line) × (gen_auth_res_milenage_vsim srs
          (undisturbed (serves_at aes l w buffer h j))
          u
          s
          rand
          autn_enb
          res
          ak_xor_sqn
          sqn
          res_len
        ≡ some (taken u res m log))
      × (m.res ≡ Spec.res E u.opc rand)
      × (m.ck ≡ Spec.ck E u.opc rand)
      × (m.ik ≡ Spec.ik E u.opc rand)
      × (m.ak_xor_sqn ≡ take 6 autn_enb)
enclave_answers_first srs aes l w buffer h j u s rand autn_enb res ak_xor_sqn sqn res_len sized
      ready hb arrays usim request reply hj unset fresh map hr ha h8 hx =
    let req = requested rand u.opc autn_enb s in
    let request' : RequestSized req = record {
      rand_bytes = hr;
      opc_bytes = usim.opc;
      autenb_bytes = ha;
    } in
    let reply' : ReplySized req = record {
      res = reply.res;
      ak_xor_sqn = reply.ak_xor_sqn;
      ck = reply.ck;
      ik = reply.ik;
    } in
    let once = serve_lem aes l w buffer h req sized ready hb arrays request' reply' refl refl in
    let (n, ends, log, run) =
      settled_answer srs u usim rand autn_enb hr ha (undisturbed (serves_at aes l w buffer h j)) s
        res ak_xor_sqn sqn res_len fresh map request
        (seen-ReplySized aes l w buffer h j req sized ready hb arrays request' reply' once)
        (λ n k i ends. refl) h8 hx in
    let same =
      Ends-seen aes l w buffer h j req sized ready hb arrays request' reply' once n hj unset ends in
    (served aes req, log, run ∙ ap (λ m. some (taken u res m log)) same, refl, refl, refl, refl)
