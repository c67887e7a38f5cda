-- ===== src/Usim/Tests.antt =====
-- The subscriber module on concrete challenges, with a toy cipher.
use disguise_pets.Base.{
  ℕ, zero, suc, ◌^◌, ◌<◌, ◌≡◌, ◌≢◌, refl, arith, true, false, List, [], ◌∷◌, ◌++◌, take, drop,
  replicate, some, if◌then◌else◌, ltb, Bool-cases, inl, inr,
}
use disguise_pets.Milenage.Toy.{zeros, challenge}
use disguise_pets.Milenage.Spec.{xor}
use disguise_pets.Milenage.Spec
use disguise_pets.Enclave.{codes}
use disguise_pets.Hex.Laws.{hex_text}
use disguise_pets.Shared.{SharedData}
use disguise_pets.Usim.{
  Usim, UsimSized, auth_ok, auth_failed, auth_algo_milenage, mapped, Line, say, length_error,
}
use disguise_pets.Usim.Text.{same_text}
use disguise_pets.Usim.Text.Printed.{same_text-ne}
use disguise_pets.Usim.Text.Read.{hex_text-IsHexOf}
use disguise_pets.Usim.Standard.{gen_auth_res_milenage}
use disguise_pets.Usim.Standard.Laws.{answered, right_mac_only}
use disguise_pets.Usim.Vsim.{Others, Interference, gen_auth_res_milenage_vsim, poll}
use disguise_pets.Usim.Vsim.Polls.{seen, Ends, poll-Ends}
use disguise_pets.Usim.Vsim.Answer.{
  ReplySized, requested, taken, taken_changing, undisturbed, AreSized,
}
use disguise_pets.Usim.Vsim.Laws.{first_answer}
use disguise_pets.Usim.Vsim.Stale.{unanswered_accepted}
use disguise_pets.Usim.Response.{
  Response5g, uses_vsim, generate_authentication_response, generate_authentication_response_5g,
}
use disguise_pets.Usim.Response.Laws.{k_asme_for_right_mac_only, wrong_mac_5g}
use disguise_pets.Usim.Init.{UsimArgs, init, srsran_success}
use disguise_pets.Usim.Init.Laws.{value_of, init_lem, init_ignores_lengths}
use disguise_pets.Usim.Toy.{
  toy_srs, toy_srs-SrsRanSized, toy_srs-KeysSized, usim, usim-UsimSized, locals, locals-LocalsSized,
  memory, memory-RequestSized, memory-ReplySized,
}

-- The MAC that belongs to the challenge's SQN and AMF.
abbrev mac : List ℕ
mac =
    let f = toy_srs.security_milenage_f2345 challenge zeros challenge in
    toy_srs.security_milenage_f1 challenge zeros challenge (xor (take 6 challenge) f.ak)
      (take 2 (drop 6 challenge))

right_mac_only_example :
    gen_auth_res_milenage toy_srs usim challenge challenge zeros (replicate 6 5) (replicate 6 5)
    ≡ some (
        answered toy_srs toy_srs-SrsRanSized usim usim-UsimSized challenge challenge refl refl
          (if same_text (drop 8 challenge) mac then auth_ok else auth_failed)
          zeros)
right_mac_only_example =
    right_mac_only toy_srs toy_srs-SrsRanSized usim usim-UsimSized challenge challenge refl refl
      zeros (replicate 6 5) (replicate 6 5) (omega arith) refl refl

k_asme_for_right_mac_only_example :
    generate_authentication_response toy_srs locals usim challenge challenge 310 410 zeros
      (replicate 32 0)
    ≡ some (record {
      outcome =
          answered toy_srs toy_srs-SrsRanSized usim usim-UsimSized challenge challenge refl refl
            (if same_text (drop 8 challenge) mac then auth_ok else auth_failed)
            zeros;
      k_asme =
          let f = toy_srs.security_milenage_f2345 challenge zeros challenge in
          if same_text (drop 8 challenge) mac
          then toy_srs.security_generate_k_asme f.ck f.ik (take 6 challenge) 310 410
          else replicate 32 0;
    })
k_asme_for_right_mac_only_example =
    k_asme_for_right_mac_only toy_srs toy_srs-SrsRanSized toy_srs-KeysSized locals
      locals-LocalsSized usim usim-UsimSized challenge challenge refl refl refl 310 410 zeros
      (replicate 32 0) (omega arith) refl

wrong : drop 8 challenge ≢ mac
unfolding Spec.ak Spec.mac_a Spec.out_block Spec.out1_block Spec.temp_block
wrong = same_text-ne (drop 8 challenge) mac refl

-- Another process that does nothing.
abbrev nobody : Others
nobody t s = s

abbrev quiet : Interference
quiet = undisturbed nobody

poll-Ends_example :
    (n : ℕ) × Ends nobody memory 0 5 n
    × (poll 5 0 nobody memory [] ≡ (seen nobody memory n, replicate n (say "Waiting...") ++ []))
poll-Ends_example = poll-Ends nobody memory []

abbrev request : SharedData
request = requested challenge zeros challenge memory

unanswered_accepted_example :
    (log : List Line) × (gen_auth_res_milenage_vsim toy_srs quiet usim memory challenge challenge
        zeros
        (replicate 6 5)
        (replicate 6 5)
        0
      ≡ some (taken usim zeros request log))
unanswered_accepted_example =
    unanswered_accepted toy_srs usim usim-UsimSized challenge challenge refl refl refl refl quiet
      memory zeros (replicate 6 5) (replicate 6 5) 0 memory-RequestSized memory-ReplySized
      (λ t. refl) (λ k i. refl) (omega arith) refl

-- The class after the enclave was asked once.
abbrev used : Usim
used = record usim { fpga_initialized = true }

used-UsimSized : UsimSized used
used-UsimSized = record {
  k = refl;
  opc = refl;
  ck = refl;
  ik = refl;
  ak = refl;
  mac = refl;
  amf = refl;
  autn = refl;
}

wrong_mac_5g_example :
    let f = toy_srs.security_milenage_f2345 challenge zeros challenge in
    (r : Response5g) × (generate_authentication_response_5g toy_srs locals quiet
        (some (codes "true"))
        (record { tv_sec = 1; tv_usec = 2 })
        (record { tv_sec = 1; tv_usec = 9 })
        used
        memory
        challenge
        challenge
        (codes "5G:net")
        (0 ∷ 0 ∷ [])
        2
        zeros
        (replicate 32 0)
      ≡ some r)
    × (r.result ≡ auth_ok)
    × (r.k_amf
        ≡ toy_srs.security_generate_k_amf
            (toy_srs.security_generate_k_seaf
              (toy_srs.security_generate_k_ausf f.ck f.ik (take 6 challenge) (codes "5G:net"))
              (codes "5G:net"))
            []
            (0 ∷ 0 ∷ [])
            2)
unfolding uses_vsim
wrong_mac_5g_example =
    wrong_mac_5g toy_srs toy_srs-SrsRanSized toy_srs-KeysSized locals locals-LocalsSized used
      used-UsimSized challenge challenge refl refl refl quiet (record { tv_sec = 1; tv_usec = 2 })
      (record { tv_sec = 1; tv_usec = 9 }) memory (codes "5G:net") (0 ∷ 0 ∷ []) 2 zeros
      (replicate 32 0) refl refl refl (omega arith)
      (record { seconds = omega arith; microseconds = omega arith })
      (record { seconds = omega arith; microseconds = omega arith }) (some (codes "true")) wrong

nobody-ReplySized : (n : ℕ) → ReplySized (seen nobody request n)
nobody-ReplySized zero = record { res = refl; ak_xor_sqn = refl; ck = refl; ik = refl }
nobody-ReplySized (suc n) = nobody-ReplySized n

-- A host that writes another answer while RES is copied: after byte 3 each byte is 7.
abbrev rewrites : ℕ → ℕ → SharedData → SharedData
rewrites k i m = if ltb i 4 then m else record m { res = replicate 8 7 }

abbrev torn : Interference
torn = record { loads = nobody; copies = rewrites }

rewrites-ReplySized : (k i : ℕ) (m : SharedData) → ReplySized m → ReplySized (rewrites k i m)
rewrites-ReplySized k i m sized = elim (Bool-cases (ltb i 4)) [
  | inl early ↦ rw early sized
  | inr late ↦
      rw late (record { res = refl; ak_xor_sqn = sized.ak_xor_sqn; ck = sized.ck; ik = sized.ik })
]

torn-AreSized : (n : ℕ) → AreSized rewrites (seen nobody request n)
unfolding AreSized
torn-AreSized n k i = rewrites-ReplySized k i (seen nobody request n) (nobody-ReplySized n)

first_answer_example :
    (n : ℕ) × Ends nobody request 0 5 n
    × (log : List Line) × (gen_auth_res_milenage_vsim toy_srs torn usim memory challenge challenge
          zeros
          (replicate 6 5)
          (replicate 6 5)
          0
        ≡ some (taken_changing rewrites usim zeros (seen nobody request n) log))
first_answer_example =
    first_answer toy_srs usim usim-UsimSized challenge challenge refl refl torn memory zeros
      (replicate 6 5) (replicate 6 5) 0 refl refl memory-RequestSized (λ n ends. torn-AreSized n)
      (omega arith) refl

abbrev identity : List ℕ
identity = codes "001010123456789"

abbrev args : UsimArgs
args = record {
  imsi = identity;
  imei = identity;
  algo = codes "milenage";
  k = hex_text challenge;
  using_op = false;
  op = [];
  opc = hex_text zeros;
}

init_lem_example :
    (init toy_srs args mapped usim
      ≡ some (
        srsran_success,
        record usim {
          imsi_str = identity;
          imei_str = identity;
          shared_data = mapped;
          auth_algo = auth_algo_milenage;
          k = challenge;
          opc = zeros;
          imsi = 1010123456789;
          imei = 1010123456789;
          initiated = true;
          log = say "Shared memory for vSIM initialized successfully" ∷ [];
        },
      ))
    × (value_of 0 identity < 10 ^ 15)
    × (value_of 0 identity < 10 ^ 15)
init_lem_example =
    init_lem toy_srs args mapped usim challenge zeros usim-UsimSized refl refl
      (hex_text-IsHexOf challenge (omega arith)) refl (hex_text-IsHexOf zeros (omega arith)) refl
      refl (omega arith) refl (omega arith)

abbrev no_args : UsimArgs
no_args = record { imsi = []; imei = []; algo = []; k = []; using_op = false; op = []; opc = [] }

init_ignores_lengths_example :
    (u' : Usim) × (init toy_srs no_args mapped usim ≡ some (srsran_success, u'))
    × (u'.initiated ≡ true)
    × (u'.k ≡ challenge)
    × (u'.opc ≡ zeros)
    × (u'.imsi ≡ 0)
    × (u'.imei ≡ 0)
    × (u'.log
        ≡ length_error "Invalid length for IMEI: %zu should be %d" 0
          ∷ length_error "Invalid length for IMSI: %zu should be %d" 0
          ∷ length_error "Invalid length for OPc: %zu should be %d" 0
          ∷ length_error "Invalid length for K: %zu should be %d" 0
          ∷ say "Shared memory for vSIM initialized successfully"
          ∷ [])
init_ignores_lengths_example =
    init_ignores_lengths toy_srs no_args mapped usim refl refl (omega arith) (omega arith)
      (omega arith) (omega arith)
