-- ===== src/AuthHost/Tests.antt =====
-- The host with the enclave on one request, with a toy cipher.
use disguise_pets.Base.{
  ℕ, ◌+◌, ◌*◌, ◌≡◌, ◌≤◌, zero, suc, none, refl, arith, true, List, [], ◌∷◌, take, replicate, some,
}
use disguise_pets.Milenage.Spec
use disguise_pets.Milenage.Functions.{length-res, length-ck, length-ik}
use disguise_pets.Milenage.Answer.{subscriber_key}
use disguise_pets.Milenage.Toy.{toy, zeros, challenge, answer_locals, answer_locals-AnswerSized}
use disguise_pets.Enclave.{World}
use disguise_pets.Auth.{EntryLocals}
use disguise_pets.Auth.Laws.{LocalsSized}
use disguise_pets.Shared.{SharedData, AuthData}
use disguise_pets.Usim.{Line}
use disguise_pets.Usim.Toy.{
  toy_srs, usim, usim-UsimSized, memory, memory-RequestSized, memory-ReplySized,
}
use disguise_pets.Usim.Vsim.{gen_auth_res_milenage_vsim}
use disguise_pets.Usim.Vsim.Answer.{
  RequestSized, ReplySized, requested, taken, write_request_lem, undisturbed,
}
use disguise_pets.AuthHost.{HostArrays, clear_flags, send_challenge_to_vsim}
use disguise_pets.AuthHost.Relay.{
  ArraysSized, arrays_of, taken_message, challenge_pass-pending, request_relayed,
}
use disguise_pets.AuthHost.Service.{Ready, store_reply}
use disguise_pets.AuthHost.EndToEnd.{serves_at, enclave_answers_first}
use disguise_pets.AuthHost.Protocol.{System, asks, takes, replies, Reach, starts, steps, Answers}
use disguise_pets.AuthHost.Protocol.Invariant.{ready_answers_newest}

abbrev entry : EntryLocals
entry = record {
  res_o = replicate 8 5;
  ak_xor_sqn = replicate 6 5;
  debug = replicate 100 5;
  answer = answer_locals;
}

entry-LocalsSized : LocalsSized entry
entry-LocalsSized = record {
  res_o = refl;
  ak_xor_sqn = refl;
  debug = refl;
  answer = answer_locals-AnswerSized;
}

abbrev world : World
world = record {
  inbox = [];
  sent = [];
  clock = λ n. 1000 * n + 100;
  readings = 0;
  heap_ok = λ n. true;
  allocations = 0;
  fresh = λ n. 9;
}

world-Ready : Ready world
world-Ready = record {
  copy_ok = refl;
  reply_ok = refl;
  early_start = omega arith;
  early_end = omega arith;
  forward = omega arith;
}

abbrev arrays : HostArrays
arrays = record { rand_bytes = zeros; opc_bytes = zeros; autenb_bytes = zeros }

arrays-ArraysSized : ArraysSized arrays
arrays-ArraysSized = record { rand_bytes = refl; opc_bytes = refl; autenb_bytes = refl }

abbrev E : List ℕ → List ℕ
E = toy.ecb_encrypt (toy.init_ctx subscriber_key)

enclave_answers_first_example :
    (m : SharedData) × (log : List Line) × (gen_auth_res_milenage_vsim toy_srs
        (undisturbed (serves_at toy entry world (replicate 48 0) arrays 2))
        usim
        memory
        challenge
        challenge
        zeros
        (replicate 6 5)
        (replicate 6 5)
        0
      ≡ some (taken usim zeros m log))
    × (m.res ≡ Spec.res E zeros challenge)
    × (m.ck ≡ Spec.ck E zeros challenge)
    × (m.ik ≡ Spec.ik E zeros challenge)
    × (m.ak_xor_sqn ≡ take 6 challenge)
enclave_answers_first_example =
    enclave_answers_first toy_srs toy entry world (replicate 48 0) arrays 2 usim memory challenge
      challenge zeros (replicate 6 5) (replicate 6 5) 0 entry-LocalsSized world-Ready refl
      arrays-ArraysSized usim-UsimSized memory-RequestSized memory-ReplySized (omega arith) refl
      refl refl refl refl (omega arith) refl

-- srsUE writes a request before the host's second pass.
abbrev request : SharedData
request = requested challenge zeros challenge memory

request-RequestSized : RequestSized request
request-RequestSized = record { rand_bytes = refl; opc_bytes = refl; autenb_bytes = refl }

abbrev writes_second : ℕ → SharedData → SharedData
writes_second zero s = s
writes_second (suc zero) s = requested challenge zeros challenge s
writes_second (suc (suc j)) s = s

not_first : (j : ℕ) → suc j ≤ 1 → writes_second j memory ≡ memory
not_first zero h = refl
not_first (suc j) h = absurd (omega arith)

request_relayed_example :
    send_challenge_to_vsim 5 0 writes_second (λ i. some (replicate 48 0)) arrays memory
    ≡ some (taken_message request)
request_relayed_example =
    request_relayed 1 3 writes_second (λ i. some (replicate 48 0)) (replicate 48 0) arrays memory
      refl not_first refl refl request-RequestSized arrays-ArraysSized refl refl

-- A request, the host's pass and the reply.
abbrev asked : System
asked = record { shared = request; arrays = arrays; given = []; busy = none }

abbrev busy : System
busy = record {
  shared = (taken_message request).shared;
  arrays = (taken_message request).arrays;
  given = request.auth_data ∷ [];
  busy = some request.auth_data;
}

abbrev answered : System
answered = record {
  shared = record busy.shared {
    res = Spec.res E zeros challenge;
    ak_xor_sqn = take 6 challenge;
    ck = Spec.ck E zeros challenge;
    ik = Spec.ik E zeros challenge;
    auth_response_ready = true;
  };
  arrays = arrays_of request;
  given = request.auth_data ∷ [];
  busy = none;
}

abbrev initial : System
initial = record { shared = memory; arrays = arrays; given = []; busy = none }

initial-Reach : Reach toy initial
unfolding clear_flags
initial-Reach = starts memory arrays memory-RequestSized memory-ReplySized arrays-ArraysSized

answered-Reach : Reach toy answered
answered-Reach =
    let written =
      write_request_lem challenge zeros challenge memory memory-RequestSized refl refl refl in
    let passed =
      challenge_pass-pending (replicate 48 0) arrays request refl refl request-RequestSized
        arrays-ArraysSized refl in
    let stored =
      store_reply _ _ _ _ busy.shared (length-res toy subscriber_key zeros challenge refl refl) refl
        (length-ck toy subscriber_key zeros challenge refl refl)
        (length-ik toy subscriber_key zeros challenge refl refl) busy-ReplySized in
    let r1 : Reach toy asked =
      steps initial asked initial-Reach
        (asks initial challenge zeros challenge request refl refl refl written) in
    let r2 : Reach toy busy =
      steps asked busy r1
        (takes asked (replicate 48 0) (taken_message request) refl refl refl refl passed) in
    steps busy answered r2 (replies busy request.auth_data answered.shared refl stored)
  where
    busy-ReplySized : ReplySized busy.shared
    busy-ReplySized = record { res = refl; ak_xor_sqn = refl; ck = refl; ik = refl }

ready_answers_newest_example :
    (d : AuthData) × (more : List AuthData) × (request.auth_data ∷ [] ≡ d ∷ more)
    × Answers toy answered.shared d
ready_answers_newest_example = ready_answers_newest toy answered answered-Reach refl
