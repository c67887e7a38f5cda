-- ===== src/AuthHost/Service.antt =====
-- The host and the enclave together: from a request in the shared memory to the answer there.
use disguise_pets.Base.{
  ℕ, ◌+◌, ◌≤◌, ◌≡◌, refl, arith, true, false, List, [], ◌∷◌, ◌++◌, take, drop, length,
  length-append, length-take, Option, none, some, ◌>>=◌, ◌==◌, if◌then◌else◌, ap, ◌∙◌,
}
use disguise_pets.Base.Arrays.{elements, by_elements, by_two_arrays}
use disguise_pets.Runtime.Clock.{IsEarly}
use disguise_pets.Milenage.{Aes}
use disguise_pets.Milenage.Spec
use disguise_pets.Milenage.Answer.{subscriber_key}
use disguise_pets.Milenage.Functions.{length-res, length-ck, length-ik}
use disguise_pets.Enclave.{
  World, Run, Event, ok, exit, fault, blocked, call_send_challenge_response,
}
use disguise_pets.Auth.{EntryLocals, eapp_entry}
use disguise_pets.Auth.Laws.{Serves, LocalsSized, eapp_entry_lem}
use disguise_pets.Shared.{SharedData, cmd_authenticate}
use disguise_pets.Usim.Vsim.Answer.{RequestSized, ReplySized}
use disguise_pets.AuthHost.{HostArrays, send_challenge_response, challenge_pass}
use disguise_pets.AuthHost.Relay.{ArraysSized, challenge_pass-pending, send_challenge_response_lem}

-- What a run that has ended gives the host last, if that is the reply to a challenge.
abbrev newest_reply : List Event → Option (List ℕ)
newest_reply [] = none
newest_reply (e ∷ more) = if e.call == call_send_challenge_response then some e.payload else none

abbrev pub reply_of : Run (Unit {0}) → Option (List ℕ)
reply_of (exit code w) = newest_reply w.sent
reply_of (ok a w) = none
reply_of fault = none
reply_of blocked = none

-- One service: the host takes the request, the enclave runs on it, and the host stores the reply.
pub serve :
    Aes
    → EntryLocals
    → World
    → (block : Option (List ℕ)) → HostArrays
    → SharedData
    → Option SharedData
serve aes l w block h s = do
  p ← challenge_pass block h s
  m ← p.message
  reply ← reply_of (eapp_entry aes l (record w { inbox = m ∷ [] }))
  send_challenge_response reply p.shared

-- The memory after a service: the answers of Milenage for the enclave's key.
abbrev pub served : Aes → SharedData → SharedData
served aes s =
    let E = aes.ecb_encrypt (aes.init_ctx subscriber_key) in
    let d = s.auth_data in
    record s {
      command_ready = false;
      auth_response_ready = true;
      res = Spec.res E d.opc_bytes d.rand_bytes;
      ak_xor_sqn = take 6 d.autenb_bytes;
      ck = Spec.ck E d.opc_bytes d.rand_bytes;
      ik = Spec.ik E d.opc_bytes d.rand_bytes;
    }

-- The parts of a message of three arrays, and of a reply of four.
AreThree : (r o a : List ℕ) → Type 0
AreThree r o a =
    (take 16 (r ++ o ++ a) ≡ r)
    × (take 16 (drop 16 (r ++ o ++ a)) ≡ o)
    × (take 16 (drop 32 (r ++ o ++ a)) ≡ a)

three_parts : (r o a : List ℕ) → length r ≡ 16 → length o ≡ 16 → length a ≡ 16 → AreThree r o a
unfolding AreThree
three_parts r o a hr ho ha =
    by_elements 16 (λ r. AreThree r o a)
      (λ f. by_two_arrays 16 16 (AreThree (elements 16 f)) (λ g h. (refl, refl, refl)) o a ho ha) r
      hr

AreFour : (r x c i : List ℕ) → Type 0
AreFour r x c i =
    (take 8 (r ++ x ++ c ++ i) ≡ r)
    × (take 6 (drop 8 (r ++ x ++ c ++ i)) ≡ x)
    × (take 16 (drop 14 (r ++ x ++ c ++ i)) ≡ c)
    × (take 16 (drop 30 (r ++ x ++ c ++ i)) ≡ i)

four_parts :
    (r x c i : List ℕ)
    → length r ≡ 8
    → length x ≡ 6
    → length c ≡ 16
    → length i ≡ 16
    → AreFour r x c i
unfolding AreFour
four_parts r x c i hr hx hc hi =
    by_two_arrays 8 6 (λ r x. AreFour r x c i)
      (λ f g.
        by_two_arrays 16 16 (AreFour (elements 8 f) (elements 6 g))
          (λ h k. (refl, refl, refl, refl)) c i hc hi)
      r x hr hx

-- The enclave's surroundings, whatever the message is.
pub record Ready (w : World) : Type 0 where
  pub copy_ok : w.heap_ok w.allocations ≡ true
  pub reply_ok : w.heap_ok (w.allocations + 1) ≡ true
  pub early_start : IsEarly (w.clock w.readings)
  pub early_end : IsEarly (w.clock (w.readings + 1))
  pub forward : w.clock w.readings ≤ w.clock (w.readings + 1)

-- The reply to a challenge of three arrays.
abbrev pub payload : Aes → (rand opc autn : List ℕ) → List ℕ
payload aes rand opc autn =
    let E = aes.ecb_encrypt (aes.init_ctx subscriber_key) in
    Spec.res E opc rand ++ take 6 autn ++ Spec.ck E opc rand ++ Spec.ik E opc rand

enclave_reply :
    (aes : Aes) (l : EntryLocals) (w : World) (m : List ℕ)
    → LocalsSized l
    → Ready w
    → 48 ≤ length m
    → reply_of (eapp_entry aes l (record w { inbox = m ∷ [] }))
      ≡ some (payload aes (take 16 m) (take 16 (drop 16 m)) (take 16 (drop 32 m)))
enclave_reply aes l w m sized ready hm =
    let serves : Serves (record w { inbox = m ∷ [] }) m = record {
      rest = [];
      inbox = refl;
      copy_ok = ready.copy_ok;
      reply_ok = ready.reply_ok;
      early_start = ready.early_start;
      early_end = ready.early_end;
      forward = ready.forward;
    } in
    let (t, w', run, texts, sent, size) =
      eapp_entry_lem aes l (record w { inbox = m ∷ [] }) m sized serves hm in
    ap reply_of run ∙ ap newest_reply sent

pub store_reply :
    (r x c i : List ℕ) (s : SharedData)
    → length r ≡ 8
    → length x ≡ 6
    → length c ≡ 16
    → length i ≡ 16
    → ReplySized s
    → send_challenge_response (r ++ x ++ c ++ i) s
      ≡ some (record s { res = r; ak_xor_sqn = x; ck = c; ik = i; auth_response_ready = true })
unfolding AreFour
store_reply r x c i s hr hx hc hi reply =
    let parts = four_parts r x c i hr hx hc hi in
    let size : 46 ≤ length (r ++ x ++ c ++ i) =
      omega (arith, length-append (r ++ x ++ c) i, length-append (r ++ x) c, length-append r x) in
    send_challenge_response_lem (r ++ x ++ c ++ i) s size reply
    ∙ rw (parts.0, parts.1, parts.2, parts.3) refl

-- A request of srsUE is served: if the host has memory for the message and the enclave runs as it
-- should, the shared memory then holds RES, CK and IK of Milenage for the enclave's key and the
-- request's OPc and RAND, and the first six bytes of the request's AUTN, with auth_response_ready set
-- and command_ready clear. The MAC of the request plays no part.
pub serve_lem :
    (aes : Aes) (l : EntryLocals) (w : World) (buffer : List ℕ) (h : HostArrays) (s : SharedData)
    → LocalsSized l
    → Ready w
    → length buffer ≡ 48
    → ArraysSized h
    → RequestSized s
    → ReplySized s
    → s.command_ready ≡ true
    → s.command_type ≡ cmd_authenticate
    → serve aes l w (some buffer) h s ≡ some (served aes s)
unfolding serve AreThree
serve_lem aes l w buffer h s sized ready hb arrays request reply pending command =
    let d = s.auth_data in
    let m = d.rand_bytes ++ d.opc_bytes ++ d.autenb_bytes in
    let hm : length m ≡ 48 = omega (
      arith,
      length-append (d.rand_bytes ++ d.opc_bytes) d.autenb_bytes,
      length-append d.rand_bytes d.opc_bytes,
      request.rand_bytes,
      request.opc_bytes,
      request.autenb_bytes,
    ) in
    let (first, second, third) =
      three_parts d.rand_bytes d.opc_bytes d.autenb_bytes request.rand_bytes request.opc_bytes
        request.autenb_bytes in
    let answered : reply_of (eapp_entry aes l (record w { inbox = m ∷ [] }))
        ≡ some (payload aes d.rand_bytes d.opc_bytes d.autenb_bytes) =
      let raw = enclave_reply aes l w m sized ready (omega (arith, hm)) in
      raw ∙ rw (first, second, third) refl in
    let h_rand = request.rand_bytes in
    let h_opc = request.opc_bytes in
    let stored =
      store_reply _ (take 6 d.autenb_bytes) _ _
        (record s { command_ready = false; auth_response_ready = false })
        (length-res aes subscriber_key d.opc_bytes d.rand_bytes h_opc h_rand)
        (omega (arith, length-take 6 d.autenb_bytes, request.autenb_bytes))
        (length-ck aes subscriber_key d.opc_bytes d.rand_bytes h_opc h_rand)
        (length-ik aes subscriber_key d.opc_bytes d.rand_bytes h_opc h_rand)
        (record { res = reply.res; ak_xor_sqn = reply.ak_xor_sqn; ck = reply.ck; ik = reply.ik }) in
    rw (challenge_pass-pending buffer h s pending command request arrays hb) (rw answered stored)
