-- ===== src/ProvisionHost/Tests.antt =====
-- The host of the provisioning enclave on a small machine: send takes two bytes at most, and a signal
-- interrupts its first call.
use disguise_pets.Base.{
  ℕ, zero, suc, ◌≡◌, ◌==◌, if◌then◌else◌, ◌≢◌, refl, arith, true, false, List, [], ◌∷◌, some,
  replicate, length-replicate,
}
use disguise_pets.Enclave.{Event}
use disguise_pets.AuthHost.Wrappers.{ok}
use disguise_pets.ProvisionHost.{
  SendResult, sent, interrupted, failed, Machine, Relay, sent_all, only_sent, called, send_buffer,
}
use disguise_pets.ProvisionHost.Wrappers.{Edge, handled, wait_for_message_wrapper}
use disguise_pets.ProvisionHost.Sending.{
  IsSend, Quiet, Stays, Transferred, notice_of, send_buffer_lem,
}
use disguise_pets.ProvisionHost.Receiving.{Allocates, wait_for_message_wrapper_lem}
use disguise_pets.ProvisionHost.Forward.{
  Serving, AreCalls, no_call, one_call, requests, sends, waits, serve_calls, serve_calls_lem,
  streamed,
}

abbrev sends_two : ℕ → List ℕ → SendResult
sends_two zero bytes = interrupted
sends_two (suc c) [] = sent 0
sends_two (suc c) (x ∷ []) = sent 1
sends_two (suc c) (x ∷ y ∷ more) = sent 2

abbrev machine : Machine
machine = record {
  connects = λ c. true;
  send = sends_two;
  read = λ c. some (7 ∷ 8 ∷ []);
  malloc = λ c n. some (replicate n 0);
}

abbrev edge : Edge
edge = record { setup_fails = false; setup_wrapped_fails = λ bytes. false }

abbrev host : Relay
host = record { wire = []; calls = 0; notices = [] }

machine-IsSend : IsSend machine
unfolding IsSend
machine-IsSend zero bytes k e = absurd (ground (arith, e))
machine-IsSend (suc c) [] k e = ground (arith, e)
machine-IsSend (suc c) (x ∷ []) k e = ground (arith, e)
machine-IsSend (suc c) (x ∷ y ∷ more) k e = ground (arith, e)

machine-Quiet : Quiet machine 1
unfolding Quiet
machine-Quiet zero bytes later e = absurd (omega arith)
machine-Quiet (suc c) [] later e = absurd (ground (arith, e))
machine-Quiet (suc c) (x ∷ []) later e = absurd (ground (arith, e))
machine-Quiet (suc c) (x ∷ y ∷ more) later e = absurd (ground (arith, e))

sends_on :
    (c x : ℕ) (bytes : List ℕ)
    → (sends_two c (x ∷ bytes) ≢ failed) × (sends_two c (x ∷ bytes) ≢ sent 0)
sends_on zero x bytes = (λ e. absurd (ground (arith, e)), λ e. absurd (ground (arith, e)))
sends_on (suc c) x [] = (λ e. absurd (ground (arith, e)), λ e. absurd (ground (arith, e)))
sends_on (suc c) x (y ∷ more) = (λ e. absurd (ground (arith, e)), λ e. absurd (ground (arith, e)))

machine-Stays : Stays machine
unfolding Stays
machine-Stays c [] some_left = absurd (omega arith)
machine-Stays c (x ∷ bytes) some_left = sends_on c x bytes

machine-Allocates : Allocates machine
machine-Allocates = record {
  block = λ c n. replicate n 0;
  gives = λ c n. refl;
  sized = λ c n. length-replicate n 0;
}

machine-Serving : Serving machine 1
machine-Serving = record {
  is_send = machine-IsSend;
  quiet = machine-Quiet;
  stays = machine-Stays;
  connects = λ c. refl;
  allocates = machine-Allocates;
}

sends_three :
    send_buffer 9 machine (1 ∷ 2 ∷ 3 ∷ []) host
    ≡ some (record { wire = 1 ∷ 2 ∷ 3 ∷ []; calls = 3; notices = sent_all 3 ∷ [] })
unfolding send_buffer
sends_three = refl

abbrev closing : Machine
closing = record machine { send = λ c bytes. if c == 0 then sent 1 else sent 0 }

closes_early :
    send_buffer 9 closing (1 ∷ 2 ∷ 3 ∷ []) host
    ≡ some (record { wire = 1 ∷ []; calls = 2; notices = only_sent 1 3 ∷ [] })
unfolding send_buffer
closes_early = refl

send_buffer_lem_example :
    (total : ℕ) × (h' : Relay) × (send_buffer 9 machine (1 ∷ 2 ∷ 3 ∷ []) host ≡ some h')
    × Transferred machine (1 ∷ 2 ∷ 3 ∷ []) [] total h'
    × (h'.notices ≡ notice_of total 3 ∷ [])
send_buffer_lem_example =
    send_buffer_lem 9 1 machine (1 ∷ 2 ∷ 3 ∷ []) host machine-IsSend machine-Quiet (omega arith)

wait_for_message_wrapper_lem_example :
    wait_for_message_wrapper machine edge (some []) host
    ≡ some (handled ok (some (7 ∷ 8 ∷ [])) (called (called host)))
wait_for_message_wrapper_lem_example =
    wait_for_message_wrapper_lem machine edge [] host machine-Allocates refl

abbrev calls : List Event
calls =
    record { call = 3; payload = 1 ∷ 2 ∷ 3 ∷ [] }
    ∷ record { call = 8; payload = [] }
    ∷ record { call = 5; payload = 4 ∷ [] }
    ∷ []

calls-AreCalls : AreCalls 4 calls
calls-AreCalls =
    one_call _ _ (requests (1 ∷ 2 ∷ 3 ∷ []) (omega arith))
      (one_call _ _ (waits []) (one_call _ _ (sends (4 ∷ []) (omega arith)) no_call))

serve_calls_lem_example :
    (h' : Relay) × (serve_calls 9 machine edge calls host ≡ some h')
    × (h'.wire ≡ 1 ∷ 2 ∷ 3 ∷ 4 ∷ [])
unfolding streamed
serve_calls_lem_example =
    serve_calls_lem 9 1 4 machine edge calls host machine-Serving (λ bytes. refl) (omega arith)
      calls-AreCalls
