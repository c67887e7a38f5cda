-- ===== src/Provision/Tests.antt =====
-- The channel and the provisioning with the toy library.
use disguise_pets.Base.{
  ℕ, ◌≡◌, ◌≢◌, refl, arith, true, List, [], ◌∷◌, ◌++◌, some, length, replicate, take, drop,
}
use disguise_pets.Channel.{
  Keys, channel_box, channel_unbox, ack, init, seeded, stop_if, asymmetric_box, asymmetric_unbox,
  generate_session_keys,
}
use disguise_pets.Channel.RoundTrip.{channel_unbox-channel_box}
use disguise_pets.Enclave.{
  World, ok, exit, codes, ocall, ocall_print_string, ocall_send_ra_req, ocall_wait_for_message,
  ocall_send_buffer, receive, take_message, malloc, gettimeofday,
}
use disguise_pets.Hex.{fill_hex, write_hex}
use disguise_pets.Provision.{
  Platform, ProvisionLocals, provider_hash, provision_entry, check_response, await_ack,
  establish_secure_channel, send_request, note_if_null, check, send_quote, overwrite, acknowledge,
}
use disguise_pets.Enclave.Laws.{world_or}
use disguise_pets.Provision.Response.{
  check_response_lem, after_block, say, nonce_verified, quote_verified, nonce_error, quote_error,
}
use disguise_pets.Provision.Acknowledge.{after_message, forged_ack_accepted, await_ack_lem}
use disguise_pets.Provision.Session.{Accepted, establish_secure_channel-Accepted}
use disguise_pets.Provision.Honest.{Honest, establish_secure_channel-Honest}
use disguise_pets.Provision.Entry.{IsDelay, begun, waited, provision_entry_lem}
use disguise_pets.Report.Laws.{Texts, AreTexts, printed, elapsed_reported}
use disguise_pets.Timing.Laws.{difference}
use disguise_pets.Provision.Toy.{toy_sodium, toy_sodium-SodiumLaws}
use disguise_pets.Runtime.{Timeval, magic_random_init, fill_entropy, timeval_of_cycles}

abbrev platform : Platform
platform = record { sodium = toy_sodium; attest_enclave = λ nonce buffer. buffer }

abbrev keys : Keys
keys = record {
  server_pk = replicate 32 0;
  server_sk = replicate 32 0;
  server_spk = replicate 32 0;
  server_ssk = replicate 64 0;
  client_pk = replicate 32 0;
  rx = replicate 32 0;
  tx = replicate 32 0;
  draws = 0;
}

abbrev world : List (List ℕ) → World
world inbox = record {
  inbox = inbox;
  sent = [];
  clock = λ n. 1000;
  readings = 0;
  heap_ok = λ n. true;
  allocations = 0;
  fresh = λ n. 9;
}

channel_unbox-channel_box_example :
    (box opened : List ℕ) × (channel_box toy_sodium 5 ack 8 (replicate 72 9) keys.tx (world [])
      ≡ ok box (world []))
    × (channel_unbox toy_sodium box 72 keys.tx (world []) ≡ ok (opened, some 8) (world []))
    × (take 8 opened ≡ take 8 ack)
    × (length box ≡ 72)
channel_unbox-channel_box_example =
    channel_unbox-channel_box toy_sodium toy_sodium-SodiumLaws 5 ack 8 (replicate 72 9) keys.tx
      (world []) (omega arith) refl (λ m nonce. (_, refl)) (omega arith)

-- The provider's nonce, quote and key, and the seal.
abbrev response_plain : ℕ → List ℕ
response_plain n = replicate 24 n ++ provider_hash ++ replicate 32 7

abbrev response : ℕ → List ℕ
response n = response_plain n ++ replicate 48 0

check_response_lem_example :
    let w = world [] in
    let w' = after_block w in
    let nonce : List ℕ = replicate 24 2 in
    let r = response_plain 2 in
    (nonce ≡ take 24 r
      → take 129 (drop 24 r) ≡ provider_hash
      → check_response platform nonce (response 2) w
        ≡ ok (take 32 (drop 153 r)) (say quote_verified (say nonce_verified w')))
    × (nonce ≡ take 24 r
        → take 129 (drop 24 r) ≢ provider_hash
        → check_response platform nonce (response 2) w
          ≡ exit 1 (say quote_error (say nonce_verified w')))
    × (nonce ≢ take 24 r
        → check_response platform nonce (response 2) w ≡ exit 1 (say nonce_error w'))
check_response_lem_example =
    check_response_lem platform (replicate 24 2) (response 2) (response_plain 2) (world [])
      toy_sodium-SodiumLaws refl (omega arith) refl

-- Ack, and bytes that no tag precedes.
abbrev forged : List ℕ
forged = ack ++ replicate 64 3

forged_ack_accepted_example :
    await_ack platform keys (response 2) (world (forged ∷ []))
    ≡ ok tt (say (codes "[C] Invalid message, ignoring\n") (after_message [] (world (forged ∷ []))))
forged_ack_accepted_example =
    forged_ack_accepted platform toy_sodium-SodiumLaws keys (response 2) forged []
      (world (forged ∷ [])) refl (omega arith) (omega arith) refl refl

-- Ack and its padding, the tag in front, the nonce behind.
abbrev padded_ack : List ℕ
padded_ack = ack ++ replicate 23 5 ++ 24 ∷ []

abbrev genuine : List ℕ
genuine = replicate 16 170 ++ padded_ack ++ replicate 24 6

await_ack_lem_example :
    let w = world (genuine ∷ []) in
    (take 8 padded_ack ≡ ack → await_ack platform keys (response 2) w ≡ ok tt (after_message [] w))
    × (take 8 padded_ack ≢ ack
        → await_ack platform keys (response 2) w
          ≡ exit 1 (say (codes "[C] Provider Didn't Acknowledge.\n") (after_message [] w)))
await_ack_lem_example =
    await_ack_lem platform toy_sodium-SodiumLaws keys (response 2) genuine [] (world (genuine ∷ []))
      refl (omega arith) (omega arith) padded_ack 8 refl refl

abbrev locals : ProvisionLocals
locals = record {
  send_buffer = replicate 1024 0;
  attestation_buffer = replicate 2048 4;
  debug = replicate 100 0;
  en_debug = replicate 100 0;
  delay_debug = replicate 100 0;
}

abbrev start_world : World
start_world = world (response 2 ∷ genuine ∷ [])

abbrev moment : Timeval
moment = record { tv_sec = 0; tv_usec = 10 }

abbrev last_world : World
last_world = world_or start_world (establish_secure_channel platform locals keys start_world)

established :
    establish_secure_channel platform locals keys start_world ≡ ok (moment, moment) last_world
unfolding establish_secure_channel init seeded stop_if send_request note_if_null asymmetric_box
    check_response asymmetric_unbox check generate_session_keys send_quote channel_box await_ack
    overwrite channel_unbox acknowledge magic_random_init fill_entropy ocall ocall_print_string
    ocall_send_ra_req ocall_wait_for_message ocall_send_buffer receive take_message malloc
    gettimeofday timeval_of_cycles fill_hex write_hex
established = refl

establish_secure_channel-Accepted_example :
    (m client_pk : List ℕ) × (rest : List (List ℕ)) × (response 2 ∷ genuine ∷ [] ≡ m ∷ rest)
    × Accepted platform (replicate 24 2) m client_pk
establish_secure_channel-Accepted_example =
    establish_secure_channel-Accepted platform locals keys (moment, moment) start_world last_world
      toy_sodium-SodiumLaws established

honest : Honest platform locals keys start_world
honest = record {
  memory = λ n. refl;
  starts = refl;
  pk = replicate 32 1;
  sk = replicate 32 2;
  spk = replicate 32 4;
  ssk = replicate 64 5;
  kx = refl;
  sign = refl;
  pk_size = refl;
  buffer_size = omega arith;
  report_size = λ nonce. omega arith;
  seals = λ draw m. (_, refl);
  boxes = λ m nonce key. (_, refl);
  m1 = response 2;
  m2 = genuine;
  rest = [];
  inbox = refl;
  response_size = omega arith;
  plain = response_plain 2;
  opens = refl;
  same_nonce = refl;
  same_quote = refl;
  rx = replicate 32 1;
  tx = replicate 32 2;
  session = refl;
  ack_size = omega arith;
  ack_fits = omega arith;
  padded = padded_ack;
  unpadded = 8;
  ack_opens = refl;
  ack_unpads = refl;
  is_ack = refl;
}

establish_secure_channel-Honest_example :
    (times : Timeval × Timeval) × (w' : World) × (establish_secure_channel platform locals keys
        start_world
      ≡ ok times w')
establish_secure_channel-Honest_example =
    establish_secure_channel-Honest platform locals keys start_world toy_sodium-SodiumLaws honest

abbrev ready_world : World
ready_world = record start_world {
  inbox = [];
  readings = 3;
  allocations = 5;
  sent =
      (world_or start_world
        (establish_secure_channel platform locals keys (begun start_world))).sent;
}

ready :
    establish_secure_channel platform locals keys (begun start_world)
    ≡ ok (moment, moment) ready_world
unfolding establish_secure_channel init seeded stop_if send_request note_if_null asymmetric_box
    check_response asymmetric_unbox check generate_session_keys send_quote channel_box await_ack
    overwrite channel_unbox acknowledge magic_random_init fill_entropy ocall ocall_print_string
    ocall_send_ra_req ocall_wait_for_message ocall_send_buffer receive take_message malloc
    gettimeofday timeval_of_cycles fill_hex write_hex
ready = refl

moment-IsDelay : IsDelay (timeval_of_cycles 1000) (timeval_of_cycles 1000)
unfolding timeval_of_cycles
moment-IsDelay = omega arith

moment-IsDelay' : IsDelay moment moment
moment-IsDelay' = omega arith

provision_entry_lem_example :
    (whole : Texts) × (attestation : Texts) × (wait : Texts) × (w' : World) × (provision_entry
        platform locals keys start_world
      ≡ exit 0 w')
    × AreTexts (difference (timeval_of_cycles 1000) (timeval_of_cycles 1000)) whole
    × AreTexts (difference moment moment) attestation
    × AreTexts (difference (timeval_of_cycles 1000) (timeval_of_cycles 1000)) wait
    × (w'.sent
        ≡ elapsed_reported (codes "Sleep test (should be ~12345ms): ") wait (
            waited
            ∷ elapsed_reported (codes "Milliseconds: ") attestation (
                printed (codes "Attestation Results: \n")
                ∷ elapsed_reported
                    (codes "Milliseconds: ")
                    whole
                    (printed (codes "Results: \n") ∷ ready_world.sent))))
provision_entry_lem_example =
    provision_entry_lem platform locals keys start_world ready_world moment moment ready
      moment-IsDelay moment-IsDelay' moment-IsDelay refl refl refl
