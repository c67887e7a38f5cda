-- ===== src/Provision/Honest.antt =====
-- The channel to an honest provider is set up.
use disguise_pets.Base.{
  ℕ, ◌+◌, ◌≤◌, ◌≡◌, refl, arith, false, true, List, ◌∷◌, some, length, take, drop, ap, ◌∙◌,
}
use disguise_pets.Base.Int.{pos, ltb_ℤ}
use disguise_pets.Channel.{
  Sodium, SodiumLaws, Keys, init, generate_session_keys, dev_public_key, dev_secret_key,
  msg_blocksize, ack,
}
use disguise_pets.Enclave.{
  World, ok, codes, malloc, ocall, ocall_print_string, ocall_wait_for_message, receive,
  take_message,
}
use disguise_pets.Provision.{
  Platform, ProvisionLocals, provider_hash, establish_secure_channel, send_request, send_quote,
  check_response, await_ack,
}
use disguise_pets.Provision.Acknowledge.{after_message, await_ack_lem}
use disguise_pets.Provision.Response.{
  after_block, say, nonce_verified, quote_verified, check_response_lem,
}
use disguise_pets.Provision.Stages.{Gives, init-Gives, send_request-Gives, send_quote-Gives}
use disguise_pets.Runtime.{Timeval}

-- Memory suffices, libsodium succeeds, the provider's response m1 holds the nonce, the quote and a key,
-- and its acknowledgement m2 authenticates under the session key and begins with Ack.
pub record Honest (p : Platform) (l : ProvisionLocals) (g : Keys) (w : World) : Type 0 where
  pub memory : (n : ℕ) → w.heap_ok n ≡ true
  pub starts : ltb_ℤ p.sodium.sodium_init (pos 0) ≡ false
  pub pk : List ℕ
  pub sk : List ℕ
  pub spk : List ℕ
  pub ssk : List ℕ
  pub kx : p.sodium.kx_keypair g.draws ≡ some (pk, sk)
  pub sign : p.sodium.sign_keypair (g.draws + 1) ≡ some (spk, ssk)
  pub pk_size : length pk ≡ 32
  pub buffer_size : 96 ≤ length l.send_buffer
  pub report_size : (nonce : List ℕ) → 96 ≤ length (p.attest_enclave nonce l.attestation_buffer)
  pub seals :
      (draw : ℕ) (m : List ℕ) → (c : List ℕ) × (p.sodium.box_seal draw m dev_public_key ≡ some c)
  pub boxes : (m nonce key : List ℕ) → (c : List ℕ) × (p.sodium.secretbox m nonce key ≡ some c)
  pub m1 : List ℕ
  pub m2 : List ℕ
  pub rest : List (List ℕ)
  pub inbox : w.inbox ≡ m1 ∷ m2 ∷ rest
  pub response_size : 233 ≤ length m1
  pub plain : List ℕ
  pub opens : p.sodium.box_seal_open (take 233 m1) dev_public_key dev_secret_key ≡ some plain
  pub same_nonce : p.sodium.randombytes_buf (g.draws + 2) 24 ≡ take 24 plain
  pub same_quote : take 129 (drop 24 plain) ≡ provider_hash
  pub rx : List ℕ
  pub tx : List ℕ
  pub session : p.sodium.kx_client_session_keys pk sk (take 32 (drop 153 plain)) ≡ some (rx, tx)
  pub ack_size : 72 ≤ length m2
  pub ack_fits : length m2 ≤ length m1
  pub padded : List ℕ
  pub unpadded : ℕ
  pub ack_opens : p.sodium.secretbox_open (take 48 m2) (take 24 (drop 48 m2)) rx ≡ some padded
  pub ack_unpads : p.sodium.unpad padded msg_blocksize ≡ some unpadded
  pub is_ack : take 8 padded ≡ ack

delivered :
    (w : World) (m : List ℕ) (rest : List (List ℕ))
    → w.inbox ≡ m ∷ rest
    → ocall_wait_for_message w ≡ ok m (after_message rest w)
unfolding ocall_wait_for_message receive ocall
delivered w m rest e = rw e refl

taken :
    (w : World) (m : List ℕ)
    → w.heap_ok w.allocations ≡ true
    → take_message m w ≡ ok m (after_block w)
unfolding take_message malloc
taken w m e = rw e refl

agreed :
    (s : Sodium) (g : Keys) (rx tx : List ℕ)
    → s.kx_client_session_keys g.server_pk g.server_sk g.client_pk ≡ some (rx, tx)
    → (generate_session_keys s g).1.rx ≡ rx
unfolding generate_session_keys
agreed s g rx tx e = rw (e, generate_session_keys) refl

-- With an honest provider, enough memory, a libsodium that behaves as documented and succeeds, and
-- buffers long enough, establish_secure_channel returns.
pub establish_secure_channel-Honest :
    (p : Platform) (l : ProvisionLocals) (g : Keys) (w : World)
    → SodiumLaws p.sodium
    → Honest p l g w
    → (times : Timeval × Timeval) × (w' : World) × (establish_secure_channel p l g w ≡ ok times w')
unfolding establish_secure_channel ocall_print_string ocall
establish_secure_channel-Honest p l g w laws h = (
  quote.value,
  after_message h.rest quote.world,
  rw made.run (
      rw request.run (
        rw (delivered request.world h.m1 _ first) (
          rw (taken w3 h.m1 (request.memory _))
            (rw checked (rw quote.run (rw acknowledged refl)))))),
)
  where
    made :
        Gives
          (λ g'. g' ≡ record g {
            server_pk = h.pk;
            server_sk = h.sk;
            server_spk = h.spk;
            server_ssk = h.ssk;
            draws = g.draws + 2;
          })
          (init p.sodium g)
          (say (codes "Initializing vSIM channel\n") w)
    made = init-Gives p.sodium g _ h.pk h.sk h.spk h.ssk h.memory h.starts h.kx h.sign

    g1 : Keys
    g1 = made.value

    request :
        Gives
          (λ x. (x.0 ≡ p.sodium.randombytes_buf g1.draws 24) × (length x.1 ≡ length l.send_buffer))
          (send_request p g1 l.send_buffer)
          made.world
    request =
        send_request-Gives p laws g1 l.send_buffer made.world made.memory h.buffer_size
          (ap (λ k. length k.server_pk) made.holds ∙ h.pk_size) (h.seals _)

    first : request.world.inbox ≡ h.m1 ∷ h.m2 ∷ h.rest
    first = request.same_inbox ∙ made.same_inbox ∙ h.inbox

    w3 : World
    w3 = after_message (h.m2 ∷ h.rest) request.world

    nonce : List ℕ
    nonce = request.value.0

    same_nonce : nonce ≡ take 24 h.plain
    same_nonce =
        request.holds.0 ∙ ap (λ k. p.sodium.randombytes_buf k.draws 24) made.holds ∙ h.same_nonce

    w4 : World
    w4 = say quote_verified (say nonce_verified (after_block (after_block w3)))

    checked : check_response p nonce h.m1 (after_block w3) ≡ ok (take 32 (drop 153 h.plain)) w4
    checked =
        (check_response_lem p nonce h.m1 h.plain (after_block w3) laws (request.memory _)
            h.response_size h.opens).0
          same_nonce h.same_quote

    g2 : Keys
    g2 = (generate_session_keys p.sodium (record g1 { client_pk = take 32 (drop 153 h.plain) })).1

    quote :
        Gives
          (λ t. Unit {0})
          (send_quote p g2 (g2.draws + 2) nonce request.value.1 l.attestation_buffer)
          w4
    quote =
        send_quote-Gives p laws g2 (g2.draws + 2) nonce request.value.1 l.attestation_buffer w4
          request.memory (omega (arith, request.holds.1, h.buffer_size)) (h.report_size nonce)
          (λ m n. h.boxes m n g2.tx)

    session_rx : g2.rx ≡ h.rx
    session_rx = agreed p.sodium _ h.rx h.tx (
        ap
          (λ k.
            p.sodium.kx_client_session_keys k.server_pk k.server_sk (take 32 (drop 153 h.plain)))
          made.holds
        ∙ h.session)

    acknowledged : await_ack p g2 h.m1 quote.world ≡ ok tt (after_message h.rest quote.world)
    acknowledged =
        (await_ack_lem p laws g2 h.m1 h.m2 h.rest quote.world quote.same_inbox h.ack_size h.ack_fits
            h.padded h.unpadded
            (ap (λ k. p.sodium.secretbox_open (take 48 h.m2) (take 24 (drop 48 h.m2)) k) session_rx
              ∙ h.ack_opens)
            h.ack_unpads).0
          h.is_ack
