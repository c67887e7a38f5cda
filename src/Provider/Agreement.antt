-- ===== src/Provider/Agreement.antt =====
-- The provider and the enclave together: the channel is set up.
use disguise_pets.Base.{
  ℕ, ◌+◌, ◌≤◌, ◌≡◌, refl, arith, true, false, List, ◌∷◌, ◌++◌, some, length, length-append, take,
  drop, ap, ◌∙◌, sym,
}
use disguise_pets.Base.Int.{pos, ltb_ℤ}
use mathlib.Core.List.{append_assoc}
use disguise_pets.Channel.{Sodium, SodiumLaws, Keys, dev_public_key, dev_secret_key}
use disguise_pets.Channel.Buffers.{take-all, drop-front}
use disguise_pets.Enclave.{World}
use disguise_pets.Enclave
use disguise_pets.Runtime.{Timeval}
use disguise_pets.Hex.Laws.{hex_text}
use disguise_pets.Usim.Text.{same_text}
use disguise_pets.Provision.{Platform, ProvisionLocals, provider_hash, establish_secure_channel}
use disguise_pets.Provision.Honest.{Honest, establish_secure_channel-Honest}
use disguise_pets.Provider.{Crypto, Server, Socket, ok, handle_connection, expected_hex}
use disguise_pets.Provider.Seals.{Acknowledges}
use disguise_pets.Provider.Serves.{Exchange, handle_connection-Exchange, take-append}

-- The enclave can do its part: memory suffices, libsodium succeeds, and the buffers are long enough.
pub record Able (p : Platform) (l : ProvisionLocals) (g : Keys) (w : World) : Type 0 where
  pub memory : (n : ℕ) → w.heap_ok n ≡ true
  pub starts : ltb_ℤ p.sodium.sodium_init (pos 0) ≡ false
  pub pk : List ℕ
  pub sk : List ℕ
  pub spk : List ℕ
  pub ssk : List ℕ
  pub kx : p.sodium.kx_keypair g.draws ≡ some (pk, sk)
  pub sign : p.sodium.sign_keypair (g.draws + 1) ≡ some (spk, ssk)
  pub pk_size : length pk ≡ 32
  pub buffer_size : 96 ≤ length l.send_buffer
  pub report_size : (nonce : List ℕ) → 96 ≤ length (p.attest_enclave nonce l.attestation_buffer)
  pub seals :
      (draw : ℕ) (m : List ℕ) → (c : List ℕ) × (p.sodium.box_seal draw m dev_public_key ≡ some c)
  pub boxes : (m nonce key : List ℕ) → (c : List ℕ) × (p.sodium.secretbox m nonce key ≡ some c)

-- The development key pair belongs together: what is sealed for it opens with it.
abbrev pub DevicePair : Sodium → Type 0
DevicePair s =
    (draw : ℕ) (m c : List ℕ)
    → s.box_seal draw m dev_public_key ≡ some c
    → s.box_seal_open c dev_public_key dev_secret_key ≡ some m

-- The parts of the provider's response.
plain_parts :
    (nonce h pk : List ℕ)
    → length nonce ≡ 24
    → length h ≡ 129
    → length pk ≡ 32
    → (take 24 (nonce ++ h ++ pk) ≡ nonce)
      × (take 129 (drop 24 (nonce ++ h ++ pk)) ≡ h)
      × (take 32 (drop 153 (nonce ++ h ++ pk)) ≡ pk)
plain_parts nonce h pk hn hh hp = (
  ap (take 24) (append_assoc nonce h pk) ∙ take-append 24 nonce (h ++ pk) hn,
  ap (λ l. take 129 (drop 24 l)) (append_assoc nonce h pk)
      ∙ ap (take 129) (drop-front 24 nonce (h ++ pk) hn)
      ∙ take-append 129 h pk hh,
  ap (take 32) (drop-front 153 (nonce ++ h) pk (omega (arith, length-append nonce h)))
      ∙ take-all 32 pk hp,
)

-- What the enclave runs on, with the provider's libsodium.
abbrev pub platform : Crypto → (attest : (nonce buffer : List ℕ) → List ℕ) → Platform
platform c attest = record { sodium = c.sodium; attest_enclave = attest }

module _ (c : Crypto) (attest : (nonce buffer : List ℕ) → List ℕ) (laws : SodiumLaws c.sodium)
    (pair : DevicePair c.sodium) where
  Honest-of :
      (l : ProvisionLocals) (g : Keys) (w : World) (server : Server) (m1 m2 rx tx : List ℕ)
      → (able : Able (platform c attest) l g w) (rest : List (List ℕ))
      → length server.server_pk ≡ 32
      → c.sodium.box_seal server.draws
          (c.sodium.randombytes_buf (g.draws + 2) 24 ++ provider_hash ++ server.server_pk)
          dev_public_key
        ≡ some m1
      → c.sodium.kx_client_session_keys able.pk able.sk server.server_pk ≡ some (rx, tx)
      → Acknowledges c rx m2
      → Honest (platform c attest) l g (record w { inbox = m1 ∷ m2 ∷ rest })
  Honest-of l g w server m1 m2 rx tx able rest hp sealed session a =
      let nonce = c.sodium.randombytes_buf (g.draws + 2) 24 in
      let hn : length nonce ≡ 24 = laws.length-randombytes_buf (g.draws + 2) 24 in
      let plain = nonce ++ provider_hash ++ server.server_pk in
      let (first, second, third) = plain_parts nonce provider_hash server.server_pk hn refl hp in
      let size : length m1 ≡ 233 = omega (
        arith,
        laws.length-box_seal server.draws plain dev_public_key m1 sealed,
        length-append (nonce ++ provider_hash) server.server_pk,
        length-append nonce provider_hash,
      ) in
      let ack_size : length m2 ≡ 72 =
        ap length a.parts ∙ omega (arith, length-append a.box a.nonce, a.box_size, a.nonce_size) in
      let box_part : take 48 m2 ≡ a.box =
        ap (take 48) a.parts ∙ take-append 48 a.box a.nonce a.box_size in
      let nonce_part : take 24 (drop 48 m2) ≡ a.nonce =
        ap (λ l. take 24 (drop 48 l)) a.parts
        ∙ ap (take 24) (drop-front 48 a.box a.nonce a.box_size)
        ∙ take-all 24 a.nonce a.nonce_size in
      record {
        memory = able.memory;
        starts = able.starts;
        pk = able.pk;
        sk = able.sk;
        spk = able.spk;
        ssk = able.ssk;
        kx = able.kx;
        sign = able.sign;
        pk_size = able.pk_size;
        buffer_size = able.buffer_size;
        report_size = able.report_size;
        seals = able.seals;
        boxes = able.boxes;
        m1 = m1;
        m2 = m2;
        rest = rest;
        inbox = refl;
        response_size = omega arith;
        plain = plain;
        opens =
            ap (λ l. c.sodium.box_seal_open l dev_public_key dev_secret_key) (take-all 233 m1 size)
            ∙ pair server.draws plain m1 sealed;
        same_nonce = sym first;
        same_quote = second;
        rx = rx;
        tx = tx;
        session = ap (c.sodium.kx_client_session_keys able.pk able.sk) third ∙ session;
        ack_size = omega arith;
        ack_fits = omega arith;
        padded = a.padded;
        unpadded = 8;
        ack_opens = rw (box_part, nonce_part) a.opens;
        ack_unpads = a.unpads;
        is_ack = a.is_ack;
      }

  -- The enclave and the provider set the channel up together. With libsodium as documented and two key
  -- exchanges that agree, if the connection carries the enclave's nonce and key, and its attestation
  -- opens under the session key, handleConnection sends two messages and returns; and
  -- establish_secure_channel, to which the host delivers these two messages, returns too.
  pub channel_established :
      (l : ProvisionLocals) (g : Keys) (w : World) (server : Server) (socket : Socket)
      → (able : Able (platform c attest) l g w) (x : Exchange c server socket)
        (rest : List (List ℕ))
      → length server.server_pk ≡ 32
      → x.nonce ≡ c.sodium.randombytes_buf (g.draws + 2) 24
      → c.sodium.kx_client_session_keys able.pk able.sk server.server_pk ≡ some (x.tx, x.rx)
      → (m : List ℕ) × (handle_connection c server socket
          ≡ ok (
            record server { session_rx = x.rx; session_tx = x.tx; draws = server.draws + 2 },
            record socket { inbox = x.rest; sent = m ∷ x.response ∷ socket.sent },
            same_text (hex_text (take 65 x.padded)) expected_hex,
          ))
        × (times : Timeval × Timeval) × (w' : World) × (establish_secure_channel
              (platform c attest)
              l
              g
              (record w { inbox = x.response ∷ m ∷ rest })
            ≡ Enclave.ok times w')
  channel_established l g w server socket able x rest hp same session =
      let (m, served, a) = handle_connection-Exchange c server socket laws x in
      let sealed =
        ap
          (λ n.
            c.sodium.box_seal server.draws (n ++ provider_hash ++ server.server_pk) dev_public_key)
          (sym same)
        ∙ x.seals in
      let (times, w', run) =
        establish_secure_channel-Honest (platform c attest) l g
          (record w { inbox = x.response ∷ m ∷ rest }) laws
          (Honest-of l g w server x.response m x.tx x.rx able rest hp sealed session a) in
      (m, served, times, w', run)
