-- ===== src/Provider.antt =====
-- provider/provider.cpp: the provider's server, which answers the request of the provisioning enclave
-- and acknowledges its attestation. libsodium is a parameter. An exception is a value, and an access
-- beyond a buffer is undefined.
pub mod Hexadecimal
pub mod Seals
pub mod Serves
pub mod Agreement
mod Tests
use disguise_pets.Base.{
  ℕ, ◌+◌, ◌-◌, ◌*◌, ◌%◌, ◌/◌, Bool, true, false, List, [], ◌∷◌, ◌++◌, Option, none, some, length,
  take, drop, replicate, ltb, leb, ◌==◌, ◌&&◌, ◌||◌, if◌then◌else◌,
}
use disguise_pets.Base.Arrays.{copy_at, for_loop}
use disguise_pets.Enclave.{codes}
use disguise_pets.Channel.{
  Sodium, msg_blocksize, block_up, dev_public_key, dev_secret_key, ack, slice, write_front,
}
use disguise_pets.Usim.Text.{add_pair, same_text}

-- The exceptions that the code throws, and those of the library.
pub data Failure : Type 0 where
  network_error crypto_error runtime_error length_error invalid_argument : Failure

pub data Result (A : Type 0) : Type 0 where
  ok : A → Result A
  thrown : Failure → Result A
  undefined : Result A

infixl 5 ◌>>=◌
abbrev pub ◌>>=◌ : {A B : Type 0} → Result A → (A → Result B) → Result B
ok a >>= k = k a
thrown e >>= k = thrown e
undefined >>= k = undefined

-- A step on buffers, whose `none` is undefined behaviour, and a call that fails with an exception.
abbrev pub lift : {A : Type 0} → Option A → Result A
lift none = undefined
lift (some a) = ok a

abbrev pub or_throw : {A : Type 0} → Failure → Option A → Result A
or_throw e none = thrown e
or_throw e (some a) = ok a

-- bytesToHex
pub bytes_to_hex : (data_ : List ℕ) (len : ℕ) → Option (List ℕ)
bytes_to_hex data_ len = for_loop len 0 (add_pair data_) []

-- The value of a hexadecimal digit.
abbrev pub digit_value : ℕ → Option ℕ
digit_value c =
    if leb b'0' c && leb c b'9'
    then some (c - b'0')
    else (if leb b'a' c && leb c b'f'
        then some (c - b'a' + 10)
        else (if leb b'A' c && leb c b'F' then some (c - b'A' + 10) else none))

-- The digits at the front of a text of at most two characters.
abbrev pub leading_digits : List ℕ → Option ℕ
leading_digits [] = none
leading_digits (c ∷ cs) = elim (digit_value c) [
  | none ↦ none
  | some d ↦ elim cs [
    | [] ↦ some d
    | c' ∷ more ↦ elim (digit_value c') [ none ↦ some d | some d' ↦ some (d * 16 + d') ]
  ]
]

abbrev pub is_space : ℕ → Bool
is_space c = (c == 32) || (leb 9 c && leb c 13)

-- (unsigned char)std::stoi(text, nullptr, 16) for a text of one or two characters: white space and a
-- sign may stand before the digits, and without digits it throws.
abbrev pub stoi_byte : List ℕ → Option ℕ
stoi_byte [] = none
stoi_byte (c ∷ cs) =
    if is_space c
    then leading_digits cs
    else (if c == b'+'
        then leading_digits cs
        else (if c == b'-'
            then (elim (leading_digits cs) [ none ↦ none | some d ↦ some ((256 - d) % 256) ])
            else leading_digits (c ∷ cs)))

-- hexToBytes; handleConnection repeats the loop for its constant.
pub hex_to_bytes : List ℕ → Result (List ℕ)
hex_to_bytes [] = ok []
hex_to_bytes (c ∷ []) = do x ← or_throw invalid_argument (stoi_byte (c ∷ [])); ok (x ∷ [])
hex_to_bytes (a ∷ b ∷ cs) = do
  x ← or_throw invalid_argument (stoi_byte (a ∷ b ∷ []))
  bytes ← hex_to_bytes cs
  ok (x ∷ bytes)

-- The two constants of handleConnection.
abbrev pub hash : List ℕ
hash =
    codes
      "366438333566626666656266656662646365643963373236376263623730313164633236363565333936366438323065313039616239633833316633356261303162663564353765313535383134373935373961646565393166316233613166373637393265323136326136346438333362373137646435626135336337663231"

abbrev pub expected_hex : List ℕ
expected_hex =
    codes
      "240e875b996a9dd31461751fe0bed7686d20d9578bb0f3e64dfdd8c5c081679d4b25679715a52adcb0b9feb50a21cbd004c46323cceccdc86203aba06a2c089118"

-- libsodium's functions, those that the enclave uses too and the server's side of the key exchange.
pub record Crypto : Type 0 where
  pub sodium : Sodium
  pub kx_server_session_keys : (pk sk client_pk : List ℕ) → Option (List ℕ × List ℕ)

-- The members of the class, and the number of draws of randomness so far.
pub record Server : Type 0 where
  pub server_sk : List ℕ
  pub server_pk : List ℕ
  pub server_ssk : List ℕ
  pub server_spk : List ℕ
  pub session_rx : List ℕ
  pub session_tx : List ℕ
  pub draws : ℕ

-- The connection: what each call of recv delivers, no bytes for a result of 0 or -1; whether send
-- succeeds; and what was sent, newest first.
pub record Socket : Type 0 where
  pub inbox : List (List ℕ)
  pub sends : Bool
  pub sent : List (List ℕ)

-- At most 1024 bytes.
pub recv : Socket → Result (List ℕ × Socket)
recv socket = elim socket.inbox [
  | [] ↦ thrown network_error
  | m ∷ rest ↦ elim m [
    | [] ↦ thrown network_error
    | c ∷ cs ↦ ok (take 1024 (c ∷ cs), record socket { inbox = rest })
  ]
]

pub send : Socket → List ℕ → Result Socket
send socket m =
    if socket.sends then ok (record socket { sent = m ∷ socket.sent }) else thrown network_error

module _ (c : Crypto) where
  open c use {sodium, kx_server_session_keys}

  -- generateKeypair
  pub generate_keypair : Server → Result Server
  generate_keypair server = do
    (pk, sk) ← or_throw crypto_error (sodium.kx_keypair server.draws)
    (spk, ssk) ← or_throw crypto_error (sodium.sign_keypair (server.draws + 1))
    ok (record server {
      server_pk = pk;
      server_sk = sk;
      server_spk = spk;
      server_ssk = ssk;
      draws = server.draws + 2;
    })

  -- generateSessionKey
  pub generate_session_key : Server → (client_pk : List ℕ) → Result Server
  generate_session_key server client_pk = do
    (rx, tx) ←
        or_throw crypto_error (kx_server_session_keys server.server_pk server.server_sk client_pk)
    ok (record server { session_rx = rx; session_tx = tx })

  -- The request: its nonce, the client's key, and the buffer. Fewer than 40 bytes make the size of the
  -- vector `decrypted` wrap around.
  pub open_request : (buffer : List ℕ) (bytes_received : ℕ) → Result (List ℕ × List ℕ × List ℕ)
  open_request buffer bytes_received = if ltb bytes_received 40 then thrown length_error else (do
    m ←
        or_throw crypto_error
          (sodium.box_seal_open (take bytes_received buffer) dev_public_key dev_secret_key)
    buffer ← lift (write_front m buffer)
    nonce ← lift (slice 24 0 buffer)
    client_pk ← lift (slice 32 24 buffer)
    ok (nonce, client_pk, buffer))

  -- The response: nonce, hash and server key, sealed.
  pub build_response : Server → (nonce : List ℕ) → Result (List ℕ)
  build_response server nonce = do
    hash_bytes ← hex_to_bytes hash
    or_throw runtime_error
        (sodium.box_seal server.draws (nonce ++ hash_bytes ++ server.server_pk) dev_public_key)

  -- The attestation: the buffer with the plaintext, and whether its first 65 bytes are the expected
  -- ones.
  pub open_attestation : Server → (buffer : List ℕ) (bytes_received : ℕ) → Result (List ℕ × Bool)
  open_attestation server buffer bytes_received = if ltb bytes_received 24 then undefined else (do
    let clen : ℕ = bytes_received - 24
    nonce ← lift (slice 24 clen buffer)
    m ← or_throw crypto_error (sodium.secretbox_open (take clen buffer) nonce server.session_rx)
    buffer ← lift (write_front m buffer)
    padded ← lift (slice 128 0 buffer)
    unpadded_len ← or_throw crypto_error (sodium.unpad padded msg_blocksize)
    actual_hex ← lift (bytes_to_hex buffer (length expected_hex / 2))
    ok (buffer, same_text actual_hex expected_hex))

  -- The acknowledgement in the buffer, which is cut to 72 bytes.
  pub build_ack : Server → (buffer : List ℕ) → Result (List ℕ)
  build_ack server buffer = do
    buffer ← lift (copy_at 8 0 0 ack (take 72 buffer))
    (buf_padded_len, buffer) ←
        or_throw runtime_error (sodium.pad buffer 8 msg_blocksize (block_up 8))
    let nonce : List ℕ = sodium.randombytes_buf (server.draws + 1) 24
    buffer ← lift (copy_at 24 (16 + buf_padded_len) 0 nonce buffer)
    plain ← lift (slice buf_padded_len 0 buffer)
    c ← or_throw runtime_error (sodium.secretbox plain nonce server.session_tx)
    lift (write_front c buffer)

  -- handleConnection: the class and the connection afterwards, and whether the attestation was the
  -- expected one. The acknowledgement is sent in both cases.
  pub handle_connection : Server → Socket → Result (Server × Socket × Bool)
  handle_connection server socket = do
    (m, socket) ← recv socket
    (nonce, client_pk, buffer) ← open_request (m ++ drop (length m) (replicate 1024 0)) (length m)
    server ← generate_session_key server client_pk
    response ← build_response server nonce
    socket ← send socket response
    (m, socket) ← recv socket
    (buffer, verified) ← open_attestation server (m ++ drop (length m) buffer) (length m)
    message ← build_ack server buffer
    socket ← send socket (take 72 message)
    ok (record server { draws = server.draws + 2 }, socket, verified)
