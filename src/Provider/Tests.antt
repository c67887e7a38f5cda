-- ===== src/Provider/Tests.antt =====
-- The provider and the enclave with the toy library.
use disguise_pets.Base.{
  ℕ, ◌+◌, ◌-◌, ◌≡◌, refl, arith, true, false, List, [], ◌∷◌, ◌++◌, some, length, replicate, map,
  leb, length-append, ap, ◌∙◌, sym,
}
use disguise_pets.Channel.{Keys}
use disguise_pets.Enclave.{World}
use disguise_pets.Enclave
use disguise_pets.Runtime.{Timeval}
use disguise_pets.Provision.{ProvisionLocals, provider_hash, establish_secure_channel}
use disguise_pets.Provision.Toy.{toy_sodium, toy_sodium-SodiumLaws, toy_seal_open, some_inj}
use disguise_pets.Provider.{
  Crypto, Server, Socket, ok, bytes_to_hex, hex_to_bytes, handle_connection,
}
use disguise_pets.Provider.Hexadecimal.{hex_to_bytes-bytes_to_hex}
use disguise_pets.Provider.Serves.{Exchange, take-append}
use disguise_pets.Provider.Agreement.{Able, DevicePair, platform, channel_established}

hex_to_bytes-bytes_to_hex_example :
    (text : List ℕ) × (bytes_to_hex (0x0f ∷ 0xa9 ∷ []) 2 ≡ some text)
    × (hex_to_bytes text ≡ ok (0x0f ∷ 0xa9 ∷ []))
hex_to_bytes-bytes_to_hex_example = hex_to_bytes-bytes_to_hex (0x0f ∷ 0xa9 ∷ []) (omega arith)

abbrev crypto : Crypto
crypto = record {
  sodium = toy_sodium;
  kx_server_session_keys = λ pk sk client_pk. some (map (λ x. x + 1) client_pk, client_pk);
}

crypto-DevicePair : DevicePair toy_sodium
crypto-DevicePair draw m c e =
    let sealed : List ℕ = m ++ replicate 48 0 in
    let size : length sealed ≡ length m + 48 = length-append m (replicate 48 0) in
    let long : leb 48 (length sealed) ≡ true = ground (arith, size) in
    let count : length sealed - 48 ≡ length m = omega arith in
    ap toy_seal_open (sym (some_inj sealed c e))
    ∙ rw (long, count) (ap some (take-append (length m) m (replicate 48 0) refl))

abbrev zero_keys : Keys
zero_keys = record {
  server_pk = replicate 32 0;
  server_sk = replicate 32 0;
  server_spk = replicate 32 0;
  server_ssk = replicate 64 0;
  client_pk = replicate 32 0;
  rx = replicate 32 0;
  tx = replicate 32 0;
  draws = 0;
}

abbrev quiet : World
quiet = record {
  inbox = [];
  sent = [];
  clock = λ n. 1000;
  readings = 0;
  heap_ok = λ n. true;
  allocations = 0;
  fresh = λ n. 9;
}

abbrev locals : ProvisionLocals
locals = record {
  send_buffer = replicate 1024 0;
  attestation_buffer = replicate 2048 4;
  debug = replicate 100 0;
  en_debug = replicate 100 0;
  delay_debug = replicate 100 0;
}

abbrev same_report : (nonce buffer : List ℕ) → List ℕ
same_report nonce buffer = buffer

able : Able (platform crypto same_report) locals zero_keys quiet
able = record {
  memory = λ n. refl;
  starts = refl;
  pk = replicate 32 1;
  sk = replicate 32 2;
  spk = replicate 32 4;
  ssk = replicate 64 5;
  kx = refl;
  sign = refl;
  pk_size = refl;
  buffer_size = omega arith;
  report_size = λ nonce. omega arith;
  seals = λ draw m. (_, refl);
  boxes = λ m nonce key. (_, refl);
}

-- The provider, the enclave's nonce and key, sealed, and an attestation that is not the expected one.
abbrev server : Server
server = record {
  server_sk = replicate 32 8;
  server_pk = replicate 32 7;
  server_ssk = replicate 64 0;
  server_spk = replicate 32 0;
  session_rx = replicate 32 0;
  session_tx = replicate 32 0;
  draws = 40;
}

abbrev request : List ℕ
request = replicate 24 2 ++ replicate 32 1 ++ replicate 48 0

abbrev padded_quote : List ℕ
padded_quote = replicate 127 4 ++ 32 ∷ []

abbrev quote : List ℕ
quote = replicate 16 170 ++ padded_quote

abbrev response : List ℕ
response = replicate 24 2 ++ provider_hash ++ replicate 32 7 ++ replicate 48 0

abbrev socket : Socket
socket = record { inbox = request ∷ (quote ++ replicate 24 6) ∷ []; sends = true; sent = [] }

exchange : Exchange crypto server socket
exchange = record {
  request = request;
  box = quote;
  quote_nonce = replicate 24 6;
  rest = [];
  inbox = refl;
  sends = refl;
  nonce = replicate 24 2;
  client_pk = replicate 32 1;
  opens = refl;
  nonce_size = refl;
  client_pk_size = refl;
  rx = replicate 32 2;
  tx = replicate 32 1;
  session = refl;
  response = response;
  seals = refl;
  box_size = refl;
  quote_nonce_size = refl;
  padded = padded_quote;
  unpadded_len = 96;
  quote_opens = refl;
  quote_unpads = refl;
  boxes = λ m nonce. (_, refl);
}

channel_established_example :
    (m : List ℕ) × (handle_connection crypto server socket
      ≡ ok (
        record server {
          session_rx = replicate 32 2;
          session_tx = replicate 32 1;
          draws = server.draws + 2;
        },
        record socket { inbox = []; sent = m ∷ response ∷ [] },
        false,
      ))
    × (times : Timeval × Timeval) × (w' : World) × (establish_secure_channel
          (platform crypto same_report)
          locals
          zero_keys
          (record quiet { inbox = response ∷ m ∷ [] })
        ≡ Enclave.ok times w')
unfolding exchange able
channel_established_example =
    channel_established crypto same_report toy_sodium-SodiumLaws crypto-DevicePair locals zero_keys
      quiet server socket able exchange [] refl refl refl
