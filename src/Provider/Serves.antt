-- ===== src/Provider/Serves.antt =====
-- The provider's side of the channel: what it answers to the enclave's request and attestation.
use disguise_pets.Base.{
  ℕ, ◌+◌, zero, suc, ◌-◌, ◌<◌, ◌≤◌, ◌≡◌, refl, arith, true, false, List, [], ◌∷◌, ◌++◌, some,
  length, length-append, length-drop, replicate, take, drop, ltb, ap, ◌∙◌, if◌then◌else◌,
}
use mathlib.Core.List.{append_assoc}
use disguise_pets.Channel.{SodiumLaws, dev_public_key, dev_secret_key, msg_blocksize, slice}
use disguise_pets.Channel.Buffers.{
  slice-front, write_front_lem, part-append, take-all, drop-front, length-write_front,
}
use disguise_pets.Hex.Laws.{hex_text}
use disguise_pets.Usim.Text.{same_text}
use disguise_pets.Provision.{provider_hash}
use disguise_pets.Provider.{
  Crypto, Server, Socket, ok, thrown, network_error, recv, send, generate_session_key, open_request,
  build_response, open_attestation, handle_connection, expected_hex, bytes_to_hex,
}
use disguise_pets.Provider.Hexadecimal.{bytes_to_hex_lem, hash_bytes}
use disguise_pets.Provider.Seals.{Acknowledges, build_ack_lem}

-- The front of a message and of what stands behind it.
pub take-append : (n : ℕ) (xs ys : List ℕ) → length xs ≡ n → take n (xs ++ ys) ≡ xs
take-append n xs ys e = part-append n 0 xs ys (omega arith) ∙ take-all n xs e

take-short : (n : ℕ) (xs : List ℕ) → length xs ≤ n → take n xs ≡ xs
take-short zero [] h = refl
take-short zero (x ∷ xs) h = absurd (omega arith)
take-short (suc n) [] h = refl
take-short (suc n) (x ∷ xs) h = ap (◌∷◌ x) (take-short n xs (omega arith))

recv_lem :
    (m : List ℕ) (rest : List (List ℕ)) (socket : Socket)
    → socket.inbox ≡ m ∷ rest
    → 0 < length m
    → length m ≤ 1024
    → recv socket ≡ ok (m, record socket { inbox = rest })
unfolding recv
recv_lem [] rest socket e pos le = absurd (omega arith)
recv_lem (c ∷ cs) rest socket e pos le =
    rw e (ap (λ l. ok (c ∷ l, record socket { inbox = rest })) (take-short 1023 cs (omega arith)))

send_lem :
    (m : List ℕ) (socket : Socket)
    → socket.sends ≡ true
    → send socket m ≡ ok (record socket { sent = m ∷ socket.sent })
unfolding send
send_lem m socket e =
    ap (λ b. if b then ok (record socket { sent = m ∷ socket.sent }) else thrown network_error) e

open_request_lem :
    (c : Crypto) (m nonce client_pk rest : List ℕ)
    → SodiumLaws c.sodium
    → c.sodium.box_seal_open m dev_public_key dev_secret_key ≡ some (nonce ++ client_pk)
    → length nonce ≡ 24
    → length client_pk ≡ 32
    → (buffer : List ℕ) × (open_request c (m ++ rest) (length m) ≡ ok (nonce, client_pk, buffer))
      × (length buffer ≡ length (m ++ rest))
unfolding open_request
open_request_lem c m nonce client_pk rest laws opens hn hp =
    let sized = laws.length-box_seal_open m dev_public_key dev_secret_key _ opens in
    let p = nonce ++ client_pk in
    let both : length p ≡ 56 = omega (arith, length-append nonce client_pk) in
    let long : ltb (length m) 40 ≡ false = ground (arith, sized, both) in
    let behind = drop (length p) (m ++ rest) in
    let room : length p ≤ length (m ++ rest) = omega (arith, sized, length-append m rest) in
    let second : take 32 (drop 24 p) ≡ client_pk =
      ap (take 32) (drop-front 24 nonce client_pk hn) ∙ take-all 32 client_pk hp in
    (
      p ++ behind,
      rw (long, take-append (length m) m rest refl)
          (rw opens (
            rw (write_front_lem p (m ++ rest) room) (
              rw
                (
                  slice-front 24 0 p behind (omega (arith, both)),
                  slice-front 32 24 p behind (omega (arith, both)),
                )
                (rw (take-append 24 nonce client_pk hn, second) refl)))),
      length-write_front p (m ++ rest) room,
    )

build_response_lem :
    (c : Crypto) (server : Server) (nonce m1 : List ℕ)
    → c.sodium.box_seal server.draws (nonce ++ provider_hash ++ server.server_pk) dev_public_key
      ≡ some m1
    → build_response c server nonce ≡ ok m1
unfolding build_response
build_response_lem c server nonce m1 seals = rw hash_bytes (rw seals refl)

-- An attestation of 168 bytes: whatever its plaintext is, the first 65 bytes are compared.
open_attestation_lem :
    (c : Crypto) (server : Server) (box nonce padded rest : List ℕ) (n : ℕ)
    → SodiumLaws c.sodium
    → length box ≡ 144
    → length nonce ≡ 24
    → c.sodium.secretbox_open box nonce server.session_rx ≡ some padded
    → c.sodium.unpad padded msg_blocksize ≡ some n
    → (buffer : List ℕ) × (open_attestation c server
          ((box ++ nonce) ++ rest)
          (length (box ++ nonce))
        ≡ ok (buffer, same_text (hex_text (take 65 padded)) expected_hex))
      × (length buffer ≡ length ((box ++ nonce) ++ rest))
unfolding open_attestation
open_attestation_lem c server box nonce padded rest n laws hb hn opens unpads =
    let m = box ++ nonce in
    let size : length m ≡ 168 = omega (arith, length-append box nonce) in
    let sized = laws.length-secretbox_open box nonce server.session_rx padded opens in
    let long : ltb (length m) 24 ≡ false = ground (arith, size) in
    let buffer = m ++ rest in
    let behind = drop (length padded) buffer in
    let room : length padded ≤ length buffer = omega (arith, length-append m rest) in
    let clen : length m - 24 ≡ 144 = omega arith in
    let tail : slice 24 144 buffer ≡ some nonce =
      slice-front 24 144 m rest (omega arith)
      ∙ ap (λ l. some (take 24 l)) (drop-front 144 box nonce hb)
      ∙ ap some (take-all 24 nonce hn) in
    let head : take 144 buffer ≡ box =
      ap (take 144) (append_assoc box nonce rest) ∙ take-append 144 box (nonce ++ rest) hb in
    let plain : slice 128 0 (padded ++ behind) ≡ some padded =
      slice-front 128 0 padded behind (omega arith) ∙ ap some (take-all 128 padded (omega arith)) in
    let text : bytes_to_hex (padded ++ behind) 65 ≡ some (hex_text (take 65 padded)) =
      bytes_to_hex_lem 65 (padded ++ behind) (omega (arith, length-append padded behind))
      ∙ ap (λ l. some (hex_text l)) (part-append 65 0 padded behind (omega arith)) in
    (
      padded ++ behind,
      rw (long, clen, head)
          (rw tail (
            rw opens
              (rw (write_front_lem padded buffer room) (rw plain (rw unpads (rw text refl)))))),
      length-write_front padded buffer room,
    )

-- A connection of the enclave: its request opens to a nonce and a key, its attestation is a box of
-- 144 bytes and a nonce, which opens under the session key to padded blocks, and libsodium's other
-- functions succeed.
pub record Exchange (c : Crypto) (server : Server) (socket : Socket) : Type 0 where
  pub request : List ℕ
  pub box : List ℕ
  pub quote_nonce : List ℕ
  pub rest : List (List ℕ)
  pub inbox : socket.inbox ≡ request ∷ (box ++ quote_nonce) ∷ rest
  pub sends : socket.sends ≡ true
  pub nonce : List ℕ
  pub client_pk : List ℕ
  pub opens :
      c.sodium.box_seal_open request dev_public_key dev_secret_key ≡ some (nonce ++ client_pk)
  pub nonce_size : length nonce ≡ 24
  pub client_pk_size : length client_pk ≡ 32
  pub rx : List ℕ
  pub tx : List ℕ
  pub session : c.kx_server_session_keys server.server_pk server.server_sk client_pk ≡ some (rx, tx)
  pub response : List ℕ
  pub seals :
      c.sodium.box_seal server.draws (nonce ++ provider_hash ++ server.server_pk) dev_public_key
      ≡ some response
  pub box_size : length box ≡ 144
  pub quote_nonce_size : length quote_nonce ≡ 24
  pub padded : List ℕ
  pub unpadded_len : ℕ
  pub quote_opens : c.sodium.secretbox_open box quote_nonce rx ≡ some padded
  pub quote_unpads : c.sodium.unpad padded msg_blocksize ≡ some unpadded_len
  pub boxes : (m nonce : List ℕ) → (box : List ℕ) × (c.sodium.secretbox m nonce tx ≡ some box)

-- With libsodium as documented, the provider answers such a connection with two messages, the sealed
-- response and an acknowledgement of 72 bytes that opens under the session key to Ack. The second is
-- sent whatever the attestation says: the comparison with the expected measurement only decides what
-- is printed.
pub handle_connection-Exchange :
    (c : Crypto) (server : Server) (socket : Socket)
    → SodiumLaws c.sodium
    → (x : Exchange c server socket)
    → (m : List ℕ) × (handle_connection c server socket
        ≡ ok (
          record server { session_rx = x.rx; session_tx = x.tx; draws = server.draws + 2 },
          record socket { inbox = x.rest; sent = m ∷ x.response ∷ socket.sent },
          same_text (hex_text (take 65 x.padded)) expected_hex,
        ))
      × Acknowledges c x.tx m
unfolding handle_connection generate_session_key
handle_connection-Exchange c server socket laws x =
    let m1 = x.request in
    let m2 = x.box ++ x.quote_nonce in
    let server' : Server = record server { session_rx = x.rx; session_tx = x.tx } in
    let sized = laws.length-box_seal_open m1 dev_public_key dev_secret_key _ x.opens in
    let h1 : length m1 ≡ 104 =
      omega (arith, sized, length-append x.nonce x.client_pk, x.nonce_size, x.client_pk_size) in
    let h2 : length m2 ≡ 168 =
      omega (arith, length-append x.box x.quote_nonce, x.box_size, x.quote_nonce_size) in
    let fresh : List ℕ = replicate 1024 0 in
    let zeros = drop (length m1) fresh in
    let l1 : length (m1 ++ zeros) ≡ 1024 =
      omega (arith, length-append m1 zeros, length-drop (length m1) fresh) in
    let (buffer, opened, lb) =
      open_request_lem c m1 x.nonce x.client_pk zeros laws x.opens x.nonce_size x.client_pk_size in
    let (buffer', attested, lb') =
      open_attestation_lem c server' x.box x.quote_nonce x.padded (drop (length m2) buffer)
        x.unpadded_len laws x.box_size x.quote_nonce_size x.quote_opens x.quote_unpads in
    let room : 72 ≤ length buffer' =
      omega (arith, lb', length-append m2 (drop (length m2) buffer), h2) in
    let (m, built, acknowledges) = build_ack_lem c server' buffer' laws room x.boxes in
    let whole : take 72 m ≡ m = take-all 72 m (
      ap length acknowledges.parts
      ∙ omega (
        arith,
        length-append acknowledges.box acknowledges.nonce,
        acknowledges.box_size,
        acknowledges.nonce_size,
      )) in
    (
      m,
      rw (recv_lem m1 (m2 ∷ x.rest) socket x.inbox (omega (arith, h1)) (omega (arith, h1)), opened)
          (rw x.session (
            rw (build_response_lem c server' x.nonce x.response x.seals) (
              rw (send_lem x.response (record socket { inbox = m2 ∷ x.rest }) x.sends) (
                rw
                  (recv_lem m2 x.rest
                    (record socket { inbox = m2 ∷ x.rest; sent = x.response ∷ socket.sent }) refl
                    (omega (arith, h2)) (omega (arith, h2)))
                  (rw attested (
                    rw (built, whole)
                      (rw
                        (send_lem m
                          (record socket { inbox = x.rest; sent = x.response ∷ socket.sent })
                          x.sends)
                        refl))))))),
      acknowledges,
    )
