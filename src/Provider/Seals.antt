-- ===== src/Provider/Seals.antt =====
-- The provider's acknowledgement, which its peer opens.
use disguise_pets.Base.{
  ℕ, ◌+◌, ◌≤◌, ◌≡◌, refl, arith, true, List, [], ◌++◌, some, length, length-take, take,
}
use disguise_pets.Channel.{SodiumLaws, ack, msg_blocksize}
use disguise_pets.Channel.RoundTrip.{
  first_copy, nonce_copy, plain_part, sealed_in_place, cipher, nonce, plain, pads, length-cipher,
  length-nonce, message_front,
}
use disguise_pets.Enclave.{World}
use disguise_pets.Provider.{Crypto, Server, ok, build_ack}

-- The lemmas on a box are stated in a run of the enclave, which plays no part here.
abbrev quiet : World
quiet = record {
  inbox = [];
  sent = [];
  clock = λ n. 0;
  readings = 0;
  heap_ok = λ n. true;
  allocations = 0;
  fresh = λ n. 0;
}

-- An acknowledgement of 72 bytes: a box that opens under the session key to Ack, padded, and its nonce.
pub record Acknowledges (c : Crypto) (key m : List ℕ) : Type 0 where
  pub box : List ℕ
  pub nonce : List ℕ
  pub parts : m ≡ box ++ nonce
  pub box_size : length box ≡ 48
  pub nonce_size : length nonce ≡ 24
  pub padded : List ℕ
  pub opens : c.sodium.secretbox_open box nonce key ≡ some padded
  pub unpads : c.sodium.unpad padded msg_blocksize ≡ some 8
  pub is_ack : take 8 padded ≡ ack

pub build_ack_lem :
    (c : Crypto) (server : Server) (buffer : List ℕ)
    → SodiumLaws c.sodium
    → 72 ≤ length buffer
    → ((m nonce : List ℕ)
        → (box : List ℕ) × (c.sodium.secretbox m nonce server.session_tx ≡ some box))
    → (m : List ℕ) × (build_ack c server buffer ≡ ok m) × Acknowledges c server.session_tx m
unfolding build_ack
build_ack_lem c server buffer laws room seals =
    let s = c.sodium in
    let draw : ℕ = server.draws + 1 in
    let key = server.session_tx in
    let b = take 72 buffer in
    let size : length b ≡ 72 = omega (arith, length-take 72 buffer) in
    let box = cipher s laws draw ack 8 b key quiet (omega arith) size seals in
    let non = nonce s laws draw ack 8 b key quiet (omega arith) size seals in
    let pad = pads s laws draw ack 8 b key quiet (omega arith) size seals in
    let clear = plain s laws draw ack 8 b key quiet (omega arith) size seals in
    (
      box ++ non,
      rw (first_copy s laws draw ack 8 b key quiet (omega arith) size seals) (
          rw pad.run (
            rw (nonce_copy s laws draw ack 8 b key quiet (omega arith) size seals) (
              rw (plain_part s laws draw ack 8 b key quiet (omega arith) size seals) (
                rw (seals clear non).1 (
                  rw (sealed_in_place s laws draw ack 8 b key quiet (omega arith) size seals)
                    refl))))),
      record {
        box = box;
        nonce = non;
        parts = refl;
        box_size = length-cipher s laws draw ack 8 b key quiet (omega arith) size seals;
        nonce_size = length-nonce s laws draw ack 8 b key quiet (omega arith) size seals;
        padded = clear;
        opens = laws.secretbox_open-secretbox clear non key box (seals clear non).1;
        unpads = pad.unpads;
        is_ack = message_front s laws draw ack 8 b key quiet (omega arith) size seals (omega arith);
      },
    )
