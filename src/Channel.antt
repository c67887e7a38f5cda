-- ===== src/Channel.antt =====
-- vsim/fpga-provision/eapp/channel.c: the boxes in which the subscriber module and its provider talk.
-- libsodium is a parameter. A buffer is the list of its bytes, and an `Option` buffer is what malloc
-- returned: an access beyond a buffer, or through NULL, is undefined behaviour.
pub mod Buffers
pub mod Copy
pub mod RoundTrip
use disguise_pets.Base.{
  replicate, ℕ, ◌+◌, ◌-◌, ◌%◌, ◌^◌, ◌≡◌, ◌≤◌, ◌<◌, Bool, true, false, List, [], ◌∷◌, ◌++◌, Option,
  none, some, length, take, drop, leb, ◌==◌, if◌then◌else◌,
}
use disguise_pets.Base.Arrays.{copy_at}
use disguise_pets.Base.Int.{ℤ, pos, ltb_ℤ}
use disguise_pets.Enclave.{
  Cmd, pure, lift, eapp_return, codes, malloc, ocall_print_string, ◌>>=◌, ◌>>◌,
}
use disguise_pets.Hex.{fill_hex}
use disguise_pets.Runtime.{Started, started, exit, magic_random_init}

-- MSG_BLOCKSIZE and BLOCK_UP.
abbrev pub msg_blocksize : ℕ
msg_blocksize = 32

abbrev pub block_up : ℕ → ℕ
block_up len = len + (msg_blocksize - len % msg_blocksize)

-- What the program uses of libsodium. A function that returns 0 or -1 gives `some` of what it writes,
-- or `none`, and then it writes nothing. The draws of randomness are numbered.
pub record Sodium : Type 0 where
  pub sodium_init : ℤ
  pub kx_keypair : ℕ → Option (List ℕ × List ℕ)
  pub sign_keypair : ℕ → Option (List ℕ × List ℕ)
  pub kx_client_session_keys : (pk sk server_pk : List ℕ) → Option (List ℕ × List ℕ)
  pub randombytes_buf : (draw size : ℕ) → List ℕ
  pub pad : (buf : List ℕ) (unpadded_len blocksize max_len : ℕ) → Option (ℕ × List ℕ)
  pub unpad : (buf : List ℕ) (blocksize : ℕ) → Option ℕ
  pub secretbox : (m nonce key : List ℕ) → Option (List ℕ)
  pub secretbox_open : (c nonce key : List ℕ) → Option (List ℕ)
  pub box_seal : (draw : ℕ) (m pk : List ℕ) → Option (List ℕ)
  pub box_seal_open : (c pk sk : List ℕ) → Option (List ℕ)
  pub memcmp : List ℕ → List ℕ → ℤ

-- A padding into whole blocks that succeeds: the message stays in front, and its length comes back.
pub record Padded (s : Sodium) (buf : List ℕ) (n : ℕ) : Type 0 where
  pub buffer : List ℕ
  pub run : s.pad buf n msg_blocksize (block_up n) ≡ some (block_up n, buffer)
  pub same_length : length buffer ≡ length buf
  pub front : take n buffer ≡ take n buf
  pub unpads : s.unpad (take (block_up n) buffer) msg_blocksize ≡ some n

-- The documented behaviour: sizes, opening after sealing, unpadding after padding (into whole blocks,
-- with the message in front), and the comparison, which is 0 for equal arrays alone.
pub record SodiumLaws (s : Sodium) : Type 0 where
  pub length-randombytes_buf : (draw size : ℕ) → length (s.randombytes_buf draw size) ≡ size
  pub pad-Padded : (buf : List ℕ) (n : ℕ) → block_up n ≤ length buf → Padded s buf n
  pub length-secretbox :
      (m nonce key c : List ℕ) → s.secretbox m nonce key ≡ some c → length c ≡ 16 + length m
  pub secretbox_open-secretbox :
      (m nonce key c : List ℕ)
      → s.secretbox m nonce key ≡ some c
      → s.secretbox_open c nonce key ≡ some m
  pub length-secretbox_open :
      (c nonce key m : List ℕ) → s.secretbox_open c nonce key ≡ some m → 16 + length m ≡ length c
  pub length-box_seal :
      (draw : ℕ) (m pk c : List ℕ) → s.box_seal draw m pk ≡ some c → length c ≡ length m + 48
  pub length-box_seal_open :
      (c pk sk m : List ℕ) → s.box_seal_open c pk sk ≡ some m → length m + 48 ≡ length c
  pub memcmp-equal : (a : List ℕ) → s.memcmp a a ≡ pos 0
  pub memcmp-differs : (a b : List ℕ) → s.memcmp a b ≡ pos 0 → a ≡ b

-- The globals of channel.c, and the number of draws so far.
pub record Keys : Type 0 where
  pub server_pk : List ℕ
  pub server_sk : List ℕ
  pub server_spk : List ℕ
  pub server_ssk : List ℕ
  pub client_pk : List ℕ
  pub rx : List ℕ
  pub tx : List ℕ
  pub draws : ℕ

abbrev pub dev_public_key : List ℕ
dev_public_key =
    0xbd ∷ 0xcc ∷ 0xd0 ∷ 0x68 ∷ 0xf1 ∷ 0x47 ∷ 0x36 ∷ 0x4f ∷ 0xcd ∷ 0x39 ∷ 0x7a ∷ 0x7a ∷ 0x2c ∷ 0x54
    ∷ 0xb2 ∷ 0xc2 ∷ 0x51 ∷ 0xc3 ∷ 0xf0 ∷ 0xa4 ∷ 0x53 ∷ 0xa4 ∷ 0x5a ∷ 0x08 ∷ 0x02 ∷ 0xc7 ∷ 0x06
    ∷ 0xd8 ∷ 0x98 ∷ 0x62 ∷ 0x07 ∷ 0x6f ∷ []

abbrev pub dev_secret_key : List ℕ
dev_secret_key =
    0xd1 ∷ 0x2c ∷ 0x26 ∷ 0x1e ∷ 0x11 ∷ 0xed ∷ 0x5d ∷ 0xe4 ∷ 0x10 ∷ 0x5e ∷ 0x59 ∷ 0xf9 ∷ 0x7b ∷ 0x7d
    ∷ 0xc5 ∷ 0x09 ∷ 0xa2 ∷ 0xb0 ∷ 0x93 ∷ 0x22 ∷ 0x32 ∷ 0xc6 ∷ 0x45 ∷ 0x07 ∷ 0xea ∷ 0x18 ∷ 0xd5
    ∷ 0xc9 ∷ 0xe7 ∷ 0xbe ∷ 0x86 ∷ 0xfe ∷ []

-- Ack
abbrev pub ack : List ℕ
ack = 1 ∷ 0 ∷ 0 ∷ 0 ∷ 0 ∷ 0 ∷ 0 ∷ 0 ∷ []

-- The n bytes from `from` on, which the buffer must have.
abbrev pub slice : (n from : ℕ) → List ℕ → Option (List ℕ)
slice n from buf = if leb (from + n) (length buf) then some (take n (drop from buf)) else none

-- The bytes written at the front of a buffer that has room for them.
abbrev pub write_front : (bytes : List ℕ) → List ℕ → Option (List ℕ)
write_front bytes buf =
    if leb (length bytes) (length buf) then some (bytes ++ drop (length bytes) buf) else none

-- A line is printed, and the program ends with code 1.
unfoldable pub give_up : {A : Type 0} → List ℕ → Cmd A
give_up line = ocall_print_string line >> eapp_return 1

-- The program ends at once, with code 1.
unfoldable pub stop_if : Bool → Cmd (Unit {0})
stop_if true = eapp_return 1
stop_if false = pure tt

-- After magic_random_init.
unfoldable pub seeded : Started → Cmd (Unit {0})
seeded (started pool) = pure tt
seeded (exit code) = eapp_return code

module _ (s : Sodium) where
  -- init: what libsodium does with the entropy is its own.
  unfoldable pub init : Keys → Cmd Keys
  init g = do
    block ← malloc 512
    st ← lift (magic_random_init block)
    seeded st
    stop_if (ltb_ℤ s.sodium_init (pos 0))
    elim (s.kx_keypair g.draws) [
      | none ↦ eapp_return 1
      | some (pk, sk) ↦ elim (s.sign_keypair (g.draws + 1)) [
        | none ↦ eapp_return 1
        | some (spk, ssk) ↦ pure (record g {
          server_pk = pk;
          server_sk = sk;
          server_spk = spk;
          server_ssk = ssk;
          draws = g.draws + 2;
        })
      ]
    ]

  -- generate_session_keys: the result and the globals.
  unfoldable pub generate_session_keys : Keys → ℕ × Keys
  generate_session_keys g = elim (s.kx_client_session_keys g.server_pk g.server_sk g.client_pk) [
    | none ↦ (1, g)
    | some (rx, tx) ↦ (0, record g { rx = rx; tx = tx })
  ]

  -- channel_box: the padded message is encrypted in place, and the nonce is put behind it.
  unfoldable pub channel_box :
      (draw : ℕ) (msg : List ℕ) (len : ℕ) (buffer key : List ℕ) → Cmd (List ℕ)
  channel_box draw msg len buffer key = do
    buffer ← lift (copy_at len 0 0 msg buffer)
    elim (s.pad buffer len msg_blocksize (block_up len)) [
      | none ↦ give_up (codes "[C] Unable to pad message, exiting\n")
      | some (buf_padded_len, buffer) ↦ do
        buffer ← lift (copy_at 24 (16 + buf_padded_len) 0 (s.randombytes_buf draw 24) buffer)
        plain ← lift (slice buf_padded_len 0 buffer)
        elim (s.secretbox plain (s.randombytes_buf draw 24) key) [
          | none ↦ give_up (codes "[C] Unable to encrypt message, exiting\n")
          | some c ↦ lift (write_front c buffer)
        ]
    ]

  -- channel_unbox: the function is void, so its caller does not learn of a failure. The result is the
  -- buffer, and *datalen where it is written. The length of the plaintext is taken to be 32.
  unfoldable pub channel_unbox :
      (msg_buffer : List ℕ) (len : ℕ) (rx : List ℕ) → Cmd (List ℕ × Option ℕ)
  channel_unbox msg_buffer len rx = do
    let clen = (len + 2 ^ 64 - 24) % 2 ^ 64
    nonce ← lift (slice 24 clen msg_buffer)
    c ← lift (slice clen 0 msg_buffer)
    elim (s.secretbox_open c nonce rx) [
      | none ↦
          ocall_print_string (codes "[C] Invalid message, ignoring\n") >> pure (msg_buffer, none)
      | some m ↦ do
        msg_buffer ← lift (write_front m msg_buffer)
        padded ← lift (slice 32 0 msg_buffer)
        elim (s.unpad padded msg_blocksize) [
          | none ↦
              ocall_print_string (codes "[C] Invalid message padding, ignoring\n")
              >> pure (msg_buffer, none)
          | some n ↦ pure (msg_buffer, some n)
        ]
    ]

  -- asymmetric_box: hex_string, which takes the first 24 bytes of the key and is filled whole, is not
  -- printed.
  unfoldable pub asymmetric_box :
      (draw : ℕ) (msg : List ℕ) (len : ℕ) (buffer : Option (List ℕ)) (key : List ℕ) → Cmd (List ℕ)
  asymmetric_box draw msg len buffer key = do
    ocall_print_string (codes "Provider Pub key: \n")
    hex_string ← lift (fill_hex 24 key (replicate 49 0))
    m ← lift (slice len 0 msg)
    buffer ← lift buffer
    elim (s.box_seal draw m key) [
      | none ↦ give_up (codes "[C] Unable to encrypt message, exiting\n")
      | some c ↦ lift (write_front c buffer)
    ]

  -- asymmetric_unbox
  unfoldable pub asymmetric_unbox :
      (encrypted : List ℕ) (len : ℕ) (decrypted : Option (List ℕ)) → Cmd (List ℕ)
  asymmetric_unbox encrypted len decrypted = do
    c ← lift (slice len 0 encrypted)
    decrypted ← lift decrypted
    elim (s.box_seal_open c dev_public_key dev_secret_key) [
      | none ↦ give_up (codes "[C] Unable to decrypt message, exiting\n")
      | some m ↦ lift (write_front m decrypted)
    ]
