-- ===== src/Channel/RoundTrip.antt =====
-- What channel_box makes, channel_unbox opens.
use disguise_pets.Base.{
  ℕ, ◌+◌, ◌<◌, ◌≤◌, ◌≡◌, refl, arith, List, [], ◌++◌, some, length, take, drop, ap, ◌∙◌, sym,
  length-append, length-take, length-drop, take-append-drop,
}
use mathlib.Core.List.{append-nil}
use disguise_pets.Base.Arrays.{copy_at}
use disguise_pets.Channel.{
  Sodium, SodiumLaws, Padded, channel_box, channel_unbox, slice, write_front, block_up,
  msg_blocksize,
}
use disguise_pets.Channel.Buffers.{
  slice_lem, write_front_lem, slice-front, take-all, drop-front, drop-none, take-take, part-append,
}
use disguise_pets.Channel.Copy.{copy_at_lem}
use disguise_pets.Enclave.{World, ok}

module _ (s : Sodium) (laws : SodiumLaws s) (draw : ℕ) (msg : List ℕ) (len : ℕ)
    (buffer key : List ℕ) (w : World) (whole : len ≤ length msg)
    (size : length buffer ≡ block_up len + 40)
    (seals : (m nonce : List ℕ) → (c : List ℕ) × (s.secretbox m nonce key ≡ some c)) where
  abbrev whole_blocks : ℕ
  whole_blocks = block_up len

  abbrev pub copied : List ℕ
  copied = take len msg ++ drop len buffer

  length-copied : length copied ≡ whole_blocks + 40
  length-copied = omega (
    arith,
    length-append (take len msg) (drop len buffer),
    length-take len msg,
    length-drop len buffer,
  )

  pub room : block_up len ≤ length copied
  room = omega (arith, length-copied)

  abbrev pub pads : Padded s copied len
  pads = laws.pad-Padded copied len room

  abbrev pub padded : List ℕ
  padded = pads.buffer

  length-padded : length padded ≡ whole_blocks + 40
  length-padded = pads.same_length ∙ length-copied

  abbrev pub nonce : List ℕ
  nonce = s.randombytes_buf draw 24

  pub length-nonce : length nonce ≡ 24
  length-nonce = laws.length-randombytes_buf draw 24

  abbrev pub plain : List ℕ
  plain = take whole_blocks padded

  pub length-plain : length plain ≡ whole_blocks
  length-plain = omega (arith, length-take whole_blocks padded, length-padded)

  abbrev pub cipher : List ℕ
  cipher = (seals plain nonce).0

  pub length-cipher : length cipher ≡ 16 + whole_blocks
  length-cipher =
      omega
        (arith, laws.length-secretbox plain nonce key cipher (seals plain nonce).1, length-plain)

  -- The message in the buffer.
  pub first_copy : copy_at len 0 0 msg buffer ≡ some copied
  first_copy = copy_at_lem len 0 0 msg [] buffer refl (omega arith) (omega arith)

  -- The nonce behind the place of the ciphertext.
  pub nonce_copy :
      copy_at 24 (16 + block_up len) 0 nonce padded
      ≡ some (take (16 + whole_blocks) padded ++ nonce)
  nonce_copy =
      ap (copy_at 24 (16 + whole_blocks) 0 nonce)
        (sym (take-append-drop (16 + whole_blocks) padded))
      ∙ copy_at_lem 24 (16 + whole_blocks) 0 nonce (take (16 + whole_blocks) padded)
          (drop (16 + whole_blocks) padded)
          (omega (arith, length-take (16 + whole_blocks) padded, length-padded))
          (omega (arith, length-nonce))
          (omega (arith, length-drop (16 + whole_blocks) padded, length-padded))
      ∙ rw
          (
            take-all 24 nonce length-nonce,
            drop-none 24 (drop (16 + whole_blocks) padded)
                (omega (arith, length-drop (16 + whole_blocks) padded, length-padded)),
          )
          (ap some (ap (λ l. take (16 + whole_blocks) padded ++ l) (append-nil nonce)))

  pub plain_part : slice (block_up len) 0 (take (16 + whole_blocks) padded ++ nonce) ≡ some plain
  plain_part =
      slice-front (block_up len) 0 (take (16 + whole_blocks) padded) nonce
        (omega (arith, length-take (16 + whole_blocks) padded, length-padded))
      ∙ ap some (take-take whole_blocks (16 + whole_blocks) padded (omega arith))

  pub sealed_in_place :
      write_front cipher (take (16 + whole_blocks) padded ++ nonce) ≡ some (cipher ++ nonce)
  sealed_in_place =
      write_front_lem cipher (take (16 + whole_blocks) padded ++ nonce) (
        omega (
          arith,
          length-append (take (16 + whole_blocks) padded) nonce,
          length-take (16 + whole_blocks) padded,
          length-padded,
          length-cipher,
        ))
      ∙ rw length-cipher (
          ap (λ l. some (cipher ++ l))
            (drop-front (16 + whole_blocks) (take (16 + whole_blocks) padded) nonce
              (omega (arith, length-take (16 + whole_blocks) padded, length-padded))))

  channel_box_lem : channel_box s draw msg len buffer key w ≡ ok (cipher ++ nonce) w
  unfolding channel_box
  channel_box_lem =
      rw first_copy (
        rw pads.run (rw nonce_copy (rw plain_part (rw (seals plain nonce).1 (rw sealed_in_place)))))

  -- The plaintext begins with the message.
  pub message_front : len ≤ whole_blocks → take len plain ≡ take len msg
  message_front le =
      take-take len whole_blocks padded le
      ∙ pads.front
      ∙ part-append len 0 (take len msg) (drop len buffer) (omega (arith, length-take len msg))
      ∙ take-take len len msg (omega arith)

  -- The box has 40 bytes more than the padded message.
  pub length-channel_box :
      (box : List ℕ) × (channel_box s draw msg len buffer key w ≡ ok box w)
      × (length box ≡ block_up len + 40)
  length-channel_box = (
    cipher ++ nonce,
    channel_box_lem,
    omega (arith, length-append cipher nonce, length-cipher, length-nonce),
  )

  module _ (short : len < 32) where
    one_block : block_up len ≡ 32
    one_block = omega arith

    abbrev behind : List ℕ
    behind = drop (length plain) (cipher ++ nonce)

    nonce_back : slice 24 48 (cipher ++ nonce) ≡ some nonce
    nonce_back =
        slice_lem 24 48 (cipher ++ nonce)
          (omega (arith, length-append cipher nonce, length-cipher, length-nonce))
        ∙ ap (λ l. some (take 24 l)) (drop-front 48 cipher nonce (omega (arith, length-cipher)))
        ∙ ap some (take-all 24 nonce length-nonce)

    cipher_back : slice 48 0 (cipher ++ nonce) ≡ some cipher
    cipher_back =
        slice-front 48 0 cipher nonce (omega (arith, length-cipher))
        ∙ ap some (take-all 48 cipher (omega (arith, length-cipher)))

    plain_written : write_front plain (cipher ++ nonce) ≡ some (plain ++ behind)
    plain_written =
        write_front_lem plain (cipher ++ nonce)
          (omega (arith, length-append cipher nonce, length-cipher, length-nonce, length-plain))

    plain_back : slice 32 0 (plain ++ behind) ≡ some plain
    plain_back =
        slice-front 32 0 plain behind (omega (arith, length-plain))
        ∙ ap some (take-all 32 plain (omega (arith, length-plain)))

    unpadded : s.unpad plain msg_blocksize ≡ some len
    unpadded = pads.unpads

    message_back : take len (plain ++ behind) ≡ take len msg
    message_back =
        part-append len 0 plain behind (omega (arith, length-plain)) ∙ message_front (omega arith)

    -- With libsodium as documented, and an encryption that succeeds, the box of a message of fewer
    -- than 32 bytes in a buffer of 40 bytes more than the padded message is 72 bytes: opened under
    -- its key it gives the message's length, and the message stands at the front of the buffer.
    pub channel_unbox-channel_box :
        (box opened : List ℕ) × (channel_box s draw msg len buffer key w ≡ ok box w)
        × (channel_unbox s box 72 key w ≡ ok (opened, some len) w)
        × (take len opened ≡ take len msg)
        × (length box ≡ 72)
    unfolding channel_unbox
    channel_unbox-channel_box = (
      cipher ++ nonce,
      plain ++ behind,
      channel_box_lem,
      rw nonce_back (
          rw cipher_back (
            rw (laws.secretbox_open-secretbox plain nonce key cipher (seals plain nonce).1)
              (rw plain_written (rw plain_back (rw unpadded))))),
      message_back,
      omega (arith, length-append cipher nonce, length-cipher, length-nonce),
    )
