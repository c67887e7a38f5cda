-- ===== src/Provision/Acknowledge.antt =====
-- What await_ack accepts as the provider's acknowledgement.
use disguise_pets.Base.{
  ℕ, ◌≤◌, ◌≡◌, ◌≢◌, refl, arith, true, List, [], ◌∷◌, ◌++◌, some, none, length, take, drop, leb, ap,
  ◌∙◌, length-take, length-append,
}
use disguise_pets.Channel.{SodiumLaws, Keys, channel_unbox, ack, slice, msg_blocksize, give_up}
use disguise_pets.Channel.Buffers.{write_front_lem, slice-front, take-all}
use disguise_pets.Enclave.{
  World, ok, exit, codes, ocall, ocall_print_string, ocall_wait_for_message, receive,
}
use disguise_pets.Provision.{Platform, await_ack, overwrite, acknowledge}
use disguise_pets.Provision.Compare.{memcmp-is_zero, memcmp-not_zero}
use disguise_pets.Provision.Response.{say}

-- After the wait for a message and its delivery.
abbrev pub after_message : List (List ℕ) → World → World
after_message rest w = record w { inbox = rest; sent = record { call = 2; payload = [] } ∷ w.sent }

-- The acknowledgement as the host puts it over the earlier message: ciphertext, then nonce.
module _ (p : Platform) (laws : SodiumLaws p.sodium) (g : Keys) (data_copy m : List ℕ)
    (rest : List (List ℕ)) (w : World) (next : w.inbox ≡ m ∷ rest) (long : 72 ≤ length m)
    (fits : length m ≤ length data_copy) where
  behind : List ℕ
  behind = drop (length m) data_copy

  overwrite_lem : overwrite m data_copy ≡ some (m ++ behind)
  unfolding overwrite behind
  overwrite_lem = let test : leb (length m) (length data_copy) ≡ true = ground arith in rw test refl

  nonce_part : slice 24 48 (m ++ behind) ≡ some (take 24 (drop 48 m))
  nonce_part = slice-front 24 48 m behind (omega arith)

  cipher_part : slice 48 0 (m ++ behind) ≡ some (take 48 m)
  cipher_part = slice-front 48 0 m behind (omega arith)

  -- With libsodium as documented, an acknowledgement that fails to authenticate is accepted if its
  -- ciphertext begins with the bytes of Ack: channel_unbox prints a line, leaves the message as it
  -- was, and reports nothing to its caller. The message has at least 72 bytes and fits the earlier
  -- one's block.
  pub forged_ack_accepted :
      p.sodium.secretbox_open (take 48 m) (take 24 (drop 48 m)) g.rx ≡ none
      → take 8 m ≡ ack
      → await_ack p g data_copy w
        ≡ ok tt (say (codes "[C] Invalid message, ignoring\n") (after_message rest w))
  unfolding await_ack channel_unbox ocall_wait_for_message receive ocall ocall_print_string
      acknowledge
  forged_ack_accepted fails front = rw next (
      rw overwrite_lem (
        rw nonce_part (
          rw cipher_part (
            rw fails (
              rw (
                slice-front 8 0 m behind (omega arith),
                memcmp-is_zero p.sodium laws (take 8 m) ack front,
              ))))))

  -- With libsodium as documented, an acknowledgement that opens under the session key rx to 32
  -- padded bytes is accepted exactly if they begin with the bytes of Ack; otherwise a line is
  -- printed and the program ends with code 1. The message has at least 72 bytes and fits the
  -- earlier one's block.
  pub await_ack_lem :
      (padded : List ℕ) (n : ℕ)
      → p.sodium.secretbox_open (take 48 m) (take 24 (drop 48 m)) g.rx ≡ some padded
      → p.sodium.unpad padded msg_blocksize ≡ some n
      → (take 8 padded ≡ ack → await_ack p g data_copy w ≡ ok tt (after_message rest w))
        × (take 8 padded ≢ ack
            → await_ack p g data_copy w
              ≡ exit 1 (say (codes "[C] Provider Didn't Acknowledge.\n") (after_message rest w)))
  unfolding await_ack channel_unbox ocall_wait_for_message receive ocall ocall_print_string
      acknowledge give_up
  await_ack_lem padded n opens unpads =
      let len : length padded ≡ 32 =
        omega (arith, laws.length-secretbox_open _ _ _ padded opens, length-take 48 m) in
      let tail = drop (length padded) (m ++ behind) in
      let w1 = write_front_lem padded (m ++ behind) (omega (arith, length-append m behind)) in
      let whole : slice 32 0 (padded ++ tail) ≡ some padded =
        slice-front 32 0 padded tail (omega arith) ∙ ap some (take-all 32 padded len) in
      let front = slice-front 8 0 padded tail (omega arith) in
      (
        λ same. rw next (
            rw overwrite_lem (
              rw nonce_part (
                rw cipher_part (
                  rw opens (
                    rw w1 (
                      rw whole (
                        rw unpads (
                          rw (front, memcmp-is_zero p.sodium laws (take 8 padded) ack same))))))))),
        λ differ. rw next (
            rw overwrite_lem (
              rw nonce_part (
                rw cipher_part (
                  rw opens (
                    rw w1 (
                      rw whole (
                        rw unpads (
                          rw (
                            front,
                            memcmp-not_zero p.sodium laws (take 8 padded) ack differ,
                          ))))))))),
      )
