-- ===== src/Provision/Response.antt =====
-- The provider's response is accepted exactly with the right nonce and the right quote.
use disguise_pets.Base.{
  ℕ, ◌+◌, ◌≤◌, ◌≡◌, ◌≢◌, arith, true, List, ◌∷◌, some, length, take, drop, length-take,
}
use disguise_pets.Base.Arrays.{elements}
use disguise_pets.Channel.{SodiumLaws, asymmetric_unbox, dev_public_key, dev_secret_key, give_up}
use disguise_pets.Channel.Buffers.{slice_lem, write_front_lem, slice-front}
use disguise_pets.Enclave.{World, ok, exit, codes, malloc, ocall, ocall_print_string}
use disguise_pets.Provision.{Platform, provider_hash, check, check_response, note_if_null}
use disguise_pets.Provision.Compare.{
  same_bytes-same, same_bytes-differ, memcmp-is_zero, memcmp-not_zero,
}
use disguise_pets.Report.Laws.{printed}

abbrev pub nonce_verified : List ℕ
nonce_verified = codes "[C] Nonce verified\n"

abbrev pub quote_verified : List ℕ
quote_verified = codes "[C] Provider Quote verified\n"

abbrev pub nonce_error : List ℕ
nonce_error = codes "[C] Error in Received Nonce\n"

abbrev pub quote_error : List ℕ
quote_error = codes "[C] Error in Received Quote\n"

-- The world after the block for the response was made.
abbrev pub after_block : World → World
after_block w = record w { allocations = w.allocations + 1 }

abbrev pub say : List ℕ → World → World
say line w = record w { sent = printed line ∷ w.sent }

-- If libsodium behaves as documented, there is memory, the message has at least 233 bytes, and its
-- first 233 open to r under the device's keys: with the nonce that was sent and the provider's
-- quote in r, the response is accepted, two lines are printed, and the provider's key is the last
-- 32 bytes of r; with a wrong quote, or with a wrong nonce, an error is printed and the program
-- ends with code 1.
pub check_response_lem :
    (p : Platform) (nonce data_copy r : List ℕ) (w : World)
    → SodiumLaws p.sodium
    → w.heap_ok w.allocations ≡ true
    → 233 ≤ length data_copy
    → p.sodium.box_seal_open (take 233 data_copy) dev_public_key dev_secret_key ≡ some r
    → let w' = after_block w in
      (nonce ≡ take 24 r
        → take 129 (drop 24 r) ≡ provider_hash
        → check_response p nonce data_copy w
          ≡ ok (take 32 (drop 153 r)) (say quote_verified (say nonce_verified w')))
      × (nonce ≡ take 24 r
          → take 129 (drop 24 r) ≢ provider_hash
          → check_response p nonce data_copy w ≡ exit 1 (say quote_error (say nonce_verified w')))
      × (nonce ≢ take 24 r → check_response p nonce data_copy w ≡ exit 1 (say nonce_error w'))
unfolding check_response asymmetric_unbox malloc note_if_null check give_up ocall_print_string ocall
check_response_lem p nonce data_copy r w laws memory size opened =
    let len : length r ≡ 185 =
      omega (arith, laws.length-box_seal_open _ _ _ r opened, length-take 233 data_copy) in
    let rest = drop (length r) (elements 1024 w.fresh) in
    let s0 = slice_lem 233 0 data_copy size in
    let room : length r ≤ 1024 = omega arith in
    let s1 = write_front_lem r (elements 1024 w.fresh) room in
    let s2 = slice-front 24 0 r rest (omega arith) in
    let s3 = slice-front 129 24 r rest (omega arith) in
    let s4 = slice-front 32 153 r rest (omega arith) in
    (
      λ same_nonce same_hash. rw memory (
          rw s0 (
            rw opened (
              rw s1 (
                rw (s2, memcmp-is_zero p.sodium laws nonce _ same_nonce)
                  (rw (s3, same_bytes-same _ _ same_hash) (rw s4)))))),
      λ same_nonce wrong_hash. rw memory (
          rw s0 (
            rw opened (
              rw s1 (
                rw (s2, memcmp-is_zero p.sodium laws nonce _ same_nonce)
                  (rw (s3, same_bytes-differ _ _ wrong_hash)))))),
      λ wrong_nonce.
          rw memory (
            rw s0 (rw opened (rw s1 (rw (s2, memcmp-not_zero p.sodium laws nonce _ wrong_nonce))))),
    )
