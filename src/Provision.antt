-- ===== src/Provision.antt =====
-- vsim/fpga-provision/eapp/fpga-provision.c: the enclave program that sets up the channel to the
-- provider: it sends a nonce and its key, checks the provider's nonce and quote, sends its own
-- attestation under the session keys, and waits for the provider's acknowledgement.
pub mod Compare
pub mod Response
pub mod Acknowledge
pub mod Request
pub mod Session
pub mod Stages
pub mod Honest
pub mod Entry
pub mod Toy
mod Tests
use disguise_pets.Base.{
  ℕ, ◌+◌, ◌*◌, ◌/◌, ◌==◌, Bool, true, false, List, [], ◌∷◌, ◌++◌, Option, none, some, length, take,
  drop, leb, if◌then◌else◌, replicate,
}
use disguise_pets.Base.Arrays.{copy_at}
use disguise_pets.Base.Int.{ℤ, pos, negsuc}
use disguise_pets.Enclave.{
  Cmd, pure, lift, eapp_return, codes, malloc, take_message, gettimeofday, ocall_print_string,
  ocall_wait_for_message, ocall_send_ra_req, ocall_send_buffer, ocall_wait, ◌>>=◌, ◌>>◌,
}
use disguise_pets.Channel.{
  Sodium, Keys, init, generate_session_keys, channel_box, channel_unbox, asymmetric_box,
  asymmetric_unbox, dev_public_key, ack, slice, give_up,
}
use disguise_pets.Runtime.{Timeval}
use disguise_pets.Timing.{elapsed}
use disguise_pets.Report.{report_delay}

-- The array has 129 elements, so the last character of its text and the 0 are cut off.
abbrev pub provider_hash : List ℕ
provider_hash = take 129 (
    codes
      "6d835fbffebfefbdced9c7267bcb7011dc2665e3966d820e109ab9c831f35ba01bf5d57e15581479579adee91f1b3a1f76792e2162a64d833b717dd5ba53c7f218")

-- What is not under this repository: libsodium, and attest_enclave of the enclave runtime, which puts
-- a report on the nonce into a buffer.
pub record Platform : Type 0 where
  pub sodium : Sodium
  pub attest_enclave : (nonce buffer : List ℕ) → List ℕ

-- The local arrays, before they are written.
pub record ProvisionLocals : Type 0 where
  pub send_buffer : List ℕ
  pub attestation_buffer : List ℕ
  pub debug : List ℕ
  pub en_debug : List ℕ
  pub delay_debug : List ℕ

-- memcmp(a, b, n) == 0 for the n bytes of two arrays.
abbrev pub same_bytes : List ℕ → List ℕ → Bool
same_bytes [] [] = true
same_bytes (x ∷ xs) (y ∷ ys) = if x == y then same_bytes xs ys else false
same_bytes _ _ = false

-- sodium_memcmp(a, b, n) == 0
abbrev pub is_zero : ℤ → Bool
is_zero (pos n) = n == 0
is_zero (negsuc n) = false

-- if (block == NULL) ocall_print_string(line); the program goes on.
unfoldable pub note_if_null : Option (List ℕ) → List ℕ → Cmd (Unit {0})
note_if_null none line = ocall_print_string line
note_if_null (some block) line = pure tt

-- A check: one line if it holds, else another line and the end of the program.
unfoldable pub check : Bool → (passed failed : List ℕ) → Cmd (Unit {0})
check true passed failed = ocall_print_string passed
check false passed failed = give_up failed

-- The end of establish_secure_channel.
unfoldable pub acknowledge : Bool → Cmd (Unit {0})
acknowledge true = pure tt
acknowledge false = give_up (codes "[C] Provider Didn't Acknowledge.\n")

-- copy_from_shared(data_copy, resp.offset, resp.size) into the block that was made for another message.
unfoldable pub overwrite : (message data_copy : List ℕ) → Option (List ℕ)
overwrite message data_copy =
    if leb (length message) (length data_copy)
    then some (message ++ drop (length message) data_copy)
    else none

module _ (p : Platform) where
  open p use {sodium, attest_enclave}

  -- The request: nonce and server_pk, sealed under the device's own public key. The result is the nonce
  -- and send_buffer.
  unfoldable pub send_request : Keys → (send_buffer : List ℕ) → Cmd (List ℕ × List ℕ)
  send_request g send_buffer = do
    let nonce = sodium.randombytes_buf g.draws 24
    send_buffer ← lift (copy_at 24 0 0 nonce send_buffer)
    send_buffer ← lift (copy_at 32 24 0 g.server_pk send_buffer)
    block ← malloc 104
    note_if_null block (codes "Initiate Buff too large to allocate, no reply sent\n")
    initiate_buff ← asymmetric_box sodium (g.draws + 1) send_buffer 56 block dev_public_key
    ocall_send_ra_req initiate_buff 104
    pure (nonce, send_buffer)

  -- The provider's response: its nonce and its quote are compared, and its key is taken.
  -- `dest`, which the code fills after the comparisons, is not read. The result is client_pk.
  unfoldable pub check_response : (nonce data_copy : List ℕ) → Cmd (List ℕ)
  check_response nonce data_copy = do
    block ← malloc 1024
    note_if_null block (codes "Initiate Buff too large to allocate, no reply sent\n")
    response_buff ← asymmetric_unbox sodium data_copy 233 block
    received_nonce ← lift (slice 24 0 response_buff)
    check (is_zero (sodium.memcmp nonce received_nonce)) (codes "[C] Nonce verified\n")
        (codes "[C] Error in Received Nonce\n")
    received_hash ← lift (slice 129 24 response_buff)
    check (same_bytes received_hash provider_hash) (codes "[C] Provider Quote verified\n")
        (codes "[C] Error in Received Quote\n")
    lift (slice 32 153 response_buff)

  -- The attestation report under the session key tx; the result is en_start and en_end.
  unfoldable pub send_quote :
      Keys → (draw : ℕ) (nonce send_buffer attestation_buffer : List ℕ) → Cmd (Timeval × Timeval)
  send_quote g draw nonce send_buffer attestation_buffer = do
    block ← malloc 168
    note_if_null block (codes "Reply too large to allocate, no reply sent\n")
    en_start ← gettimeofday
    let attestation_buffer = attest_enclave nonce attestation_buffer
    en_end ← gettimeofday
    send_buffer ← lift (copy_at 96 0 0 attestation_buffer send_buffer)
    reply_buffer ← lift block
    reply_buffer ← channel_box sodium draw send_buffer 96 reply_buffer g.tx
    ocall_send_buffer reply_buffer 168
    pure (en_start, en_end)

  -- The acknowledgement.
  unfoldable pub await_ack : Keys → (data_copy : List ℕ) → Cmd (Unit {0})
  await_ack g data_copy = do
    m ← ocall_wait_for_message
    data_copy ← lift (overwrite m data_copy)
    (data_copy, ack_len) ← channel_unbox sodium data_copy 72 g.rx
    front ← lift (slice 8 0 data_copy)
    acknowledge (is_zero (sodium.memcmp front ack))

  -- establish_secure_channel: the result of generate_session_keys is not looked at.
  unfoldable pub establish_secure_channel : ProvisionLocals → Keys → Cmd (Timeval × Timeval)
  establish_secure_channel l g = do
    ocall_print_string (codes "Initializing vSIM channel\n")
    g ← init sodium g
    (nonce, send_buffer) ← send_request g l.send_buffer
    m ← ocall_wait_for_message
    data_copy ← take_message m
    client_pk ← check_response nonce data_copy
    let g = record g { client_pk = client_pk }
    let (failed, g) = generate_session_keys sodium g
    (en_start, en_end) ← send_quote g (g.draws + 2) nonce send_buffer l.attestation_buffer
    await_ack g data_copy
    pure (en_start, en_end)

  -- test_with_real_delay
  unfoldable pub test_with_real_delay : (debug : List ℕ) → Cmd (Unit {0})
  test_with_real_delay debug = do
    delay_start ← gettimeofday
    ocall_wait
    delay_end ← gettimeofday
    debug ← report_delay (codes "Sleep test (should be ~12345ms): ") delay_start delay_end debug
    pure tt

  -- eapp_entry; the globals of channel.c are zeros when the program starts.
  unfoldable pub provision_entry : ProvisionLocals → Keys → Cmd (Unit {0})
  provision_entry l g = do
    ocall_print_string (codes "Establishing Secure Channel with Provider\n")
    start ← gettimeofday
    (en_start, en_end) ← establish_secure_channel l g
    end ← gettimeofday
    ocall_print_string (codes "Results: \n")
    debug ← report_delay (codes "Milliseconds: ") start end l.debug
    ocall_print_string (codes "Attestation Results: \n")
    en_debug ← report_delay (codes "Milliseconds: ") en_start en_end l.en_debug
    test_with_real_delay l.delay_debug
    eapp_return 0

-- get_ms, and get_ms_gettimeofday, which repeats it.
unfoldable pub get_ms : Cmd ℕ
get_ms = do tv ← gettimeofday; pure (tv.tv_sec * 1000 + tv.tv_usec / 1000)
