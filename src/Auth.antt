-- ===== src/Auth.antt =====
-- vsim/fpga-auth/eapp/fpga-auth.c: the enclave program that answers an authentication challenge.
pub mod Steps
pub mod Laws
mod Tests
use disguise_pets.Base.{
  ℕ, List, [], ◌∷◌, ◌++◌, Option, none, some, replicate, length, Bool, true, false, if◌then◌else◌,
}
use disguise_pets.Base.Arrays.{copy_at}
use disguise_pets.Milenage.{Aes, LibLteError, success}
use disguise_pets.Milenage.Answer.{AnswerLocals, Answer, gen_auth_res_milenage}
use disguise_pets.Enclave.{
  Cmd, pure, lift, eapp_return, codes, malloc, take_message, gettimeofday, ocall_print_string,
  ocall_wait_for_challenge, ocall_send_challenge_response, ◌>>=◌, ◌>>◌,
}
use disguise_pets.Timing.{elapsed}
use disguise_pets.Report.{report_delay}

-- The local arrays of eapp_entry that are not set to zeros, and those of gen_auth_res_milenage.
pub record EntryLocals : Type 0 where
  pub res_o : List ℕ
  pub ak_xor_sqn : List ℕ
  pub debug : List ℕ
  pub answer : AnswerLocals

abbrev pub zeros : List ℕ
zeros = replicate 16 0

-- memcpy(rand, data_copy, 16); memcpy(opc_o, data_copy + 16, 16); memcpy(autn_enb, data_copy + 32, 16);
-- and the answer to the challenge that the three arrays make.
pub parse_challenge : List ℕ → Cmd (List ℕ × List ℕ × List ℕ)
parse_challenge data_copy = do
  rand ← lift (copy_at 16 0 0 data_copy zeros)
  opc_o ← lift (copy_at 16 0 16 data_copy zeros)
  autn_enb ← lift (copy_at 16 0 32 data_copy zeros)
  pure (rand, opc_o, autn_enb)

is_success : LibLteError → Bool
is_success success = true
is_success _ = false

-- The reply: RES, SQN ⊕ AK, CK and IK, one behind the other. Without memory for it a line is printed,
-- and the writes go to NULL all the same.
pub build_reply : Answer → Option (List ℕ) → Cmd (List ℕ)
build_reply a none = do
  ocall_print_string (codes "Reply too large to allocate, no reply sent\n")
  lift none
build_reply a (some send_buffer) = do
  send_buffer ← lift (copy_at 8 0 0 a.res send_buffer)
  send_buffer ← lift (copy_at 6 8 0 a.ak_xor_sqn send_buffer)
  send_buffer ← lift (copy_at 16 14 0 a.ck send_buffer)
  lift (copy_at 16 30 0 a.ik send_buffer)

-- eapp_entry; the globals ck and ik are zeros when the program starts.
pub eapp_entry : Aes → EntryLocals → Cmd (Unit {0})
unfolding is_success
eapp_entry aes l = do
  m ← ocall_wait_for_challenge
  data_copy ← take_message m
  (rand, opc_o, autn_enb) ← parse_challenge data_copy
  delay_start ← gettimeofday
  a ← lift (gen_auth_res_milenage aes l.answer opc_o rand autn_enb l.res_o l.ak_xor_sqn zeros zeros)
  if is_success a.code then pure tt else ocall_print_string (codes "Error in f2345")
  delay_end ← gettimeofday
  debug ← report_delay (codes "MilliSecond: ") delay_start delay_end l.debug
  block ← malloc 92
  send_buffer ← build_reply a block
  ocall_send_challenge_response send_buffer 46
  eapp_return 0
