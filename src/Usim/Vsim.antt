-- ===== src/Usim/Vsim.antt =====
-- gen_auth_res_milenage_vsim of srsue/usim.cc: the first challenge goes to the enclave through the
-- shared memory, each later one to srsUE's own Milenage.
pub mod Polls
pub mod Changing
pub mod Answer
pub mod Laws
pub mod Later
pub mod Stale
use disguise_pets.Base.{
  ℕ, suc, zero, ◌+◌, Bool, true, false, List, ◌∷◌, Option, some, get_elem?, replicate, ◌>>=◌,
  if◌then◌else◌,
}
use disguise_pets.Base.Arrays.{copy_at, for_loop, put}
use disguise_pets.Shared.{SharedData, AuthData, cmd_authenticate}
use disguise_pets.Usim.{
  Usim, SrsRan, Line, say, Mapping, null, map_failed, mapped, auth_ok, auth_failed,
}
use disguise_pets.Usim.Text.{log_hex}
use disguise_pets.Usim.Standard.{Outcome, gen_auth_res_milenage}

-- What the other processes do to the shared memory before each load of auth_response_ready.
abbrev pub Others : Type 0
Others = ℕ → SharedData → SharedData

-- What they do to it in a call: before each load, and between the last load and the moment at which
-- the copy k of the answer reads its byte i. The copies are not atomic, and no lock holds the others off.
pub record Interference : Type 0 where
  pub loads : Others
  pub copies : ℕ → ℕ → SharedData → SharedData

-- The call's outcome and the shared memory afterwards.
pub record VsimOutcome : Type 0 where
  pub outcome : Outcome
  pub shared : SharedData

-- The three copies, the command and the flag.
pub write_request : (rand opc autn_enb : List ℕ) → SharedData → Option SharedData
write_request rand opc autn_enb s = do
  r ← copy_at 16 0 0 rand s.auth_data.rand_bytes
  o ← copy_at 16 0 0 opc s.auth_data.opc_bytes
  a ← copy_at 16 0 0 autn_enb s.auth_data.autenb_bytes
  some (record s {
    auth_data = record { rand_bytes = r; opc_bytes = o; autenb_bytes = a };
    command_type = cmd_authenticate;
    command_ready = true;
  })

-- while (!auth_response_ready && wait_time < TIMEOUT_SECONDS) { usleep(400000); wait_time++; } with
-- TIMEOUT_SECONDS - wait_time waits left: the memory as the last load finds it, and the log.
pub poll : (left wait_time : ℕ) → Others → SharedData → List Line → SharedData × List Line
poll zero wait_time others s log = (others wait_time s, log)
poll (suc left) wait_time others s log =
    let seen = others wait_time s in
    let rest = poll left (wait_time + 1) others seen (say "Waiting..." ∷ log) in
    if seen.auth_response_ready then (seen, log) else rest

-- A copy of n bytes out of an array that changes: byte i is read from the array of that moment.
unfoldable pub copy_changing : (n : ℕ) (arrays : ℕ → List ℕ) (dst : List ℕ) → Option (List ℕ)
copy_changing n arrays dst = for_loop n 0 (λ i dst. do x ← get_elem? (arrays i) i; put dst i x) dst

-- The answer in the shared memory, copied; no test of the flag precedes the copies, or follows them. The
-- memory at the last load is s.
pub read_answer :
    (copies : ℕ → ℕ → SharedData → SharedData)
    → Usim
    → (res ak_xor_sqn : List ℕ) → SharedData
    → List Line
    → Option VsimOutcome
unfolding copy_changing
read_answer copies u res ak_xor_sqn s log = do
  shown ← copy_changing 6 (λ i. (copies 0 i s).ak_xor_sqn) (replicate 6 0)
  log ← log_hex "ak_xor_sqn (hex): %s" 6 shown log
  res ← copy_changing 8 (λ i. (copies 1 i s).res) res
  ak_xor_sqn ← copy_changing 6 (λ i. (copies 2 i s).ak_xor_sqn) ak_xor_sqn
  ck ← copy_changing 16 (λ i. (copies 3 i s).ck) u.ck
  ik ← copy_changing 16 (λ i. (copies 4 i s).ik) u.ik
  log ← log_hex "res (hex): %s" 8 res log
  some (record {
    outcome = record {
      result = auth_ok;
      usim = record u { ck = ck; ik = ik; fpga_initialized = true; log = log };
      res = res;
      res_len = 8;
      ak_xor_sqn = ak_xor_sqn;
    };
    shared = copies 5 0 s;
  })

pub is_mapped : Mapping → Bool
is_mapped mapped = true
is_mapped null = false
is_mapped map_failed = false

-- The first call: without the memory it fails, and *res_len keeps its value.
pub ask_vsim :
    Interference
    → Usim
    → SharedData
    → (rand autn_enb res ak_xor_sqn : List ℕ) (res_len : ℕ) (log : List Line) → Option VsimOutcome
unfolding is_mapped write_request poll
ask_vsim others u s rand autn_enb res ak_xor_sqn res_len log =
    let log' = say "Calling vSIM (for fpga) with rand, autn, and opc" ∷ log in
    if is_mapped u.shared_data
    then (do
      s ← write_request rand u.opc autn_enb s
      let sent = say "Authentication request written to shared memory (Checking w/ atomic)"
      let (seen, log) = poll 5 0 others.loads s (sent ∷ log')
      read_answer others.copies u res ak_xor_sqn seen log)
    else some (record {
      outcome = record {
        result = auth_failed;
        usim = record u { log = say "Shared memory not initialized" ∷ log' };
        res = res;
        res_len = res_len;
        ak_xor_sqn = ak_xor_sqn;
      };
      shared = s;
    })

-- A later call: the result of gen_auth_res_milenage is not used.
pub answer_alone :
    SrsRan
    → Usim
    → SharedData
    → (rand autn_enb res ak_xor_sqn sqn : List ℕ) (log : List Line) → Option VsimOutcome
answer_alone srs u s rand autn_enb res ak_xor_sqn sqn log = do
  o ←
      gen_auth_res_milenage srs
        (record u { log = say "Using cached vSIM results from previous initialization" ∷ log }) rand
        autn_enb res ak_xor_sqn sqn
  some (record { outcome = record o { result = auth_ok }; shared = s })

-- usim::gen_auth_res_milenage_vsim; sqn is the local array of gen_auth_res_milenage.
pub gen_auth_res_milenage_vsim :
    SrsRan
    → Interference
    → Usim
    → SharedData
    → (rand autn_enb res ak_xor_sqn sqn : List ℕ) (res_len : ℕ) → Option VsimOutcome
unfolding ask_vsim answer_alone
gen_auth_res_milenage_vsim srs others u s rand autn_enb res ak_xor_sqn sqn res_len = do
  log ← log_hex "OPC (hex): %s" 16 u.opc u.log
  log ← log_hex "RAND (hex): %s" 16 rand log
  log ← log_hex "autn_enb_str (hex): %s" 16 autn_enb log
  if u.fpga_initialized
      then answer_alone srs u s rand autn_enb res ak_xor_sqn sqn log
      else ask_vsim others u s rand autn_enb res ak_xor_sqn res_len log
