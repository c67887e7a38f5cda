-- ===== src/AuthHost.antt =====
-- vsim/fpga-auth/host/host-fpga.cpp and edge_wrapper.cpp: the untrusted program that runs the
-- authentication enclave, between srsUE's shared memory and the enclave's calls. Keystone's functions
-- on the edge buffer are parameters.
pub mod Wrappers
pub mod Relay
pub mod Service
pub mod EndToEnd
pub mod Protocol
mod Tests
use disguise_pets.Base.{
  ℕ, zero, suc, Bool, true, false, List, [], ◌∷◌, Option, none, some, length, replicate, ◌>>=◌,
  if◌then◌else◌, get_elem?,
}
use disguise_pets.Base.Arrays.{copy_at, for_loop, put}
use disguise_pets.Shared.{
  SharedData, AuthData, CommandType, cmd_none, cmd_authenticate, cmd_switch, cmd_exit,
}

-- The global arrays of the host.
pub record HostArrays : Type 0 where
  pub rand_bytes : List ℕ
  pub opc_bytes : List ℕ
  pub autenb_bytes : List ℕ

-- string_copy, of n characters.
unfoldable pub string_copy : (dest src : List ℕ) (n : ℕ) → Option (List ℕ)
string_copy dest src n = for_loop n 0 (λ i dest. do x ← get_elem? src i; put dest i x) dest

-- The flags that main clears after the memory is mapped.
pub clear_flags : SharedData → SharedData
clear_flags s = record s {
  command_ready = false;
  response_ready = false;
  auth_response_ready = false;
}

-- send_challenge_response
pub send_challenge_response : (data_ : List ℕ) → SharedData → Option SharedData
send_challenge_response data_ s = do
  r ← copy_at 8 0 0 data_ s.res
  x ← copy_at 6 0 8 data_ s.ak_xor_sqn
  c ← copy_at 16 0 14 data_ s.ck
  i ← copy_at 16 0 30 data_ s.ik
  some (record s { res = r; ak_xor_sqn = x; ck = c; ik = i; auth_response_ready = true })

-- What one pass of the loop leaves, and the message if it returns one.
pub record Pass : Type 0 where
  pub arrays : HostArrays
  pub shared : SharedData
  pub message : Option (List ℕ)

-- The case CMD_AUTHENTICATE; `block` is what malloc(48) gives.
pub take_challenge : (block : Option (List ℕ)) → HostArrays → SharedData → Option Pass
take_challenge block arrays before = do
  let s : SharedData = record before { auth_response_ready = false }
  r ← copy_at 16 0 0 s.auth_data.rand_bytes arrays.rand_bytes
  o ← copy_at 16 0 0 s.auth_data.opc_bytes arrays.opc_bytes
  a ← copy_at 16 0 0 s.auth_data.autenb_bytes arrays.autenb_bytes
  let h : HostArrays = record { rand_bytes = r; opc_bytes = o; autenb_bytes = a }
  elim block [
    | none ↦ some (record { arrays = h; shared = s; message = none })
    | some buffer ↦ do
      buffer ← copy_at 16 0 0 r buffer
      buffer ← copy_at 16 16 0 o buffer
      buffer ← copy_at 16 32 0 a buffer
      some (record {
        arrays = h;
        shared = record s { command_ready = false };
        message = some buffer;
      })
  ]

-- A pass that changes nothing.
abbrev pub idle : HostArrays → SharedData → Option Pass
idle h s = some (record { arrays = h; shared = s; message = none })

-- switch (shared_data->command_type): CMD_SWITCH does nothing, and CMD_NONE and CMD_EXIT have no case.
pub process_command :
    CommandType → (block : Option (List ℕ)) → HostArrays → SharedData → Option Pass
unfolding take_challenge
process_command cmd_authenticate block h s = take_challenge block h s
process_command cmd_none block h s = idle h s
process_command cmd_switch block h s = idle h s
process_command cmd_exit block h s = idle h s

-- One pass of the loop of send_challenge_to_vSIM, up to sleep(1).
pub challenge_pass : (block : Option (List ℕ)) → HostArrays → SharedData → Option Pass
unfolding process_command
challenge_pass block h s =
    if s.command_ready then process_command s.command_type block h s else idle h s

-- send_challenge_to_vSIM as far as n passes: before pass i the other processes change the memory by
-- `others i`, and malloc gives `blocks i` in it. A message ends the loop.
pub send_challenge_to_vsim :
    (n i : ℕ) (others : ℕ → SharedData → SharedData) (blocks : ℕ → Option (List ℕ))
    → HostArrays
    → SharedData
    → Option Pass
unfolding challenge_pass
send_challenge_to_vsim zero i others blocks h s =
    some (record { arrays = h; shared = s; message = none })
send_challenge_to_vsim (suc n) i others blocks h s = do
  p ← challenge_pass (blocks i) h (others i s)
  let rest = send_challenge_to_vsim n (suc i) others blocks p.arrays p.shared
  elim p.message [ none ↦ rest | some m ↦ some p ]
