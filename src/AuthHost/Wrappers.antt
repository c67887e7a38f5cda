-- ===== src/AuthHost/Wrappers.antt =====
-- vsim/fpga-auth/host/edge_wrapper.cpp: the wrappers that Keystone calls for the enclave's calls.
use disguise_pets.Base.{ℕ, Bool, List, ◌∷◌, Option, none, some, ◌>>=◌, if◌then◌else◌}
use disguise_pets.Enclave.{c_string}
use disguise_pets.Shared.{SharedData}
use disguise_pets.AuthHost.{HostArrays, send_challenge_response, send_challenge_to_vsim}

-- CALL_STATUS_OK, CALL_STATUS_BAD_OFFSET and CALL_STATUS_BAD_PTR.
pub data CallStatus : Type 0 where
  ok bad_offset bad_ptr : CallStatus

-- The host's state: its arrays, the shared memory, and the texts that it printed, newest first.
pub record Host : Type 0 where
  pub arrays : HostArrays
  pub shared : SharedData
  pub printed : List (List ℕ)

-- The call status, `none` while the host still waits for a challenge, the state afterwards, and the
-- message that the edge buffer carries back to the enclave.
pub record Handled : Type 0 where
  pub status : Option CallStatus
  pub host : Host
  pub returned : Option (List ℕ)

abbrev pub unwrapped : CallStatus → Host → Handled
unwrapped status h = record { status = some status; host = h; returned = none }

-- `args` is what edge_call_args_ptr finds, `none` if it fails, and `setup_fails` whether
-- edge_call_setup_ret does.
pub print_string_wrapper : (args : Option (List ℕ)) (setup_fails : Bool) → Host → Handled
print_string_wrapper none setup_fails h = unwrapped bad_offset h
print_string_wrapper (some text) setup_fails h =
    unwrapped (if setup_fails then bad_ptr else ok)
      (record h { printed = c_string text ∷ h.printed })

-- The host waits for at most n passes here; `setup_fails` is edge_call_setup_wrapped_ret.
pub wait_for_challenge_wrapper :
    (args : Option (List ℕ)) (setup_fails : List ℕ → Bool)
    → (n : ℕ) (others : ℕ → SharedData → SharedData) (blocks : ℕ → Option (List ℕ)) → Host
    → Option Handled
wait_for_challenge_wrapper none setup_fails n others blocks h = some (unwrapped bad_offset h)
wait_for_challenge_wrapper (some args) setup_fails n others blocks h = do
  p ← send_challenge_to_vsim n 0 others blocks h.arrays h.shared
  let h' : Host = record h { arrays = p.arrays; shared = p.shared }
  elim p.message [
    | none ↦ some (record { status = none; host = h'; returned = none })
    | some m ↦
        if setup_fails m
        then some (unwrapped bad_ptr h')
        else some (record { status = some ok; host = h'; returned = some m })
  ]

pub send_challenge_response_wrapper : (args : Option (List ℕ)) → Host → Option Handled
send_challenge_response_wrapper none h = some (unwrapped bad_offset h)
send_challenge_response_wrapper (some call_args) h = do
  s ← send_challenge_response call_args h.shared
  some (unwrapped ok (record h { shared = s }))
