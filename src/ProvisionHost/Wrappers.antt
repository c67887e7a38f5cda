-- ===== src/ProvisionHost/Wrappers.antt =====
-- vsim/fpga-provision/host/edge_wrapper.cpp: the wrappers that Keystone calls for the enclave's calls,
-- by their numbers.
use disguise_pets.Base.{ℕ, Bool, List, Option, none, some, ◌>>=◌, ◌==◌, if◌then◌else◌}
use disguise_pets.Enclave.{
  call_print_string, call_wait_for_message, call_send_ra_req, call_send_buffer, call_wait,
  call_wait_for_resp,
}
use disguise_pets.AuthHost.Wrappers.{CallStatus, ok, bad_offset, bad_ptr}
use disguise_pets.ProvisionHost.{
  Machine, Relay, message, exits, send_buffer, send_ra_req, wait_for_message, wait_for_resp,
}

-- Keystone's functions on the edge buffer: whether edge_call_setup_ret and edge_call_setup_wrapped_ret
-- fail.
pub record Edge : Type 0 where
  pub setup_fails : Bool
  pub setup_wrapped_fails : List ℕ → Bool

-- What a wrapper leaves: the status, the message for the enclave if it has one, and the host.
pub data Handled : Type 0 where
  handled : CallStatus → Option (List ℕ) → Relay → Handled
  exited : ℕ → Handled

-- The end of the wrappers that return a message.
abbrev wrapped : Edge → List ℕ → Relay → Handled
wrapped e m h = if e.setup_wrapped_fails m then handled bad_ptr none h else handled ok (some m) h

-- The wrappers of a call; `args` is what edge_call_args_ptr finds, `none` if it fails.
unfoldable pub wait : (args : Option (List ℕ)) → Relay → Option Handled
wait none h = some (handled bad_offset none h)
wait (some args) h = some (handled ok none h)

unfoldable pub print_string_wrapper : Edge → (args : Option (List ℕ)) → Relay → Option Handled
print_string_wrapper e none h = some (handled bad_offset none h)
print_string_wrapper e (some args) h = some (handled (if e.setup_fails then bad_ptr else ok) none h)

unfoldable pub wait_for_message_wrapper :
    Machine → Edge → (args : Option (List ℕ)) → Relay → Option Handled
wait_for_message_wrapper m e none h = some (handled bad_offset none h)
wait_for_message_wrapper m e (some args) h = do
  (waited, h) ← wait_for_message m h
  some (elim waited [ message host_msg ↦ wrapped e host_msg h | exits code ↦ exited code ])

unfoldable pub send_ra_req_wrapper :
    (n : ℕ) → Machine → (args : Option (List ℕ)) → Relay → Option Handled
send_ra_req_wrapper n m none h = some (handled bad_offset none h)
send_ra_req_wrapper n m (some call_args) h = do
  h ← send_ra_req n m call_args h
  some (handled ok none h)

unfoldable pub send_buffer_wrapper :
    (n : ℕ) → Machine → (args : Option (List ℕ)) → Relay → Option Handled
send_buffer_wrapper n m none h = some (handled bad_offset none h)
send_buffer_wrapper n m (some call_args) h = do
  h ← send_buffer n m call_args h
  some (handled ok none h)

unfoldable pub wait_for_resp_wrapper :
    Machine → Edge → (args : Option (List ℕ)) → Relay → Option Handled
wait_for_resp_wrapper m e none h = some (handled bad_offset none h)
wait_for_resp_wrapper m e (some args) h =
    let (server_msg, h) = wait_for_resp m h in some (wrapped e server_msg h)

-- edge_init: the wrapper that is registered for a call, `none` for a number that has none.
unfoldable pub dispatch :
    (n : ℕ)
    → Machine
    → Edge
    → (number : ℕ) (args : Option (List ℕ)) → Relay
    → Option (Option Handled)
unfolding print_string_wrapper wait_for_message_wrapper send_ra_req_wrapper wait_for_resp_wrapper
    send_buffer_wrapper wait
dispatch n m e number args h =
    if number == call_print_string
    then some (print_string_wrapper e args h)
    else if number == call_wait_for_message
    then some (wait_for_message_wrapper m e args h)
    else if number == call_send_ra_req
    then some (send_ra_req_wrapper n m args h)
    else if number == call_wait_for_resp
    then some (wait_for_resp_wrapper m e args h)
    else if number == call_send_buffer
    then some (send_buffer_wrapper n m args h)
    else if number == call_wait
    then some (wait args h)
    else none
