-- ===== src/ProvisionHost/Forward.antt =====
-- The calls of the provisioning enclave, in order, and what reaches the provider.
use disguise_pets.Base.{
  ℕ, ◌+◌, ◌<◌, ◌≡◌, refl, arith, true, false, List, [], ◌∷◌, ◌++◌, length, Option, none, some,
  ◌>>=◌, ◌==◌, if◌then◌else◌, ap, ◌∙◌, sym,
}
use disguise_pets.Enclave.{Event, call_send_ra_req, call_send_buffer}
use disguise_pets.AuthHost.Wrappers.{CallStatus, ok}
use disguise_pets.ProvisionHost.{Machine, Relay, called}
use disguise_pets.ProvisionHost.Wrappers.{
  Edge, Handled, handled, exited, dispatch, send_buffer_wrapper, send_ra_req_wrapper,
}
use disguise_pets.ProvisionHost.Sending.{IsSend, Quiet, Stays, send_buffer-Stays, send_ra_req_lem}
use disguise_pets.ProvisionHost.Receiving.{
  Allocates, wait_for_message_wrapper_lem, wait_for_resp_wrapper_lem,
}

-- The host behind a call, if the program goes on.
abbrev pub goes_on : Handled → Option Relay
goes_on (handled status m h) = some h
goes_on (exited code) = none

-- The enclave's calls, each given to its wrapper.
pub serve_calls : (n : ℕ) → Machine → Edge → List Event → Relay → Option Relay
serve_calls n m e [] h = some h
serve_calls n m e (x ∷ more) h = do
  handled_ ← dispatch n m e x.call (some x.payload) h
  r ← handled_
  h ← goes_on r
  serve_calls n m e more h

-- The bytes on the socket by the calls alone: a request starts a connection, a buffer follows.
unfoldable pub streamed : List Event → List ℕ → List ℕ
streamed [] wire = wire
streamed (x ∷ more) wire = streamed more (
    if x.call == call_send_ra_req
    then x.payload
    else if x.call == call_send_buffer
    then wire ++ x.payload
    else wire)

-- The calls that this host has a wrapper for, each with fewer than `size` bytes.
pub data IsCall (size : ℕ) : Event → Type 0 where
  prints : (p : List ℕ) → IsCall size (record { call = 1; payload = p })
  waits_for_message : (p : List ℕ) → IsCall size (record { call = 2; payload = p })
  waits_for_resp : (p : List ℕ) → IsCall size (record { call = 4; payload = p })
  requests : (p : List ℕ) → length p < size → IsCall size (record { call = 3; payload = p })
  sends : (p : List ℕ) → length p < size → IsCall size (record { call = 5; payload = p })
  waits : (p : List ℕ) → IsCall size (record { call = 8; payload = p })

pub data AreCalls (size : ℕ) : List Event → Type 0 where
  no_call : AreCalls size []
  one_call :
      (x : Event) (more : List Event)
      → IsCall size x
      → AreCalls size more
      → AreCalls size (x ∷ more)

-- The kernel and the heap do what the host relies on.
pub record Serving (m : Machine) (from : ℕ) : Type 0 where
  pub is_send : IsSend m
  pub quiet : Quiet m from
  pub stays : Stays m
  pub connects : (c : ℕ) → m.connects c ≡ true
  pub allocates : Allocates m

serve_step :
    (n : ℕ) (m : Machine) (e : Edge) (x : Event) (more : List Event) (h h' : Relay)
    (status : CallStatus) (returned : Option (List ℕ))
    → dispatch n m e x.call (some x.payload) h ≡ some (some (handled status returned h'))
    → serve_calls n m e (x ∷ more) h ≡ serve_calls n m e more h'
unfolding serve_calls
serve_step n m e x more h h' status returned run = rw run refl

-- One call leaves the bytes that `streamed` says.
call_streamed :
    (n from size : ℕ) (m : Machine) (e : Edge) (x : Event) (more : List Event) (h : Relay)
    → Serving m from
    → ((bytes : List ℕ) → e.setup_wrapped_fails bytes ≡ false)
    → from + size < n
    → IsCall size x
    → (h' : Relay) × (serve_calls n m e (x ∷ more) h ≡ serve_calls n m e more h')
      × ((later : List Event) → streamed (x ∷ later) h.wire ≡ streamed later h'.wire)
unfolding serve_calls streamed dispatch called
call_streamed n from size m e _ more h s room fuel (prints p) = (h, refl, λ later. refl)
call_streamed n from size m e _ more h s room fuel (waits_for_message p) = (
  called (called h),
  rw (wait_for_message_wrapper_lem m e p h s.allocates (room _)) refl,
  λ later. refl,
)
call_streamed n from size m e _ more h s room fuel (waits_for_resp p) = (
  called h,
  serve_step n m e (record { call = 4; payload = p }) more h (called h) ok _
      (ap some (wait_for_resp_wrapper_lem m e p h s.allocates (room _))),
  λ later. refl,
)
call_streamed n from size m e _ more h s room fuel (requests p short) =
    let (h', run, wire, notices) =
      send_ra_req_lem n from m p h s.is_send s.quiet s.stays (s.connects h.calls) (omega arith) in
    (h', rw (send_ra_req_wrapper, run) refl, λ later. ap (streamed later) (sym wire))
call_streamed n from size m e _ more h s room fuel (sends p short) =
    let (h', run, wire, notices) =
      send_buffer-Stays n from m p h s.is_send s.quiet s.stays (omega arith) in
    (h', rw (send_buffer_wrapper, run) refl, λ later. ap (streamed later) (sym wire))
call_streamed n from size m e _ more h s room fuel (waits p) = (h, refl, λ later. refl)

-- With a machine that serves, the enclave's calls are all answered, in n passes of the loop of send for
-- each message, and the provider gets exactly what the last request and the buffers behind it carry, in
-- their order, whatever else the enclave calls in between.
pub serve_calls_lem :
    (n from size : ℕ) (m : Machine) (e : Edge) (calls : List Event) (h : Relay)
    → Serving m from
    → ((bytes : List ℕ) → e.setup_wrapped_fails bytes ≡ false)
    → from + size < n
    → AreCalls size calls
    → (h' : Relay) × (serve_calls n m e calls h ≡ some h') × (h'.wire ≡ streamed calls h.wire)
unfolding serve_calls streamed
serve_calls_lem n from size m e _ h s room fuel no_call = (h, refl, refl)
serve_calls_lem n from size m e _ h s room fuel (one_call x more c rest) =
    let (mid, first, wire) = call_streamed n from size m e x more h s room fuel c in
    let (last, run, all) = serve_calls_lem n from size m e more mid s room fuel rest in
    (last, first ∙ run, all ∙ sym (wire more))
