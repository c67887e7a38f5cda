-- ===== src/Enclave.antt =====
-- What both enclave programs run on: vsim/fpga-auth/eapp/edge_wrapper.c and
-- vsim/fpga-provision/eapp/edge_wrapper.c (calls of the host), include/hacks.h (the clock), and the
-- allocator. A run ends with a value, with EAPP_RETURN, or with a fault (undefined behaviour), or it
-- waits for a message that the host never sends.
pub mod Laws
pub mod Yields
use disguise_pets.Base.{
  ℕ, zero, suc, ◌+◌, ◌*◌, ◌/◌, ◌%◌, ◌^◌, Bool, true, false, List, [], ◌∷◌, ◌++◌, Option, none, some,
  length, take, leb, ltb, ◌==◌, if◌then◌else◌,
}
use disguise_pets.Base.Arrays.{elements}
use disguise_pets.Runtime.{Timeval, timeval_of_cycles}
use Prim.Native.Char.{code}
use Prim.Native.String.{String}

-- A call of the host: its number and the bytes that it is given.
pub record Event : Type 0 where
  pub call : ℕ
  pub payload : List ℕ

-- The environment: the messages that the host will deliver; the calls made, newest first; the cycle
-- counter at each reading, and the number of readings so far; whether each allocation succeeds, and
-- the number of allocations so far; what fresh memory holds.
pub record World : Type 0 where
  pub inbox : List (List ℕ)
  pub sent : List Event
  pub clock : ℕ → ℕ
  pub readings : ℕ
  pub heap_ok : ℕ → Bool
  pub allocations : ℕ
  pub fresh : ℕ → ℕ

pub data Run (A : Type 0) : Type 0 where
  ok : A → World → Run A
  exit : ℕ → World → Run A
  fault blocked : Run A

abbrev pub Cmd : Type 0 → Type 0
Cmd A = World → Run A

abbrev pub pure : {A : Type 0} → A → Cmd A
pure = ok

abbrev pub and_then : {A B : Type 0} → Run A → (A → Cmd B) → Run B
and_then (ok a w) k = k a w
and_then (exit c w) k = exit c w
and_then fault k = fault
and_then blocked k = blocked

infixl 5 ◌>>=◌ ◌>>◌
abbrev pub ◌>>=◌ : {A B : Type 0} → Cmd A → (A → Cmd B) → Cmd B
m >>= k = λ w. and_then (m w) k

abbrev pub ◌>>◌ : {B : Type 0} → Cmd (Unit {0}) → Cmd B → Cmd B
m >> k = m >>= λ _. k

-- EAPP_RETURN(code)
abbrev pub eapp_return : {A : Type 0} → ℕ → Cmd A
eapp_return code w = exit code w

-- A step on arrays, whose `none` is undefined behaviour.
abbrev pub lift : {A : Type 0} → Option A → Cmd A
lift none w = fault
lift (some a) w = ok a w

-- The bytes of a text literal.
abbrev pub codes : String → List ℕ
codes String.[] = []
codes (String.◌∷◌ c s) = code c ∷ codes s

-- The C string at the front of a buffer, without the 0 behind it.
abbrev pub c_string : List ℕ → List ℕ
c_string [] = []
c_string (c ∷ cs) = if c == 0 then [] else c ∷ c_string cs

abbrev pub call_print_string : ℕ
call_print_string = 1

abbrev pub call_wait_for_message : ℕ
call_wait_for_message = 2

abbrev pub call_send_ra_req : ℕ
call_send_ra_req = 3

abbrev pub call_wait_for_resp : ℕ
call_wait_for_resp = 4

abbrev pub call_send_buffer : ℕ
call_send_buffer = 5

abbrev pub call_wait_for_challenge : ℕ
call_wait_for_challenge = 6

abbrev pub call_send_challenge_response : ℕ
call_send_challenge_response = 7

abbrev pub call_wait : ℕ
call_wait = 8

unfoldable pub ocall : ℕ → List ℕ → Cmd (Unit {0})
ocall number payload w =
    ok tt (record w { sent = record { call = number; payload = payload } ∷ w.sent })

-- The string and the 0 behind it.
unfoldable pub ocall_print_string : List ℕ → Cmd (Unit {0})
unfolding ocall
ocall_print_string string = ocall call_print_string (string ++ 0 ∷ [])

-- The first len bytes of a buffer that has them.
unfoldable pub send_part : ℕ → List ℕ → ℕ → Cmd (Unit {0})
send_part number buffer len =
    if leb len (length buffer) then ocall number (take len buffer) else λ w. fault

unfoldable pub ocall_send_ra_req : List ℕ → ℕ → Cmd (Unit {0})
unfolding ocall send_part
ocall_send_ra_req = send_part call_send_ra_req

unfoldable pub ocall_send_buffer : List ℕ → ℕ → Cmd (Unit {0})
unfolding ocall send_part
ocall_send_buffer = send_part call_send_buffer

unfoldable pub ocall_send_challenge_response : List ℕ → ℕ → Cmd (Unit {0})
unfolding ocall send_part
ocall_send_challenge_response = send_part call_send_challenge_response

-- The message that the host puts into the shared buffer, as copy_from_shared takes it from there.
unfoldable pub receive : Cmd (List ℕ)
receive w = elim w.inbox [ [] ↦ blocked | m ∷ rest ↦ ok m (record w { inbox = rest }) ]

unfoldable pub ocall_wait_for_message : Cmd (List ℕ)
unfolding ocall receive
ocall_wait_for_message = ocall call_wait_for_message [] >> receive

unfoldable pub ocall_wait_for_challenge : Cmd (List ℕ)
unfolding ocall receive
ocall_wait_for_challenge = ocall call_wait_for_challenge [] >> receive

unfoldable pub ocall_wait_for_ra_resp : Cmd (List ℕ)
unfolding ocall receive
ocall_wait_for_ra_resp = ocall call_wait_for_resp [] >> receive

unfoldable pub ocall_wait : Cmd (Unit {0})
unfolding ocall
ocall_wait = ocall call_wait []

-- gettimeofday of hacks.h: the next reading of the cycle counter.
unfoldable pub gettimeofday : Cmd Timeval
gettimeofday w =
    ok (timeval_of_cycles (w.clock w.readings)) (record w { readings = w.readings + 1 })

-- malloc(size): `none` is NULL.
unfoldable pub malloc : ℕ → Cmd (Option (List ℕ))
malloc size w =
    ok (if w.heap_ok w.allocations then some (elements size w.fresh) else none)
      (record w { allocations = w.allocations + 1 })

-- data_copy = malloc(resp.size); copy_from_shared(data_copy, resp.offset, resp.size): the message
-- itself, unless there is no memory: the result of malloc is not tested.
unfoldable pub take_message : List ℕ → Cmd (List ℕ)
unfolding malloc
take_message m w =
    and_then (malloc (length m) w) (λ block. elim block [ none ↦ lift none | some _ ↦ pure m ])
