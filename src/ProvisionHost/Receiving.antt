-- ===== src/ProvisionHost/Receiving.antt =====
-- The messages that the enclave gets from the provider.
use mathlib.Core.List.{append_assoc}
use disguise_pets.Base.{
  ℕ, ◌+◌, ◌≡◌, refl, arith, false, List, [], ◌∷◌, ◌++◌, length, length-append, Option, none, some,
  get_elem?, ◌>>=◌,
}
use disguise_pets.Base.Arrays.{for_loop, put, put-append, get_elem?-append}
use disguise_pets.AuthHost.{string_copy}
use disguise_pets.AuthHost.Wrappers.{ok}
use disguise_pets.ProvisionHost.{
  Machine, Relay, buffer_bytes, called, received, recv_buffer, read_at_most, copy_message,
  wait_for_message, wait_for_resp, message,
}
use disguise_pets.ProvisionHost.Wrappers.{
  Edge, handled, wait_for_message_wrapper, wait_for_resp_wrapper,
}

string_copy_from :
    (pre xs ys : List ℕ) (i : ℕ)
    → length pre ≡ i
    → length ys ≡ length xs
    → for_loop (length xs) i (λ i dest. get_elem? (pre ++ xs) i >>= λ x. put dest i x) (pre ++ ys)
      ≡ some (pre ++ xs)
string_copy_from pre [] [] i e same = refl
string_copy_from pre [] (y ∷ ys) i e same = absurd (omega arith)
string_copy_from pre (x ∷ xs) [] i e same = absurd (omega arith)
string_copy_from pre (x ∷ xs) (y ∷ ys) i e same =
    let step =
      string_copy_from (pre ++ x ∷ []) xs ys (i + 1) (omega (arith, e, length-append pre (x ∷ [])))
        (omega arith) in
    rw (get_elem?-append pre xs x i e, put-append pre ys y i x e)
      (rw (append_assoc pre (x ∷ []) xs, append_assoc pre (x ∷ []) ys) at step)

-- A copy of all characters into a block of that size is the source.
string_copy_lem :
    (dest src : List ℕ) → length dest ≡ length src → string_copy dest src (length src) ≡ some src
unfolding string_copy
string_copy_lem dest src same = string_copy_from [] src dest 0 refl same

-- malloc gives a block of the size asked for.
pub record Allocates (m : Machine) : Type 0 where
  pub block : ℕ → ℕ → List ℕ
  pub gives : (c n : ℕ) → m.malloc c n ≡ some (block c n)
  pub sized : (c n : ℕ) → length (block c n) ≡ n

buffer_bytes-received : (r : Option (List ℕ)) → buffer_bytes (received r) ≡ buffer_bytes r
unfolding received
buffer_bytes-received none = refl
buffer_bytes-received (some []) = refl
buffer_bytes-received (some (b ∷ more)) = refl

recv_buffer_lem :
    (m : Machine) (h : Relay)
    → Allocates m
    → recv_buffer m h ≡ (received (read_at_most m h.calls 1024), called h)
unfolding recv_buffer
recv_buffer_lem m h a = rw (a.gives h.calls 1024) refl

copy_message_lem :
    (m : Machine) (bytes : List ℕ) (h : Relay)
    → Allocates m
    → copy_message m bytes h ≡ some (message bytes, called h)
unfolding copy_message
copy_message_lem m bytes h a =
    rw (copy_message, a.gives h.calls (length bytes))
      (rw (string_copy_lem (a.block h.calls (length bytes)) bytes (a.sized h.calls (length bytes)))
        refl)

wait_for_message_lem :
    (m : Machine) (h : Relay)
    → Allocates m
    → wait_for_message m h
      ≡ some (message (buffer_bytes (read_at_most m h.calls 1024)), called (called h))
unfolding wait_for_message
wait_for_message_lem m h a = rw (recv_buffer_lem m h a) (
    rw (buffer_bytes-received (read_at_most m h.calls 1024))
      (copy_message_lem m (buffer_bytes (read_at_most m h.calls 1024)) (called h) a))

wait_for_resp_lem :
    (m : Machine) (h : Relay)
    → Allocates m
    → wait_for_resp m h ≡ (buffer_bytes (read_at_most m h.calls 1024), called h)
unfolding wait_for_resp
wait_for_resp_lem m h a =
    rw (recv_buffer_lem m h a) (rw (buffer_bytes-received (read_at_most m h.calls 1024)) refl)

-- With memory, and room in the edge buffer, wait_for_message_wrapper gives the enclave exactly the bytes
-- of one read, the first 1024 of those that are there; an error of read and the end of the stream give
-- it an empty message, under the same status OK.
pub wait_for_message_wrapper_lem :
    (m : Machine) (e : Edge) (args : List ℕ) (h : Relay)
    → Allocates m
    → e.setup_wrapped_fails (buffer_bytes (read_at_most m h.calls 1024)) ≡ false
    → wait_for_message_wrapper m e (some args) h
      ≡ some (handled ok (some (buffer_bytes (read_at_most m h.calls 1024))) (called (called h)))
unfolding wait_for_message_wrapper
wait_for_message_wrapper_lem m e args h a room = rw (wait_for_message_lem m h a) (rw room refl)

-- wait_for_resp_wrapper does so too.
pub wait_for_resp_wrapper_lem :
    (m : Machine) (e : Edge) (args : List ℕ) (h : Relay)
    → Allocates m
    → e.setup_wrapped_fails (buffer_bytes (read_at_most m h.calls 1024)) ≡ false
    → wait_for_resp_wrapper m e (some args) h
      ≡ some (handled ok (some (buffer_bytes (read_at_most m h.calls 1024))) (called h))
unfolding wait_for_resp_wrapper
wait_for_resp_wrapper_lem m e args h a room = rw (wait_for_resp_lem m h a) (rw room refl)
