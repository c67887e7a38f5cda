-- ===== src/ProvisionHost.antt =====
-- vsim/fpga-provision/host/host-fpga.cpp: the untrusted program that runs the provisioning enclave and
-- passes its messages to the provider over a socket, and the provider's to it. The kernel and the heap
-- are parameters; the host's console is left out, the report at the end of a transfer excepted.
pub mod Wrappers
pub mod Sending
pub mod Receiving
pub mod Forward
mod Tests
use disguise_pets.Base.{
  ℕ, zero, suc, ◌+◌, Bool, true, false, List, [], ◌∷◌, ◌++◌, take, drop, length, Option, none, some,
  ◌>>=◌, ltb, ◌==◌, if◌then◌else◌,
}
use disguise_pets.AuthHost.{string_copy}

-- What send returns: a number of bytes, or -1 with errno EINTR or another errno.
pub data SendResult : Type 0 where
  sent : ℕ → SendResult
  interrupted failed : SendResult

-- The kernel and the heap, by the number of the call: whether a connection to the provider opens; what
-- send does with a buffer; the bytes that are there for read, none on an error and [] at the
-- end of the stream; the block that malloc gives.
pub record Machine : Type 0 where
  pub connects : ℕ → Bool
  pub send : ℕ → List ℕ → SendResult
  pub read : ℕ → Option (List ℕ)
  pub malloc : ℕ → ℕ → Option (List ℕ)

-- The line behind a transfer: sent all, or only so many of so many.
pub data Notice : Type 0 where
  sent_all : ℕ → Notice
  only_sent : ℕ → ℕ → Notice

-- The host: the bytes that the kernel has taken on the socket, the calls of the machine so far, and the
-- notices, newest first.
pub record Relay : Type 0 where
  pub wire : List ℕ
  pub calls : ℕ
  pub notices : List Notice

unfoldable pub called : Relay → Relay
called h = record h { calls = suc h.calls }

-- The state after the kernel has taken the first k of the bytes.
unfoldable pub taken : ℕ → List ℕ → Relay → Relay
unfolding called
taken k bytes h = record (called h) { wire = h.wire ++ take k bytes }

-- while (total_sent < len), for at most n tests of the condition: total_sent afterwards, and the host.
unfoldable pub send_loop :
    (n : ℕ) → Machine → (data_ : List ℕ) (total_sent : ℕ) → Relay → Option (ℕ × Relay)
unfolding called taken
send_loop zero m data_ total_sent h = none
send_loop (suc n) m data_ total_sent h = elim (ltb total_sent (length data_)) [
  | false ↦ some (total_sent, h)
  | true ↦ elim (m.send h.calls (drop total_sent data_)) [
    | failed ↦ some (total_sent, called h)
    | interrupted ↦ send_loop n m data_ total_sent (called h)
    | sent k ↦ elim k [
      | zero ↦ some (total_sent, called h)
      | suc j ↦ send_loop n m data_ (total_sent + suc j) (taken (suc j) (drop total_sent data_) h)
    ]
  ]
]

-- send_buffer
unfoldable pub send_buffer : (n : ℕ) → Machine → (data_ : List ℕ) → Relay → Option Relay
unfolding send_loop
send_buffer n m data_ h = do
  (total_sent, h) ← send_loop n m data_ 0 h
  let notice =
      if total_sent == length data_
      then sent_all total_sent
      else only_sent total_sent (length data_)
  some (record h { notices = notice ∷ h.notices })

-- send_ra_req: a connection of its own, on which the loop of send_buffer sends the request.
unfoldable pub send_ra_req : (n : ℕ) → Machine → (data_ : List ℕ) → Relay → Option Relay
unfolding send_buffer called
send_ra_req n m data_ h = elim (m.connects h.calls) [
  | true ↦ send_buffer n m data_ (record (called h) { wire = [] })
  | false ↦ some (record (called h) { wire = [] })
]

-- read(sock, buffer, n): n bytes at most.
abbrev pub read_at_most : Machine → (c n : ℕ) → Option (List ℕ)
read_at_most m c n = do bytes ← m.read c; some (take n bytes)

-- The buffer, or NULL: if read failed, or the connection is closed.
unfoldable pub received : Option (List ℕ) → Option (List ℕ)
received none = none
received (some []) = none
received (some (b ∷ more)) = some (b ∷ more)

-- recv_buffer with its block of 1024 bytes, `none` for NULL.
unfoldable pub recv_buffer : Machine → Relay → Option (List ℕ) × Relay
unfolding called received
recv_buffer m h = (
  elim (m.malloc h.calls 1024) [
    | none ↦ none
    | some block ↦ received (read_at_most m h.calls 1024)
  ],
  called h,
)

-- What a function that waits for a message does: it returns one, or it ends the program.
pub data Waited : Type 0 where
  message : List ℕ → Waited
  exits : ℕ → Waited

-- The buffer that recv_buffer leaves, of 0 bytes if it gave NULL.
abbrev pub buffer_bytes : Option (List ℕ) → List ℕ
buffer_bytes none = []
buffer_bytes (some bytes) = bytes

-- The message: a copy of the bytes in a block of its own.
unfoldable pub copy_message : Machine → List ℕ → Relay → Option (Waited × Relay)
unfolding called
copy_message m bytes h = elim (m.malloc h.calls (length bytes)) [
  | none ↦ some (exits 1, called h)
  | some buffer ↦ do
    buffer ← string_copy buffer bytes (length bytes)
    some (message buffer, called h)
]

-- wait_for_message
unfoldable pub wait_for_message : Machine → Relay → Option (Waited × Relay)
wait_for_message m h = let (buffer, h) = recv_buffer m h in copy_message m (buffer_bytes buffer) h

-- wait_for_resp
unfoldable pub wait_for_resp : Machine → Relay → List ℕ × Relay
wait_for_resp m h = let (buffer, h) = recv_buffer m h in (buffer_bytes buffer, h)
