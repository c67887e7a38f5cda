-- ===== src/AuthHost/Relay.antt =====
-- The host relays a request of srsUE to the enclave and the enclave's reply to srsUE.
use mathlib.Core.List.{append_assoc}
use disguise_pets.Base.{
  ℕ, zero, suc, ◌+◌, ◌≤◌, ◌<◌, ◌≡◌, ◌≢◌, refl, arith, true, false, List, [], ◌++◌, take, drop,
  length, length-append, length-drop, Option, none, some, ap, ap₂, ◌⊎◌, inl, inr, Bool,
  if◌then◌else◌, ◌∙◌, sym, ◌>>=◌,
}
use disguise_pets.Base.Arrays.{copy_at}
use disguise_pets.Channel.Copy.{copy_at_lem}
use disguise_pets.Channel.Buffers.{take-all, drop-none}
use disguise_pets.Shared.{SharedData, CommandType, cmd_none, cmd_authenticate, cmd_switch, cmd_exit}
use disguise_pets.Usim.Standard.Laws.{copy_whole, append_nil}
use disguise_pets.Usim.Vsim.Answer.{RequestSized, ReplySized}
use disguise_pets.AuthHost.{
  HostArrays, Pass, send_challenge_response, take_challenge, process_command, idle, challenge_pass,
  send_challenge_to_vsim,
}

pub record ArraysSized (h : HostArrays) : Type 0 where
  pub rand_bytes : length h.rand_bytes ≡ 16
  pub opc_bytes : length h.opc_bytes ≡ 16
  pub autenb_bytes : length h.autenb_bytes ≡ 16

-- Three arrays of 16 bytes into one of 48.
fill_message :
    (r o a buffer : List ℕ)
    → length r ≡ 16
    → length o ≡ 16
    → length a ≡ 16
    → length buffer ≡ 48
    → {B : Type 0} (rest : List ℕ → Option B)
    → (copy_at 16 0 0 r buffer >>= λ b. copy_at 16 16 0 o b >>= λ b. copy_at 16 32 0 a b >>= rest)
      ≡ rest (r ++ o ++ a)
fill_message r o a buffer hr ho ha hb rest =
    let left = length-drop 16 buffer in
    let d = drop 16 (drop 16 buffer) in
    let room : length d ≡ 16 = omega (arith, length-drop 16 (drop 16 buffer), left) in
    let third : copy_at 16 32 0 a (r ++ (o ++ d)) ≡ some (r ++ o ++ a) =
      ap (copy_at 16 32 0 a) (sym (append_assoc r o d))
      ∙ copy_at_lem 16 32 0 a (r ++ o) d (omega (arith, length-append r o)) (omega arith)
          (omega arith)
      ∙ rw (take-all 16 a ha, drop-none 16 d room) (ap (λ l. some (r ++ o ++ l)) (append_nil a)) in
    rw (copy_at_lem 16 0 0 r [] buffer refl (omega arith) (omega arith), take-all 16 r hr)
      (rw
        (
          copy_at_lem 16 16 0 o r (drop 16 buffer) hr (omega arith) (omega (arith, left)),
          take-all 16 o ho,
        )
        (rw third refl))

pub part_copied :
    (n from : ℕ) (p dst : List ℕ)
    → from + n ≤ length p
    → length dst ≡ n
    → copy_at n 0 from p dst ≡ some (take n (drop from p))
part_copied n from p dst hp hd =
    copy_at_lem n 0 from p [] dst refl hp (omega arith)
    ∙ rw (drop-none n dst hd) (ap some (append_nil (take n (drop from p))))

-- The reply of the enclave in the shared memory, in its four parts.
pub send_challenge_response_lem :
    (p : List ℕ) (s : SharedData)
    → 46 ≤ length p
    → ReplySized s
    → send_challenge_response p s
      ≡ some (record s {
        res = take 8 p;
        ak_xor_sqn = take 6 (drop 8 p);
        ck = take 16 (drop 14 p);
        ik = take 16 (drop 30 p);
        auth_response_ready = true;
      })
unfolding send_challenge_response
send_challenge_response_lem p s hp sized =
    rw
      (
        part_copied 8 0 p s.res (omega arith) sized.res,
        part_copied 6 8 p s.ak_xor_sqn (omega arith) sized.ak_xor_sqn,
        part_copied 16 14 p s.ck (omega arith) sized.ck,
        part_copied 16 30 p s.ik (omega arith) sized.ik,
      )
      refl

abbrev pub arrays_of : SharedData → HostArrays
arrays_of s = record {
  rand_bytes = s.auth_data.rand_bytes;
  opc_bytes = s.auth_data.opc_bytes;
  autenb_bytes = s.auth_data.autenb_bytes;
}

-- What the pass that takes a request leaves: RAND, OPc and AUTN, one behind the other, are the
-- message, and both flags are cleared.
abbrev pub taken_message : SharedData → Pass
taken_message s = record {
  arrays = arrays_of s;
  shared = record s { command_ready = false; auth_response_ready = false };
  message = some (s.auth_data.rand_bytes ++ s.auth_data.opc_bytes ++ s.auth_data.autenb_bytes);
}

-- A request that is pending when a pass begins, with arrays of their lengths and memory for the
-- message, is taken in this pass: RAND, OPc and AUTN, one behind the other, are the message, and both
-- flags are cleared.
pub challenge_pass-pending :
    (buffer : List ℕ) (h : HostArrays) (s : SharedData)
    → s.command_ready ≡ true
    → s.command_type ≡ cmd_authenticate
    → RequestSized s
    → ArraysSized h
    → length buffer ≡ 48
    → challenge_pass (some buffer) h s ≡ some (taken_message s)
unfolding challenge_pass process_command take_challenge
challenge_pass-pending buffer h s ready command request arrays hb =
    let d = s.auth_data in
    let take : take_challenge (some buffer) h s ≡ some (taken_message s) =
      rw
        (
          copy_whole 16 d.rand_bytes h.rand_bytes request.rand_bytes arrays.rand_bytes,
          copy_whole 16 d.opc_bytes h.opc_bytes request.opc_bytes arrays.opc_bytes,
          copy_whole 16 d.autenb_bytes h.autenb_bytes request.autenb_bytes arrays.autenb_bytes,
        )
        (fill_message d.rand_bytes d.opc_bytes d.autenb_bytes buffer request.rand_bytes
          request.opc_bytes request.autenb_bytes hb _) in
    ap₂ (λ b c. if b then process_command c (some buffer) h s else idle h s) ready command ∙ take

-- A pass in which no command is pending, or another one than CMD_AUTHENTICATE, changes nothing and
-- gives no message; the flag of such a command stays set.
pub challenge_pass-idle :
    (block : Option (List ℕ)) (h : HostArrays) (s : SharedData)
    → (s.command_ready ≡ false) ⊎ (s.command_type ≢ cmd_authenticate)
    → challenge_pass block h s ≡ some (record { arrays = h; shared = s; message = none })
unfolding challenge_pass process_command
challenge_pass-idle block h s reason = elim reason [
  | inl unset ↦ ap (λ b. if b then process_command s.command_type block h s else idle h s) unset
  | inr other ↦
      ap (λ p. if s.command_ready then p else idle h s) (not_processed s.command_type other)
      ∙ either s.command_ready
]
  where
    not_processed :
        (c : CommandType) → c ≢ cmd_authenticate → process_command c block h s ≡ idle h s
    not_processed cmd_authenticate ne = absurd (ne refl)
    not_processed cmd_none ne = refl
    not_processed cmd_switch ne = refl
    not_processed cmd_exit ne = refl

    either : (b : Bool) → (if b then idle h s else idle h s) ≡ idle h s
    either true = refl
    either false = refl

relayed_at :
    (k more i p : ℕ) (others : ℕ → SharedData → SharedData) (blocks : ℕ → Option (List ℕ))
    → (buffer : List ℕ) (h : HostArrays) (s : SharedData) → s.command_ready ≡ false
    → p ≡ i + k
    → ((j : ℕ) → i ≤ j → j < p → others j s ≡ s)
    → (others p s).command_ready ≡ true
    → (others p s).command_type ≡ cmd_authenticate
    → RequestSized (others p s)
    → ArraysSized h
    → blocks p ≡ some buffer
    → length buffer ≡ 48
    → send_challenge_to_vsim (suc (k + more)) i others blocks h s
      ≡ some (taken_message (others p s))
unfolding send_challenge_to_vsim
relayed_at zero more i p others blocks buffer h s unset e same ready command request arrays block
      hb =
    let here : i ≡ p = omega arith in
    let pass = challenge_pass-pending buffer h (others p s) ready command request arrays hb in
    rw here (rw block (rw pass refl))
relayed_at (suc k) more i p others blocks buffer h s unset e same ready command request arrays block
      hb =
    let pass : challenge_pass (blocks i) h (others i s) ≡ idle h s =
      ap (challenge_pass (blocks i) h) (same i (omega arith) (omega arith))
      ∙ challenge_pass-idle (blocks i) h s (inl unset) in
    let count : suc k + more ≡ suc (k + more) = omega arith in
    rw pass (
      ap (λ n. send_challenge_to_vsim n (suc i) others blocks h s) count
      ∙ relayed_at k more (suc i) p others blocks buffer h s unset (omega arith)
          (λ j lo hi. same j (omega arith) hi) ready command request arrays block hb)

-- A request that srsUE writes while the host waits is relayed, if the pass that finds it has memory for
-- the message: when nothing is pending and the memory does not change before pass k, the loop ends in
-- pass k, with RAND, OPc and AUTN, one behind the other, and both flags cleared.
pub request_relayed :
    (k more : ℕ) (others : ℕ → SharedData → SharedData) (blocks : ℕ → Option (List ℕ))
    → (buffer : List ℕ) (h : HostArrays) (s : SharedData) → s.command_ready ≡ false
    → ((j : ℕ) → j < k → others j s ≡ s)
    → (others k s).command_ready ≡ true
    → (others k s).command_type ≡ cmd_authenticate
    → RequestSized (others k s)
    → ArraysSized h
    → blocks k ≡ some buffer
    → length buffer ≡ 48
    → send_challenge_to_vsim (suc (k + more)) 0 others blocks h s
      ≡ some (taken_message (others k s))
request_relayed k more others blocks buffer h s unset same =
    relayed_at k more 0 k others blocks buffer h s unset (omega arith) (λ j lo hi. same j hi)
