-- ===== src/Auth/Steps.antt =====
-- The steps of eapp_entry, and the whole of it up to its parts.
use disguise_pets.Base.{
  ℕ, ◌+◌, ◌≤◌, ◌<◌, ◌≡◌, refl, arith, List, [], ◌∷◌, ◌++◌, some, length, take, drop, true, ap, ◌∙◌,
  Bool-cases, inl, inr,
}
use disguise_pets.Base.Arrays.{
  copy_at, elements, by_elements, by_two_arrays, by_prefix, copy_at_short,
}
use disguise_pets.Milenage.{Aes, success}
use disguise_pets.Milenage.Answer.{Answer, gen_auth_res_milenage}
use disguise_pets.Enclave.{
  World, Event, Cmd, ok, exit, fault, pure, lift, codes, malloc, gettimeofday, and_then, receive,
  take_message, ocall_wait_for_challenge, ocall_send_challenge_response, eapp_return, ◌>>=◌,
}
use disguise_pets.Enclave.Laws.{and_then_assoc, lift-fault}
use disguise_pets.Runtime.{Timeval, timeval_of_cycles}
use disguise_pets.Report.{report_delay}
use disguise_pets.Auth.{EntryLocals, parse_challenge, build_reply, eapp_entry, zeros}

parse_challenge_lem :
    (m : List ℕ) (w : World)
    → 48 ≤ length m
    → parse_challenge m w ≡ ok (take 16 m, take 16 (drop 16 m), take 16 (drop 32 m)) w
unfolding parse_challenge
parse_challenge_lem m w h =
    by_prefix 48
      (λ xs. parse_challenge xs w ≡ ok (take 16 xs, take 16 (drop 16 xs), take 16 (drop 32 xs)) w)
      (λ f rest. refl) m h

abbrev pub send_reply : Answer → List ℕ → Cmd (Unit {0})
send_reply a block = build_reply a (some block) >>= λ b. ocall_send_challenge_response b 46

abbrev pub reply : Answer → Event
reply a = record { call = 7; payload = a.res ++ a.ak_xor_sqn ++ a.ck ++ a.ik }

pub send_reply_lem :
    (a : Answer) (block : List ℕ) (w : World)
    → length a.res ≡ 8
    → length a.ak_xor_sqn ≡ 6
    → length a.ck ≡ 16
    → length a.ik ≡ 16
    → length block ≡ 92
    → send_reply a block w ≡ ok tt (record w { sent = reply a ∷ w.sent })
unfolding build_reply ocall_send_challenge_response
send_reply_lem a block w hr hx hc hi hb =
    by_two_arrays 8 6 (λ r x. Sends r x a.ck a.ik block)
      (λ f g.
        by_two_arrays 16 16 (λ c i. Sends (elements 8 f) (elements 6 g) c i block)
          (λ h k.
            by_elements 92 (Sends (elements 8 f) (elements 6 g) (elements 16 h) (elements 16 k))
              (λ e. refl) block hb)
          a.ck a.ik hc hi)
      a.res a.ak_xor_sqn hr hx
  where
    Sends : (r x c i b : List ℕ) → Type 0
    Sends r x c i b =
        let a' = record a { res = r; ak_xor_sqn = x; ck = c; ik = i } in
        send_reply a' b w ≡ ok tt (record w { sent = reply a' ∷ w.sent })

abbrev pub waiting : Event
waiting = record { call = 6; payload = [] }

-- The program up to the report, when the challenge is the next message.
module _ (aes : Aes) (l : EntryLocals) (w : World) (m : List ℕ) (rest : List (List ℕ)) where
  abbrev pub delivered : World
  delivered = record w { inbox = m ∷ rest }

  abbrev pub measured : World
  measured = record w {
    inbox = rest;
    sent = waiting ∷ w.sent;
    allocations = w.allocations + 1;
    readings = w.readings + 1 + 1;
  }

  abbrev pub delay_start : Timeval
  delay_start = timeval_of_cycles (w.clock w.readings)

  abbrev pub delay_end : Timeval
  delay_end = timeval_of_cycles (w.clock (w.readings + 1))

  pub run_of_parts :
      (res ak_xor_sqn ck ik debug' : List ℕ) (sent : List Event)
      → let a : Answer = record {
        code = success;
        res = res;
        ak_xor_sqn = ak_xor_sqn;
        ck = ck;
        ik = ik;
      } in
        w.heap_ok w.allocations ≡ true
        → w.heap_ok (w.allocations + 1) ≡ true
        → 48 ≤ length m
        → gen_auth_res_milenage aes l.answer
            (take 16 (drop 16 m))
            (take 16 m)
            (take 16 (drop 32 m))
            l.res_o
            l.ak_xor_sqn
            zeros
            zeros
          ≡ some a
        → report_delay (codes "MilliSecond: ") delay_start delay_end l.debug measured
          ≡ ok debug' (record measured { sent = sent })
        → let w' = record measured { sent = sent; allocations = w.allocations + 1 + 1 } in
          send_reply a (elements 92 w.fresh) w' ≡ ok tt (record w' { sent = reply a ∷ sent })
          → eapp_entry aes l delivered ≡ exit 0 (record w' { sent = reply a ∷ sent })
  unfolding eapp_entry take_message malloc gettimeofday receive ocall_wait_for_challenge
  run_of_parts res ak_xor_sqn ck ik debug' sent h1 h2 len answered reported replied = rw h1 (
      rw (parse_challenge_lem m _ len) (
        rw answered (
          rw reported (
            rw h2 (
              and_then_assoc _ (λ b. ocall_send_challenge_response b 46) (λ _. eapp_return 0)
              ∙ ap (λ r. and_then r (λ _. eapp_return 0)) replied)))))

parse_challenge_short : (m : List ℕ) (w : World) → length m < 48 → parse_challenge m w ≡ fault
unfolding parse_challenge
parse_challenge_short m w h = lift-fault (copy_at 16 0 0 m zeros) _ w (λ rand.
    lift-fault (copy_at 16 0 16 m zeros) _ w (λ opc.
      ap (λ o. and_then (lift o w) (λ autn. pure (rand, opc, autn)))
        (copy_at_short 16 0 32 m zeros (omega arith) (omega arith))))

pub delivered_faults :
    (aes : Aes) (l : EntryLocals) (w : World) (m : List ℕ) (rest : List (List ℕ))
    → length m < 48
    → eapp_entry aes l (delivered aes l w m rest) ≡ fault
unfolding eapp_entry take_message malloc receive ocall_wait_for_challenge
delivered_faults aes l w m rest h = elim (Bool-cases (w.heap_ok w.allocations)) [
  | inl memory ↦ rw memory (rw (parse_challenge_short m _ h))
  | inr no_memory ↦ rw no_memory
]
