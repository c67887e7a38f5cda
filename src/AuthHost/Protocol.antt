-- ===== src/AuthHost/Protocol.antt =====
-- The order of events around the shared memory: srsUE may write a request at any time, the host takes
-- one that is pending and stores the enclave's reply to it.
pub mod Invariant
use disguise_pets.Base.{
  ℕ, ◌≡◌, refl, arith, true, false, List, [], ◌∷◌, take, length, length-take, Option, none, some,
  ap, ◌∙◌, sym,
}
use mathlib.Core.Path.{subst}
use disguise_pets.Milenage.{Aes}
use disguise_pets.Milenage.Spec
use disguise_pets.Milenage.Answer.{subscriber_key}
use disguise_pets.Milenage.Functions.{length-res, length-ck, length-ik}
use disguise_pets.Shared.{SharedData, AuthData, cmd_authenticate}
use disguise_pets.Usim.Vsim.{write_request}
use disguise_pets.Usim.Vsim.Answer.{RequestSized, ReplySized, requested, write_request_lem}
use disguise_pets.AuthHost.{HostArrays, Pass, clear_flags, send_challenge_response, challenge_pass}
use disguise_pets.AuthHost.Relay.{ArraysSized, arrays_of, taken_message, challenge_pass-pending}
use disguise_pets.AuthHost.Service.{payload, store_reply}

-- The shared memory, the host's arrays, and the challenges that the enclave has been given, newest
-- first, of which the newest may still be unanswered.
pub record System : Type 0 where
  pub shared : SharedData
  pub arrays : HostArrays
  pub given : List AuthData
  pub busy : Option AuthData

module _ (aes : Aes) where
  pub data Step : System → System → Type 0 where
    asks :
        (y : System) (rand opc autn_enb : List ℕ) (s : SharedData)
        → length rand ≡ 16
        → length opc ≡ 16
        → length autn_enb ≡ 16
        → write_request rand opc autn_enb y.shared ≡ some s
        → Step y (record y { shared = s })
    takes :
        (y : System) (buffer : List ℕ) (p : Pass)
        → y.busy ≡ none
        → y.shared.command_ready ≡ true
        → y.shared.command_type ≡ cmd_authenticate
        → length buffer ≡ 48
        → challenge_pass (some buffer) y.arrays y.shared ≡ some p
        → Step y (record {
          shared = p.shared;
          arrays = p.arrays;
          given = y.shared.auth_data ∷ y.given;
          busy = some y.shared.auth_data;
        })
    replies :
        (y : System) (d : AuthData) (s : SharedData)
        → y.busy ≡ some d
        → send_challenge_response (payload aes d.rand_bytes d.opc_bytes d.autenb_bytes) y.shared
          ≡ some s
        → Step y (record y { shared = s; busy = none })

  -- The states that the system can reach after main has cleared the flags.
  pub data Reach : System → Type 0 where
    starts :
        (s : SharedData) (h : HostArrays)
        → RequestSized s
        → ReplySized s
        → ArraysSized h
        → Reach (record { shared = clear_flags s; arrays = h; given = []; busy = none })
    steps : (y z : System) → Reach y → Step y z → Reach z

  -- The memory holds the enclave's answer to d.
  pub record Answers (s : SharedData) (d : AuthData) : Type 0 where
    pub res :
        s.res ≡ Spec.res (aes.ecb_encrypt (aes.init_ctx subscriber_key)) d.opc_bytes d.rand_bytes
    pub ck : s.ck ≡ Spec.ck (aes.ecb_encrypt (aes.init_ctx subscriber_key)) d.opc_bytes d.rand_bytes
    pub ik : s.ik ≡ Spec.ik (aes.ecb_encrypt (aes.init_ctx subscriber_key)) d.opc_bytes d.rand_bytes
    pub ak_xor_sqn : s.ak_xor_sqn ≡ take 6 d.autenb_bytes
