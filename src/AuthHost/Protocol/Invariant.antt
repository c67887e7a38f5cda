-- ===== src/AuthHost/Protocol/Invariant.antt =====
-- The invariant of the events around the shared memory.
use disguise_pets.Base.{
  ℕ, ◌≡◌, refl, arith, true, false, List, ◌∷◌, take, length, length-take, Option, none, some, ap,
  ◌∙◌, sym,
}
use mathlib.Core.Path.{subst}
use disguise_pets.Milenage.{Aes}
use disguise_pets.Milenage.Spec
use disguise_pets.Milenage.Answer.{subscriber_key}
use disguise_pets.Milenage.Functions.{length-res, length-ck, length-ik}
use disguise_pets.Shared.{AuthData}
use disguise_pets.Usim.Vsim.Answer.{RequestSized, ReplySized, requested, write_request_lem}
use disguise_pets.AuthHost.{clear_flags}
use disguise_pets.AuthHost.Relay.{ArraysSized, arrays_of, taken_message, challenge_pass-pending}
use disguise_pets.AuthHost.Service.{store_reply}
use disguise_pets.AuthHost.Protocol.{
  System, Step, asks, takes, replies, Reach, starts, steps, Answers,
}

abbrev from_some : {A : Type 0} → A → Option A → A
from_some d none = d
from_some d (some a) = a

module _ (aes : Aes) where
  pub record DataSized (d : AuthData) : Type 0 where
    pub rand_bytes : length d.rand_bytes ≡ 16
    pub opc_bytes : length d.opc_bytes ≡ 16
    pub autenb_bytes : length d.autenb_bytes ≡ 16

  -- What holds in every reachable state.
  pub record Invariant (y : System) : Type 0 where
    pub request : RequestSized y.shared
    pub reply : ReplySized y.shared
    pub arrays : ArraysSized y.arrays
    pub busy :
        (d : AuthData)
        → y.busy ≡ some d
        → DataSized d
          × (y.shared.auth_response_ready ≡ false)
          × ((more : List AuthData) × (y.given ≡ d ∷ more))
    pub answered :
        y.shared.auth_response_ready ≡ true
        → (d : AuthData) × (more : List AuthData) × (y.given ≡ d ∷ more) × Answers aes y.shared d

  asked :
      (y : System) (rand opc autn_enb : List ℕ)
      → length rand ≡ 16
      → length opc ≡ 16
      → length autn_enb ≡ 16
      → Invariant y
      → Invariant (record y { shared = requested rand opc autn_enb y.shared })
  asked y rand opc autn_enb hr ho ha inv = record {
    request = record { rand_bytes = hr; opc_bytes = ho; autenb_bytes = ha };
    reply = record {
      res = inv.reply.res;
      ak_xor_sqn = inv.reply.ak_xor_sqn;
      ck = inv.reply.ck;
      ik = inv.reply.ik;
    };
    arrays = inv.arrays;
    busy = inv.busy;
    answered = λ ready.
        let (d, more, given, a) = inv.answered ready in
        (d, more, given, record { res = a.res; ck = a.ck; ik = a.ik; ak_xor_sqn = a.ak_xor_sqn });
  }

  taken_by : (y : System) → System
  taken_by y = record {
    shared = (taken_message y.shared).shared;
    arrays = arrays_of y.shared;
    given = y.shared.auth_data ∷ y.given;
    busy = some y.shared.auth_data;
  }

  took : (y : System) → Invariant y → Invariant (taken_by y)
  unfolding taken_by
  took y inv = record {
    request = record {
      rand_bytes = inv.request.rand_bytes;
      opc_bytes = inv.request.opc_bytes;
      autenb_bytes = inv.request.autenb_bytes;
    };
    reply = record {
      res = inv.reply.res;
      ak_xor_sqn = inv.reply.ak_xor_sqn;
      ck = inv.reply.ck;
      ik = inv.reply.ik;
    };
    arrays = record {
      rand_bytes = inv.request.rand_bytes;
      opc_bytes = inv.request.opc_bytes;
      autenb_bytes = inv.request.autenb_bytes;
    };
    busy = λ d e.
        let same : y.shared.auth_data ≡ d = ap (from_some y.shared.auth_data) e in
        (
          subst DataSized same (record {
            rand_bytes = inv.request.rand_bytes;
            opc_bytes = inv.request.opc_bytes;
            autenb_bytes = inv.request.autenb_bytes;
          }),
          refl,
          (y.given, ap (λ d. d ∷ y.given) same),
        );
    answered = λ ready. absurd (ground (arith, ready));
  }

  replied_to : (y : System) (d : AuthData) → System
  replied_to y d =
      let E = aes.ecb_encrypt (aes.init_ctx subscriber_key) in
      record y {
        shared = record y.shared {
          res = Spec.res E d.opc_bytes d.rand_bytes;
          ak_xor_sqn = take 6 d.autenb_bytes;
          ck = Spec.ck E d.opc_bytes d.rand_bytes;
          ik = Spec.ik E d.opc_bytes d.rand_bytes;
          auth_response_ready = true;
        };
        busy = none;
      }

  reply_of_size :
      (d : AuthData)
      → DataSized d
      → let E = aes.ecb_encrypt (aes.init_ctx subscriber_key) in
        (length (Spec.res E d.opc_bytes d.rand_bytes) ≡ 8)
        × (length (take 6 d.autenb_bytes) ≡ 6)
        × (length (Spec.ck E d.opc_bytes d.rand_bytes) ≡ 16)
        × (length (Spec.ik E d.opc_bytes d.rand_bytes) ≡ 16)
  reply_of_size d h = (
    length-res aes subscriber_key d.opc_bytes d.rand_bytes h.opc_bytes h.rand_bytes,
    omega (arith, length-take 6 d.autenb_bytes, h.autenb_bytes),
    length-ck aes subscriber_key d.opc_bytes d.rand_bytes h.opc_bytes h.rand_bytes,
    length-ik aes subscriber_key d.opc_bytes d.rand_bytes h.opc_bytes h.rand_bytes,
  )

  replied : (y : System) (d : AuthData) → y.busy ≡ some d → Invariant y → Invariant (replied_to y d)
  unfolding replied_to
  replied y d busy inv =
      let (sized, unset, (more, given)) = inv.busy d busy in
      let (r, x, c, i) = reply_of_size d sized in
      record {
        request = record {
          rand_bytes = inv.request.rand_bytes;
          opc_bytes = inv.request.opc_bytes;
          autenb_bytes = inv.request.autenb_bytes;
        };
        reply = record { res = r; ak_xor_sqn = x; ck = c; ik = i };
        arrays = inv.arrays;
        busy = λ e same. absurd (ground (arith, same));
        answered = λ ready.
            (d, more, given, record { res = refl; ck = refl; ik = refl; ak_xor_sqn = refl });
      }

  Step-Invariant : (y z : System) → Step aes y z → Invariant y → Invariant z
  unfolding taken_by replied_to
  Step-Invariant _ _ (asks y rand opc autn_enb s hr ho ha e) inv =
      let same : requested rand opc autn_enb y.shared ≡ s =
        ap (from_some y.shared)
          (sym (write_request_lem rand opc autn_enb y.shared inv.request hr ho ha) ∙ e) in
      subst (λ s. Invariant (record y { shared = s })) same (asked y rand opc autn_enb hr ho ha inv)
  Step-Invariant _ _ (takes y buffer p idle ready command hb e) inv =
      let same : taken_message y.shared ≡ p = ap (from_some p) (
        sym
          (challenge_pass-pending buffer y.arrays y.shared ready command inv.request inv.arrays hb)
        ∙ e) in
      subst
        (λ p. Invariant (record {
          shared = p.shared;
          arrays = p.arrays;
          given = y.shared.auth_data ∷ y.given;
          busy = some y.shared.auth_data;
        }))
        same (took y inv)
  Step-Invariant _ _ (replies y d s busy e) inv =
      let (r, x, c, i) = reply_of_size d (inv.busy d busy).0 in
      let same =
        ap (from_some y.shared) (sym (store_reply _ _ _ _ y.shared r x c i inv.reply) ∙ e) in
      subst (λ s. Invariant (record y { shared = s; busy = none })) same (replied y d busy inv)

  Reach-Invariant : (y : System) → Reach aes y → Invariant y
  unfolding clear_flags
  Reach-Invariant _ (starts s h request reply arrays) = record {
    request = record {
      rand_bytes = request.rand_bytes;
      opc_bytes = request.opc_bytes;
      autenb_bytes = request.autenb_bytes;
    };
    reply = record { res = reply.res; ak_xor_sqn = reply.ak_xor_sqn; ck = reply.ck; ik = reply.ik };
    arrays = arrays;
    busy = λ d same. absurd (ground (arith, same));
    answered = λ ready. absurd (ground (arith, ready));
  }
  Reach-Invariant _ (steps y z r step) = Step-Invariant y z step (Reach-Invariant y r)

  -- However the requests, the host's passes and its replies are interleaved after main has cleared the
  -- flags: whenever auth_response_ready is set, the memory holds RES, CK, IK of Milenage and SQN ⊕ AK for
  -- the challenge that the enclave was given last. A request that is still pending may be another one.
  pub ready_answers_newest :
      (y : System)
      → Reach aes y
      → y.shared.auth_response_ready ≡ true
      → (d : AuthData) × (more : List AuthData) × (y.given ≡ d ∷ more) × Answers aes y.shared d
  ready_answers_newest y r = (Reach-Invariant y r).answered

  -- In the same states, while the enclave works on a challenge, that challenge is the newest one given
  -- to it, and auth_response_ready is not set.
  pub no_answer_while_busy :
      (y : System) (d : AuthData)
      → Reach aes y
      → y.busy ≡ some d
      → (y.shared.auth_response_ready ≡ false) × ((more : List AuthData) × (y.given ≡ d ∷ more))
  no_answer_while_busy y d r busy =
      let (sized, unset, newest) = (Reach-Invariant y r).busy d busy in (unset, newest)
