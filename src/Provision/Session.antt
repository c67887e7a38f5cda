-- ===== src/Provision/Session.antt =====
-- A channel is set up only with a provider that answered with the nonce and the quote.
use disguise_pets.Base.{
  ℕ, ◌+◌, ◌≤◌, ◌≡◌, refl, arith, true, false, List, [], ◌∷◌, some, none, length, take, drop, leb,
  ap, ◌∙◌, sym, dec_lt, ◌<◌, Bool-cases, inl, inr, ◌⊎◌, option-cases,
}
use mathlib.Core.Path.{subst}
use disguise_pets.Channel.{
  SodiumLaws, Keys, asymmetric_unbox, dev_public_key, dev_secret_key, slice, give_up, init,
}
use disguise_pets.Channel.Buffers.{slice_lem}
use disguise_pets.Enclave.{
  World, take_message, ocall_wait_for_message, receive, ok, exit, fault, codes, malloc, ocall,
  ocall_print_string,
}
use disguise_pets.Enclave.Laws.{blocked-not_ok, fault-not_ok, exit-not_ok, and_then-ok, ok-inj}
use disguise_pets.Provision.{
  Platform, ProvisionLocals, provider_hash, check_response, note_if_null, send_request,
  establish_secure_channel,
}
use disguise_pets.Provision.Compare.{same-or-differ}
use disguise_pets.Provision.Request.{init-Yields, send_request-Yields}
use disguise_pets.Enclave.Yields.{ocall_print_string-Yields}
use disguise_pets.Runtime.{Timeval}
use disguise_pets.Provision.Response.{check_response_lem, after_block, say}

-- The response opens to a nonce, the provider's quote, and the provider's key.
pub record Accepted (p : Platform) (nonce data_copy client_pk : List ℕ) : Type 0 where
  pub plain : List ℕ
  pub opens : p.sodium.box_seal_open (take 233 data_copy) dev_public_key dev_secret_key ≡ some plain
  pub same_nonce : nonce ≡ take 24 plain
  pub same_quote : take 129 (drop 24 plain) ≡ provider_hash
  pub key : client_pk ≡ take 32 (drop 153 plain)

module _ (p : Platform) (nonce data_copy : List ℕ) (w : World) where
  slice_short : length data_copy < 233 → slice 233 0 data_copy ≡ none
  slice_short h = let test : leb 233 (length data_copy) ≡ false = ground arith in rw test refl

  short_response : length data_copy < 233 → check_response p nonce data_copy w ≡ fault
  unfolding check_response asymmetric_unbox malloc note_if_null ocall_print_string ocall
  short_response h = elim (Bool-cases (w.heap_ok w.allocations)) [
    | inl memory ↦ rw memory (rw (slice_short h))
    | inr no_memory ↦ rw no_memory (rw (slice_short h))
  ]

  no_memory_faults :
      w.heap_ok w.allocations ≡ false
      → 233 ≤ length data_copy
      → check_response p nonce data_copy w ≡ fault
  unfolding check_response asymmetric_unbox malloc note_if_null ocall_print_string ocall
  no_memory_faults no_memory size = rw no_memory (rw (slice_lem 233 0 data_copy size))

  sealed_otherwise :
      w.heap_ok w.allocations ≡ true
      → 233 ≤ length data_copy
      → p.sodium.box_seal_open (take 233 data_copy) dev_public_key dev_secret_key ≡ none
      → check_response p nonce data_copy w
        ≡ exit 1 (say (codes "[C] Unable to decrypt message, exiting\n") (after_block w))
  unfolding check_response asymmetric_unbox malloc note_if_null give_up ocall_print_string ocall
  sealed_otherwise memory size closed = rw memory (rw (slice_lem 233 0 data_copy size) (rw closed))

  opened_lem :
      (client_pk : List ℕ) (w' : World)
      → SodiumLaws p.sodium
      → w.heap_ok w.allocations ≡ true
      → 233 ≤ length data_copy
      → (plain : List ℕ)
      → p.sodium.box_seal_open (take 233 data_copy) dev_public_key dev_secret_key ≡ some plain
      → check_response p nonce data_copy w ≡ ok client_pk w'
      → Accepted p nonce data_copy client_pk
  opened_lem client_pk w' laws memory size plain opens e =
      let (right, wrong_quote, wrong_nonce) =
        check_response_lem p nonce data_copy plain w laws memory size opens in
      elim (same-or-differ nonce (take 24 plain)) [
        | inr differ ↦ absurd (exit-not_ok _ client_pk w' 1 _ (wrong_nonce differ) e)
        | inl same ↦ elim (same-or-differ (take 129 (drop 24 plain)) provider_hash) [
          | inr differ ↦ absurd (exit-not_ok _ client_pk w' 1 _ (wrong_quote same differ) e)
          | inl quote ↦ record {
            plain = plain;
            opens = opens;
            same_nonce = same;
            same_quote = quote;
            key = ok-inj client_pk _ w' _ (sym e ∙ right same quote);
          }
        ]
      ]

  -- A response that is accepted opens under the device's keys to the nonce that was sent, the provider's
  -- quote, and the key that is taken from it.
  pub check_response-Accepted :
      (client_pk : List ℕ) (w' : World)
      → SodiumLaws p.sodium
      → check_response p nonce data_copy w ≡ ok client_pk w'
      → Accepted p nonce data_copy client_pk
  check_response-Accepted client_pk w' laws e = elim (dec_lt (length data_copy) 233) [
    | yes short ↦ absurd (fault-not_ok _ client_pk w' (short_response short) e)
    | no long ↦ elim (Bool-cases (w.heap_ok w.allocations)) [
      | inr no_memory ↦
          absurd (fault-not_ok _ client_pk w' (no_memory_faults no_memory (omega arith)) e)
      | inl memory ↦
          elim (option-cases
            (p.sodium.box_seal_open (take 233 data_copy) dev_public_key dev_secret_key)) [
              | inl closed ↦
                  absurd (
                    exit-not_ok _ client_pk w' 1 _ (sealed_otherwise memory (omega arith) closed) e)
              | inr (plain, opens) ↦ opened_lem client_pk w' laws memory (omega arith) plain opens e
            ]
    ]
  ]

inbox-cases :
    (xs : List (List ℕ)) → (xs ≡ []) ⊎ ((x : List ℕ) × (rest : List (List ℕ)) × (xs ≡ x ∷ rest))
inbox-cases [] = inl refl
inbox-cases (x ∷ rest) = inr (x, rest, refl)

receives :
    (w : World) (m : List ℕ) (v : World)
    → ocall_wait_for_message w ≡ ok m v
    → (rest : List (List ℕ)) × (w.inbox ≡ m ∷ rest)
unfolding ocall_wait_for_message receive ocall
receives w m v e = elim (inbox-cases w.inbox) [
  | inl empty ↦ absurd (blocked-not_ok _ m v (rw empty) e)
  | inr (first, rest, next) ↦ (rest, next ∙ ap (λ x. x ∷ rest) (ok-inj first m _ v (rw next at e)))
]

takes :
    (m : List ℕ) (w : World) (copy : List ℕ) (v : World) → take_message m w ≡ ok copy v → copy ≡ m
unfolding take_message malloc
takes m w copy v e = elim (Bool-cases (w.heap_ok w.allocations)) [
  | inl memory ↦ sym (ok-inj m copy _ v (rw memory at e))
  | inr no_memory ↦ absurd (fault-not_ok fault copy v refl (rw no_memory at e))
]

subst2 :
    {A B : Type 0} (P : A → B → Type 0) {a a' : A} {b b' : B} → a ≡ a' → b ≡ b' → P a b → P a' b'
subst2 {A} {B} P {a} {a'} {b} {b'} p q x = subst (P a') q (subst (λ a. P a b) p x)

-- If libsodium behaves as documented and establish_secure_channel returns, then the first message
-- that the host delivered was a response that opens under the device's keys, in its first 233
-- bytes, to the nonce of this run (the first draw after the two key pairs) and the provider's
-- quote.
pub establish_secure_channel-Accepted :
    (p : Platform) (l : ProvisionLocals) (g : Keys) (times : Timeval × Timeval) (w w' : World)
    → SodiumLaws p.sodium
    → establish_secure_channel p l g w ≡ ok times w'
    → (m client_pk : List ℕ) × (rest : List (List ℕ)) × (w.inbox ≡ m ∷ rest)
      × Accepted p (p.sodium.randombytes_buf (g.draws + 2) 24) m client_pk
unfolding establish_secure_channel
establish_secure_channel-Accepted p l g times w w' laws e =
    let (_, w1, e1, r1) =
      and_then-ok (ocall_print_string (codes "Initializing vSIM channel\n") w) _ times w' e in
    let (same1, _) = ocall_print_string-Yields _ w _ w1 e1 in
    let (g1, w2, e2, r2) = and_then-ok (init p.sodium g w1) _ times w' r1 in
    let (same2, draws) = init-Yields p.sodium g w1 g1 w2 e2 in
    let (sent, w3, e3, r3) = and_then-ok (send_request p g1 l.send_buffer w2) _ times w' r2 in
    let (same3, nonce) = send_request-Yields p g1 l.send_buffer w2 sent w3 e3 in
    let (m, w4, e4, r4) = and_then-ok (ocall_wait_for_message w3) _ times w' r3 in
    let (copy, w5, e5, r5) = and_then-ok (take_message m w4) _ times w' r4 in
    let (pk, w6, e6, r6) = and_then-ok (check_response p sent.0 copy w5) _ times w' r5 in
    let (rest, next) = receives w3 m w4 e4 in
    let accepted = check_response-Accepted p sent.0 copy w5 pk w6 laws e6 in
    (
      m,
      pk,
      rest,
      sym (same3 ∙ same2 ∙ same1) ∙ next,
      subst2 (λ n d. Accepted p n d pk) (nonce ∙ ap (λ d. p.sodium.randombytes_buf d 24) draws)
          (takes m w4 copy w5 e5) accepted,
    )
