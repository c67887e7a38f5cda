-- ===== src/Provision/Request.antt =====
-- The steps before the provider's response take no message, and the nonce is the draw after the keys.
use disguise_pets.Base.{
  replicate, ℕ, ◌+◌, ◌≡◌, refl, Bool, true, false, List, Option, some, none, inl, inr, option-cases,
}
use disguise_pets.Base.Arrays.{copy_at}
use disguise_pets.Base.Int.{pos, ltb_ℤ}
use disguise_pets.Channel.{
  Sodium, Keys, init, seeded, stop_if, asymmetric_box, dev_public_key, give_up, slice, write_front,
}
use disguise_pets.Enclave.{codes, malloc, ocall_print_string, ocall_send_ra_req, lift}
use disguise_pets.Enclave.Yields.{
  Yields, Anything, bind-Yields, pure-Yields, exit-Yields, lift-Yields, malloc-Yields,
  ocall_print_string-Yields, ocall_send_ra_req-Yields,
}
use disguise_pets.Hex.{fill_hex}
use disguise_pets.Provision.{Platform, send_request, note_if_null}
use disguise_pets.Runtime.{Started, started, exit, magic_random_init}

seeded-Yields : (st : Started) → Yields Anything (seeded st)
unfolding seeded
seeded-Yields (started pool) = pure-Yields Anything tt tt
seeded-Yields (exit code) = exit-Yields Anything code

stop_if-Yields : (b : Bool) → Yields Anything (stop_if b)
unfolding stop_if
stop_if-Yields true = exit-Yields Anything 1
stop_if-Yields false = pure-Yields Anything tt tt

give_up-Yields : {A : Type 0} (P : A → Type 0) (line : List ℕ) → Yields P (give_up line)
unfolding give_up
give_up-Yields P line =
    bind-Yields Anything P (ocall_print_string line) _ (ocall_print_string-Yields line)
      (λ u h. exit-Yields P 1)

note_if_null-Yields :
    (block : Option (List ℕ)) (line : List ℕ) → Yields Anything (note_if_null block line)
unfolding note_if_null
note_if_null-Yields none line = ocall_print_string-Yields line
note_if_null-Yields (some block) line = pure-Yields Anything tt tt

module _ (s : Sodium) where
  pub init-Yields : (g : Keys) → Yields (λ g'. g'.draws ≡ g.draws + 2) (init s g)
  unfolding init
  init-Yields g = bind-Yields Anything Q (malloc 512) _ (malloc-Yields 512) (λ block _.
      bind-Yields Anything Q (lift (magic_random_init block)) _ (lift-Yields _) (λ st _.
        bind-Yields Anything Q (seeded st) _ (seeded-Yields st) (λ _ _.
          bind-Yields Anything Q (stop_if (ltb_ℤ s.sodium_init (pos 0))) _ (stop_if-Yields _)
            (λ _ _. elim (option-cases (s.kx_keypair g.draws)) [
              | inl failed ↦ rw failed (exit-Yields Q 1)
              | inr (kx, made) ↦ rw made (elim (option-cases (s.sign_keypair (g.draws + 1))) [
                | inl failed ↦ rw failed (exit-Yields Q 1)
                | inr (sign, signed) ↦ rw signed (pure-Yields Q _ refl)
              ])
            ]))))
    where
      Q : Keys → Type 0
      Q g' = g'.draws ≡ g.draws + 2

  asymmetric_box-Yields :
      (draw : ℕ) (msg : List ℕ) (len : ℕ) (buffer : Option (List ℕ)) (key : List ℕ)
      → Yields Anything (asymmetric_box s draw msg len buffer key)
  unfolding asymmetric_box
  asymmetric_box-Yields draw msg len buffer key =
      bind-Yields Anything Anything (ocall_print_string (codes "Provider Pub key: \n")) _
        (ocall_print_string-Yields _)
        (λ _ _.
          bind-Yields Anything Anything (lift (fill_hex 24 key (replicate 49 0))) _ (lift-Yields _)
            (λ _ _. bind-Yields Anything Anything (lift (slice len 0 msg)) _ (lift-Yields _) (λ m _.
              bind-Yields Anything Anything (lift buffer) _ (lift-Yields _) (λ b _.
                elim (option-cases (s.box_seal draw m key)) [
                  | inl failed ↦ rw failed (give_up-Yields Anything _)
                  | inr (c, made) ↦ rw made (lift-Yields (write_front c b))
                ]))))

pub send_request-Yields :
    (p : Platform) (g : Keys) (send_buffer : List ℕ)
    → Yields (λ x. x.0 ≡ p.sodium.randombytes_buf g.draws 24) (send_request p g send_buffer)
unfolding send_request
send_request-Yields p g send_buffer =
    bind-Yields Anything Q (lift (copy_at 24 0 0 nonce send_buffer)) _ (lift-Yields _) (λ b1 _.
      bind-Yields Anything Q (lift (copy_at 32 24 0 g.server_pk b1)) _ (lift-Yields _) (λ b2 _.
        bind-Yields Anything Q (malloc 104) _ (malloc-Yields 104) (λ block _.
          bind-Yields Anything Q (note_if_null block _) _ (note_if_null-Yields block _) (λ _ _.
            bind-Yields Anything Q
              (asymmetric_box p.sodium (g.draws + 1) b2 56 block dev_public_key) _
              (asymmetric_box-Yields p.sodium _ b2 56 block dev_public_key)
              (λ b3 _.
                bind-Yields Anything Q (ocall_send_ra_req b3 104) _
                  (ocall_send_ra_req-Yields b3 104) (λ _ _. pure-Yields Q (nonce, b2) refl))))))
  where
    nonce : List ℕ
    nonce = p.sodium.randombytes_buf g.draws 24

    Q : List ℕ × List ℕ → Type 0
    Q x = x.0 ≡ p.sodium.randombytes_buf g.draws 24
