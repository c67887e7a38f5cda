-- ===== src/Provision/Stages.antt =====
-- Each stage of establish_secure_channel gives its result when memory suffices and libsodium succeeds.
use disguise_pets.Base.{
  ℕ, ◌+◌, ◌≤◌, ◌≡◌, refl, arith, true, false, List, [], ◌∷◌, ◌++◌, some, length, take, drop, leb,
  length-take, length-drop, length-append,
}
use disguise_pets.Base.Arrays.{copy_at, elements}
use disguise_pets.Base.Int.{pos, ltb_ℤ}
use disguise_pets.Channel.{
  Sodium, SodiumLaws, Keys, init, seeded, stop_if, asymmetric_box, dev_public_key,
}
use disguise_pets.Channel.Buffers.{slice_lem, write_front_lem}
use disguise_pets.Channel.Copy.{copy_at_lem}
use disguise_pets.Channel.RoundTrip.{length-channel_box}
use disguise_pets.Enclave.{
  World, Cmd, ok, codes, malloc, ocall, ocall_print_string, ocall_send_ra_req, ocall_send_buffer,
  send_part, gettimeofday,
}
use disguise_pets.Hex.{fill_hex, write_hex}
use disguise_pets.Provision.{Platform, send_request, send_quote, note_if_null}
use disguise_pets.Report.Laws.{printed}
use disguise_pets.Runtime.{timeval_of_cycles}
use disguise_pets.Runtime.Entropy.{magic_random_init-Drawn}

-- The steps give a value of the kind P, take no message, and leave the allocator as it was.
pub record Gives {A : Type 0} (P : A → Type 0) (c : Cmd A) (w : World) : Type 0 where
  pub value : A
  pub world : World
  pub run : c w ≡ ok value world
  pub holds : P value
  pub same_inbox : world.inbox ≡ w.inbox
  pub memory : (n : ℕ) → world.heap_ok n ≡ true

pub init-Gives :
    (s : Sodium) (g : Keys) (w : World) (pk sk spk ssk : List ℕ)
    → ((n : ℕ) → w.heap_ok n ≡ true)
    → ltb_ℤ s.sodium_init (pos 0) ≡ false
    → s.kx_keypair g.draws ≡ some (pk, sk)
    → s.sign_keypair (g.draws + 1) ≡ some (spk, ssk)
    → Gives
        (λ g'. g' ≡ record g {
          server_pk = pk;
          server_sk = sk;
          server_spk = spk;
          server_ssk = ssk;
          draws = g.draws + 2;
        })
        (init s g)
        w
unfolding init malloc seeded stop_if
init-Gives s g w pk sk spk ssk memory starts kx sign =
    let (pool, begun, drawn) = magic_random_init-Drawn.1 (elements 512 w.fresh) refl in
    record {
      value = _;
      world = record w { allocations = w.allocations + 1 };
      run = rw (memory w.allocations) (rw begun (rw starts (rw kx (rw sign refl))));
      holds = refl;
      same_inbox = refl;
      memory = memory;
    }

-- The nonce and server_pk at the front of send_buffer.
abbrev requested : (nonce pk send_buffer : List ℕ) → List ℕ
requested nonce pk send_buffer = take 24 nonce ++ (take 32 pk ++ drop 32 (drop 24 send_buffer))

length-requested :
    (nonce pk send_buffer : List ℕ)
    → length nonce ≡ 24
    → length pk ≡ 32
    → 96 ≤ length send_buffer
    → length (requested nonce pk send_buffer) ≡ length send_buffer
length-requested nonce pk send_buffer hn hp hb = omega (
  arith,
  length-append (take 24 nonce) (take 32 pk ++ drop 32 (drop 24 send_buffer)),
  length-append (take 32 pk) (drop 32 (drop 24 send_buffer)),
  length-take 24 nonce,
  length-take 32 pk,
  length-drop 32 (drop 24 send_buffer),
  length-drop 24 send_buffer,
)

module _ (p : Platform) (laws : SodiumLaws p.sodium) (g : Keys) (send_buffer : List ℕ) (w : World)
    (memory : (n : ℕ) → w.heap_ok n ≡ true) (hb : 96 ≤ length send_buffer) where
  abbrev nonce : List ℕ
  nonce = p.sodium.randombytes_buf g.draws 24

  length-nonce : length nonce ≡ 24
  length-nonce = laws.length-randombytes_buf g.draws 24

  nonce_copied : copy_at 24 0 0 nonce send_buffer ≡ some (take 24 nonce ++ drop 24 send_buffer)
  nonce_copied =
      copy_at_lem 24 0 0 nonce [] send_buffer refl (omega (arith, length-nonce)) (omega arith)

  pub send_request-Gives :
      length g.server_pk ≡ 32
      → ((m : List ℕ) → (c : List ℕ) × (p.sodium.box_seal (g.draws + 1) m dev_public_key ≡ some c))
      → Gives
          (λ x. (x.0 ≡ nonce) × (length x.1 ≡ length send_buffer))
          (send_request p g send_buffer)
          w
  unfolding send_request malloc note_if_null asymmetric_box ocall_print_string ocall
      ocall_send_ra_req send_part fill_hex write_hex
  send_request-Gives hp seals =
      let out = requested nonce g.server_pk send_buffer in
      let (c, sealed) = seals (take 56 out) in
      let size : length c ≡ 104 = omega (
        arith,
        laws.length-box_seal _ _ _ c sealed,
        length-take 56 out,
        length-requested nonce g.server_pk send_buffer length-nonce hp hb,
      ) in
      let block = elements 104 w.fresh in
      let enough : leb 104 (length (c ++ drop (length c) block)) ≡ true =
        ground (arith, length-append c (drop (length c) block)) in
      let second : copy_at 32 24 0 g.server_pk (take 24 nonce ++ drop 24 send_buffer) ≡ some out =
        copy_at_lem 32 24 0 g.server_pk (take 24 nonce) (drop 24 send_buffer)
          (omega (arith, length-take 24 nonce, length-nonce)) (omega arith)
          (omega (arith, length-drop 24 send_buffer)) in
      record {
        value = (nonce, out);
        world = record w {
          allocations = w.allocations + 1;
          sent =
              record { call = 3; payload = take 104 (c ++ drop (length c) block) }
              ∷ printed (codes "Provider Pub key: \n")
              ∷ w.sent;
        };
        run = rw nonce_copied (
            rw second (
              rw (memory w.allocations) (
                rw
                  (slice_lem 56 0 out (
                    omega
                      (arith, length-requested nonce g.server_pk send_buffer length-nonce hp hb)))
                  (rw sealed (rw (write_front_lem c block (omega arith)) (rw enough refl))))));
        holds = (refl, length-requested nonce g.server_pk send_buffer length-nonce hp hb);
        same_inbox = refl;
        memory = memory;
      }

module _ (p : Platform) (laws : SodiumLaws p.sodium) (g : Keys) (draw : ℕ)
    (nonce send_buffer report : List ℕ) (w : World) (memory : (n : ℕ) → w.heap_ok n ≡ true)
    (hb : 96 ≤ length send_buffer) (hr : 96 ≤ length (p.attest_enclave nonce report))
    (seals : (m n : List ℕ) → (c : List ℕ) × (p.sodium.secretbox m n g.tx ≡ some c)) where
  abbrev attested : List ℕ
  attested = take 96 (p.attest_enclave nonce report) ++ drop 96 send_buffer

  report_copied : copy_at 96 0 0 (p.attest_enclave nonce report) send_buffer ≡ some attested
  report_copied = copy_at_lem 96 0 0 (p.attest_enclave nonce report) [] send_buffer refl hr hb

  pub send_quote-Gives : Gives (λ t. Unit {0}) (send_quote p g draw nonce send_buffer report) w
  unfolding send_quote malloc note_if_null gettimeofday ocall_send_buffer send_part ocall
  send_quote-Gives =
      let w' = record w { allocations = w.allocations + 1; readings = w.readings + 1 + 1 } in
      let (box, boxed, size) =
        length-channel_box p.sodium laws draw attested 96 (elements 168 w.fresh) g.tx w'
          (omega (
            arith,
            length-append (take 96 (p.attest_enclave nonce report)) (drop 96 send_buffer),
            length-take 96 (p.attest_enclave nonce report),
          ))
          refl seals in
      let enough : leb 168 (length box) ≡ true = ground arith in
      record {
        value =
            (timeval_of_cycles (w.clock w.readings), timeval_of_cycles (w.clock (w.readings + 1)));
        world = record w' { sent = record { call = 5; payload = take 168 box } ∷ w.sent };
        run = rw (memory w.allocations) (rw report_copied (rw boxed (rw enough refl)));
        holds = tt;
        same_inbox = refl;
        memory = memory;
      }
