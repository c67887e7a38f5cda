-- ===== src/Provision/Toy.antt =====
-- A libsodium for the tests: PKCS 7 padding, a tag in front of a plaintext, and 48 bytes behind a seal.
-- Nothing is secret, but every documented law holds.
use disguise_pets.Base.{
  ℕ, zero, suc, ◌+◌, ◌-◌, ◌%◌, ◌≤◌, ◌≡◌, refl, arith, List, [], ◌∷◌, ◌++◌, Option, some, none,
  length, take, drop, leb, replicate, get_elem?, if◌then◌else◌, ap, ◌∙◌, sym, length-take,
  length-drop, length-append, Bool-cases, inl, inr,
}
use disguise_pets.Base.Arrays.{get_elem?-append}
use disguise_pets.Base.Int.{pos, negsuc}
use disguise_pets.Channel.{Sodium, SodiumLaws, block_up}
use disguise_pets.Channel.Buffers.{part-append, take-take}
use disguise_pets.Provision.{same_bytes}
use disguise_pets.Provision.Compare.{same_bytes-same, same_bytes-eq}

abbrev tag : List ℕ
tag = replicate 16 170

abbrev toy_pad : List ℕ → ℕ → ℕ → List ℕ
toy_pad buf n blocksize =
    let whole = n + (blocksize - n % blocksize) in
    take (whole - 1) buf ++ (blocksize - n % blocksize) ∷ drop whole buf

-- The last byte says how many are padding.
abbrev toy_unpad : List ℕ → ℕ → Option ℕ
toy_unpad xs blocksize = elim (get_elem? xs (length xs - 1)) [
  | none ↦ none
  | some v ↦ some (length xs - v)
]

abbrev toy_open : List ℕ → Option (List ℕ)
toy_open c = if same_bytes (take 16 c) tag then some (drop 16 c) else none

abbrev pub toy_seal_open : List ℕ → Option (List ℕ)
toy_seal_open c = if leb 48 (length c) then some (take (length c - 48) c) else none

abbrev pub toy_sodium : Sodium
toy_sodium = record {
  sodium_init = pos 0;
  kx_keypair = λ draw. some (replicate 32 (draw + 1), replicate 32 (draw + 2));
  sign_keypair = λ draw. some (replicate 32 (draw + 3), replicate 64 (draw + 4));
  kx_client_session_keys = λ pk sk other. some (pk, sk);
  randombytes_buf = λ draw size. replicate size draw;
  pad = λ buf n blocksize max_len. some (n + (blocksize - n % blocksize), toy_pad buf n blocksize);
  unpad = toy_unpad;
  secretbox = λ m nonce key. some (tag ++ m);
  secretbox_open = λ c nonce key. toy_open c;
  box_seal = λ draw m pk. some (m ++ replicate 48 0);
  box_seal_open = λ c pk sk. toy_seal_open c;
  memcmp = λ a b. if same_bytes a b then pos 0 else negsuc 0;
}

length-replicate : (n v : ℕ) → length (replicate n v) ≡ n
length-replicate zero v = refl
length-replicate (suc n) v = ap suc (length-replicate n v)

pub some_inj : {A : Type 0} (a b : A) → some a ≡ some b → a ≡ b
some_inj a b e = ap (λ o. elim o [ none ↦ a | some x ↦ x ]) e

take_behind :
    (xs rest : List ℕ) (v k : ℕ) → length xs + 1 ≡ k → take k (xs ++ v ∷ rest) ≡ xs ++ v ∷ []
take_behind [] rest v zero e = absurd (omega arith)
take_behind [] rest v (suc zero) e = refl
take_behind [] rest v (suc (suc k)) e = absurd (omega arith)
take_behind (x ∷ xs) rest v zero e = absurd (omega arith)
take_behind (x ∷ xs) rest v (suc k) e = ap (◌∷◌ x) (take_behind xs rest v k (omega arith))

toy_unpad_lem : (xs : List ℕ) (v : ℕ) → toy_unpad (xs ++ v ∷ []) 32 ≡ some (length xs + 1 - v)
toy_unpad_lem xs v =
    rw
      (
        get_elem?-append xs [] v (length (xs ++ v ∷ []) - 1)
            (omega (arith, length-append xs (v ∷ []))),
        toy_unpad,
      )
      (ap some (omega (arith, length-append xs (v ∷ []))))

toy_unpad-toy_pad :
    (buf : List ℕ) (n : ℕ)
    → block_up n ≤ length buf
    → toy_unpad (take (block_up n) (toy_pad buf n 32)) 32 ≡ some n
toy_unpad-toy_pad buf n h =
    let front = take (block_up n - 1) buf in
    ap (λ l. toy_unpad l 32)
      (take_behind front (drop (block_up n) buf) (32 - n % 32) (block_up n)
        (omega (arith, length-take (block_up n - 1) buf)))
    ∙ toy_unpad_lem front (32 - n % 32)
    ∙ ap some (omega (arith, length-take (block_up n - 1) buf))

length-toy_open : (c m : List ℕ) → toy_open c ≡ some m → 16 + length m ≡ length c
length-toy_open c m e = elim (Bool-cases (same_bytes (take 16 c) tag)) [
  | inl same ↦
      let opened : drop 16 c ≡ m = some_inj (drop 16 c) m (rw same at e) in
      omega (
        arith,
        ap length opened,
        length-drop 16 c,
        length-take 16 c,
        ap length (same_bytes-eq (take 16 c) tag same),
      )
  | inr other ↦ absurd (ground (arith, (rw other at e)))
]

length-toy_seal_open : (c m : List ℕ) → toy_seal_open c ≡ some m → length m + 48 ≡ length c
length-toy_seal_open c m e = elim (Bool-cases (leb 48 (length c))) [
  | inl long ↦
      let opened : take (length c - 48) c ≡ m =
        some_inj (take (length c - 48) c) m (rw long at e) in
      ground (arith, long, ap length opened, length-take (length c - 48) c)
  | inr short ↦ absurd (ground (arith, (rw short at e)))
]

toy_memcmp-differs : (a b : List ℕ) → toy_sodium.memcmp a b ≡ pos 0 → a ≡ b
toy_memcmp-differs a b e = elim (Bool-cases (same_bytes a b)) [
  | inl same ↦ same_bytes-eq a b same
  | inr other ↦ absurd (ground (arith, (rw other at e)))
]

pub toy_sodium-SodiumLaws : SodiumLaws toy_sodium
toy_sodium-SodiumLaws = record {
  length-randombytes_buf = λ draw size. length-replicate size draw;
  pad-Padded = λ buf n h. record {
    buffer = toy_pad buf n 32;
    run = refl;
    same_length = omega (
      arith,
      length-append (take (block_up n - 1) buf) ((32 - n % 32) ∷ drop (block_up n) buf),
      length-take (block_up n - 1) buf,
      length-drop (block_up n) buf,
    );
    front =
        part-append n 0 (take (block_up n - 1) buf) _
          (omega (arith, length-take (block_up n - 1) buf))
        ∙ take-take n (block_up n - 1) buf (omega arith);
    unpads = toy_unpad-toy_pad buf n h;
  };
  length-secretbox =
      λ m nonce key c e. omega (arith, ap length (some_inj (tag ++ m) c e), length-append tag m);
  secretbox_open-secretbox = λ m nonce key c e. ap toy_open (sym (some_inj (tag ++ m) c e));
  length-secretbox_open = λ c nonce key m e. length-toy_open c m e;
  length-box_seal = λ draw m pk c e.
      omega
        (arith, ap length (some_inj (m ++ replicate 48 0) c e), length-append m (replicate 48 0));
  length-box_seal_open = λ c pk sk m e. length-toy_seal_open c m e;
  memcmp-equal = λ a. rw (same_bytes-same a a refl);
  memcmp-differs = toy_memcmp-differs;
}
