-- ===== src/Milenage.antt =====
-- vsim/fpga-auth/eapp/usim.c: the Milenage functions of the subscriber module and the answer to an
-- authentication challenge. A pointer argument is an `Option` array, `none` for NULL; the arrays that
-- a call is given do not overlap. The contents of a local array before it is written are arguments.
pub mod Spec
pub mod Loops
pub mod Functions
pub mod Answer
mod Tests
pub mod Toy
use disguise_pets.Base.{
  ℕ, ◌+◌, ◌%◌, ◌≡◌, bit_xor, List, [], ◌∷◌, Option, none, some, length, get_elem?, ◌>>=◌,
}
use disguise_pets.Base.Arrays.{put, for_loop, copy_at}

-- LIBLTE_ERROR_ENUM
pub data LibLteError : Type 0 where
  success error_invalid_inputs error_encode_fail error_decode_fail error_invalid_crc error_n_items :
      LibLteError

-- AES of tiny-AES-c, which this repository holds a copy of: a context made from a key of 16 bytes,
-- and the encryption of one block of 16 bytes in place.
pub record Aes : Type 1 where
  pub Ctx : Type 0
  pub init_ctx : List ℕ → Ctx
  pub ecb_encrypt : Ctx → List ℕ → List ℕ
  pub length-ecb_encrypt : (c : Ctx) (b : List ℕ) → length b ≡ 16 → length (ecb_encrypt c b) ≡ 16

-- for (i = 0; i < 16; i++) input[(i + shift) % 16] = a[i] ^ b[i];
pub store_xor : (shift : ℕ) (a b input : List ℕ) → Option (List ℕ)
store_xor shift a b =
    for_loop 16 0
      λ i input. do x ← get_elem? a i; y ← get_elem? b i; put input ((i + shift) % 16) (bit_xor x y)

-- for (i = 0; i < n; i++) out[i] ^= b[i];
pub xor_into : (n : ℕ) (b out : List ℕ) → Option (List ℕ)
xor_into n b =
    for_loop n 0 λ i out. do x ← get_elem? out i; y ← get_elem? b i; put out i (bit_xor x y)

-- input[i] ^= c;
pub xor_at : (i c : ℕ) → List ℕ → Option (List ℕ)
xor_at i c input = do x ← get_elem? input i; put input i (bit_xor x c)

-- for (i = 0; i < n; i++) dst[i] = a[i] ^ b[i];
unfoldable pub xor_from : (n : ℕ) (a b dst : List ℕ) → Option (List ℕ)
xor_from n a b =
    for_loop n 0 λ i dst. do x ← get_elem? a i; y ← get_elem? b i; put dst i (bit_xor x y)

-- for (i = 0; i < 6; i++) { in1[i] = sqn[i]; in1[i + 8] = sqn[i]; }
pub store_sqn : (sqn in1 : List ℕ) → Option (List ℕ)
store_sqn sqn = for_loop 6 0 λ i in1. do x ← get_elem? sqn i; in1 ← put in1 i x; put in1 (i + 8) x

-- for (i = 0; i < 2; i++) { in1[i + 6] = amf[i]; in1[i + 14] = amf[i]; }
pub store_amf : (amf in1 : List ℕ) → Option (List ℕ)
store_amf amf =
    for_loop 2 0 λ i in1. do x ← get_elem? amf i; in1 ← put in1 (i + 6) x; put in1 (i + 14) x

-- What the local arrays hold before they are written.
pub record Locals : Type 0 where
  pub temp : List ℕ
  pub out : List ℕ
  pub input : List ℕ
  pub in1 : List ℕ

-- The error code, and the arrays behind the pointers res, ck, ik and ak.
pub record Derived : Type 0 where
  pub code : LibLteError
  pub res : Option (List ℕ)
  pub ck : Option (List ℕ)
  pub ik : Option (List ℕ)
  pub ak : Option (List ℕ)

module _ (aes : Aes) where
  open aes use {init_ctx, ecb_encrypt}

  -- One of the three outputs: mask the rotated input with a constant, encrypt, and mask again.
  --   input[(i + shift) % 16] = temp[i] ^ op_c[i]; input[15] ^= c; memcpy(out, input, 16);
  --   AES_ECB_encrypt(&ctx, out); out[i] ^= op_c[i];
  pub derive : aes.Ctx → (shift c : ℕ) (op_c temp input out : List ℕ) → Option (List ℕ × List ℕ)
  derive ctx shift c op_c temp input out = do
    input ← store_xor shift temp op_c input
    input ← xor_at 15 c input
    out ← copy_at 16 0 0 input out
    out ← xor_into 16 op_c (ecb_encrypt ctx out)
    some (input, out)

  f2345_body : Locals → (k op_c rand res ck ik ak : List ℕ) → Option Derived
  f2345_body l k op_c rand res ck ik ak = do
    let ctx = init_ctx k
    input ← store_xor 0 rand op_c l.input
    temp ← copy_at 16 0 0 input l.temp
    let temp = ecb_encrypt ctx temp
    (input, out) ← derive ctx 0 1 op_c temp input l.out
    res ← copy_at 8 0 8 out res
    ak ← copy_at 6 0 0 out ak
    (input, out) ← derive ctx 12 2 op_c temp input out
    ck ← copy_at 16 0 0 out ck
    (input, out) ← derive ctx 8 4 op_c temp input out
    ik ← copy_at 16 0 0 out ik
    some (record { code = success; res = some res; ck = some ck; ik = some ik; ak = some ak })

  -- liblte_security_milenage_f2345
  pub f2345 : Locals → (k op_c rand res ck ik ak : Option (List ℕ)) → Option Derived
  unfolding f2345_body
  f2345 l (some k) (some op_c) (some rand) (some res) (some ck) (some ik) (some ak) =
      f2345_body l k op_c rand res ck ik ak
  f2345 l k op_c rand res ck ik ak =
      some (record { code = error_invalid_inputs; res = res; ck = ck; ik = ik; ak = ak })

  f1_body : Locals → (k op_c rand sqn amf mac_a : List ℕ) → Option (LibLteError × Option (List ℕ))
  f1_body l k op_c rand sqn amf mac_a = do
    let ctx = init_ctx k
    input ← store_xor 0 rand op_c l.input
    let input = ecb_encrypt ctx input
    temp ← copy_at 16 0 0 input l.temp
    in1 ← store_sqn sqn l.in1
    in1 ← store_amf amf in1
    input ← store_xor 8 in1 op_c input
    input ← xor_into 16 temp input
    input ← xor_into 16 op_c (ecb_encrypt ctx input)
    out1 ← copy_at 16 0 0 input l.out
    mac_a ← copy_at 8 0 0 out1 mac_a
    some (success, some mac_a)

  -- liblte_security_milenage_f1
  pub f1 :
      Locals
      → (k op_c rand sqn amf mac_a : Option (List ℕ)) → Option (LibLteError × Option (List ℕ))
  unfolding f1_body
  f1 l (some k) (some op_c) (some rand) (some sqn) (some amf) (some mac_a) =
      f1_body l k op_c rand sqn amf mac_a
  f1 l k op_c rand sqn amf mac_a = some (error_invalid_inputs, mac_a)
