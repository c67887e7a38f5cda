-- ===== src/Milenage/Answer.antt =====
-- gen_auth_res_milenage of vsim/fpga-auth/eapp/usim.c: the answer to an authentication challenge.
pub mod Laws
use disguise_pets.Base.{ℕ, List, [], ◌∷◌, Option, some, ◌>>=◌}
use disguise_pets.Base.Arrays.{copy_at}
use disguise_pets.Milenage.{Aes, Locals, LibLteError, success, f2345, f1, xor_from}

-- The subscriber key, which the code holds as a constant.
abbrev pub subscriber_key : List ℕ
subscriber_key =
    0x00 ∷ 0x11 ∷ 0x22 ∷ 0x33 ∷ 0x44 ∷ 0x55 ∷ 0x66 ∷ 0x77 ∷ 0x88 ∷ 0x99 ∷ 0xaa ∷ 0xbb ∷ 0xcc ∷ 0xdd
    ∷ 0xee ∷ 0xff ∷ []

-- What the local arrays hold before they are written, those of the two calls included.
pub record AnswerLocals : Type 0 where
  pub sqn : List ℕ
  pub amf : List ℕ
  pub ak : List ℕ
  pub mac : List ℕ
  pub autn : List ℕ
  pub f2345 : Locals
  pub f1 : Locals

-- The error code, the two arrays that the caller passes, and the globals ck and ik.
pub record Answer : Type 0 where
  pub code : LibLteError
  pub res : List ℕ
  pub ak_xor_sqn : List ℕ
  pub ck : List ℕ
  pub ik : List ℕ

-- Construct AUTN: SQN ⊕ AK, AMF and MAC.
pub build_autn : (sqn ak amf mac autn : List ℕ) → Option (List ℕ)
build_autn sqn ak amf mac autn = do
  autn ← xor_from 6 sqn ak autn
  autn ← copy_at 2 6 0 amf autn
  copy_at 8 8 0 mac autn

-- The AUTN that is built is not looked at again: the loop that would compare it with the challenge
-- is commented out.
pub gen_auth_res_milenage :
    Aes → AnswerLocals → (opc rand autn_enb res ak_xor_sqn ck ik : List ℕ) → Option Answer
gen_auth_res_milenage aes l opc rand autn_enb res ak_xor_sqn ck ik = do
  d ←
      f2345 aes l.f2345 (some subscriber_key) (some opc) (some rand) (some res) (some ck) (some ik)
        (some l.ak)
  res ← d.res
  ck ← d.ck
  ik ← d.ik
  ak ← d.ak
  sqn ← xor_from 6 autn_enb ak l.sqn
  amf ← copy_at 2 0 6 autn_enb l.amf
  (code, mac) ←
      f1 aes l.f1 (some subscriber_key) (some opc) (some rand) (some sqn) (some amf) (some l.mac)
  mac ← mac
  autn ← build_autn sqn ak amf mac l.autn
  ak_xor_sqn ← xor_from 6 sqn ak ak_xor_sqn
  some (record { code = success; res = res; ak_xor_sqn = ak_xor_sqn; ck = ck; ik = ik })
