-- ===== src/Usim/Standard.antt =====
-- gen_auth_res_milenage and gen_auth_res_xor of srsue/usim.cc: the answer that srsUE computes itself.
pub mod Verdict
pub mod Laws
use disguise_pets.Base.{ℕ, List, [], ◌∷◌, Option, some, ◌>>=◌}
use disguise_pets.Base.Arrays.{copy_at}
use disguise_pets.Usim.{Usim, SrsRan, AuthResult, Line, say, say_bytes}
use disguise_pets.Usim.Text.{log_hex}
use disguise_pets.Usim.Check.{Checked, check_autn}

-- The result, the class afterwards, and the arrays and the number that the caller passes.
pub record Outcome : Type 0 where
  pub result : AuthResult
  pub usim : Usim
  pub res : List ℕ
  pub res_len : ℕ
  pub ak_xor_sqn : List ℕ

-- The lines on the inputs and on what f2345 gave.
pub log_derived : (k opc rand ak ck ik res : List ℕ) → List Line → Option (List Line)
unfolding log_hex
log_derived k opc rand ak ck ik res log = do
  log ← log_hex "K (hex): %s" 16 k log
  log ← log_hex "OPC (hex): %s" 16 opc log
  log ← log_hex "RAND (hex): %s" 16 rand log
  log ← log_hex "AK (hex): %s" 6 ak log
  log ← log_hex "CK (hex): %s" 16 ck log
  log ← log_hex "CK (hex): %s" 16 ik log
  log_hex "CK (hex): %s" 8 res log

-- The lines on the two AUTNs and on SQN ⊕ AK.
pub log_compared : (autn autn_enb ak_xor_sqn : List ℕ) → List Line → Option (List Line)
unfolding log_hex
log_compared autn autn_enb ak_xor_sqn log = do
  log ← log_hex "AUTN (hex): %s" 16 autn log
  log ← log_hex "AUT_ENB (hex): %s" 16 autn_enb log
  log_hex "ak_xor_sqn (hex): %s" 6 ak_xor_sqn log

-- logger.debug(ck, CK_LEN, "CK:"); and the five lines behind it.
abbrev pub log_dumps : (ck ik ak : List ℕ) → Checked → List Line → List Line
log_dumps ck ik ak c log =
    say_bytes "mac:" c.mac
    ∷ say_bytes "amf:" c.amf
    ∷ say_bytes "sqn:" c.sqn
    ∷ say_bytes "AK:" ak
    ∷ say_bytes "IK:" ik
    ∷ say_bytes "CK:" ck
    ∷ log

-- The members after an answer.
abbrev pub with_answer : Usim → (ck ik ak : List ℕ) → Checked → List Line → Usim
with_answer u ck ik ak c log = record u {
  ck = ck;
  ik = ik;
  ak = ak;
  mac = c.mac;
  amf = c.amf;
  autn = c.autn;
  log = log;
}

-- usim::gen_auth_res_milenage; sqn is the local array before it is written.
pub gen_auth_res_milenage :
    SrsRan → Usim → (rand autn_enb res ak_xor_sqn sqn : List ℕ) → Option Outcome
gen_auth_res_milenage srs u rand autn_enb res ak_xor_sqn sqn = do
  let f = srs.security_milenage_f2345 u.k u.opc rand
  res ← copy_at 8 0 0 f.res res
  ck ← copy_at 16 0 0 f.ck u.ck
  ik ← copy_at 16 0 0 f.ik u.ik
  ak ← copy_at 6 0 0 f.ak u.ak
  log ← log_derived u.k u.opc rand ak ck ik res (say "Sent challenge:" ∷ u.log)
  c ← check_autn (srs.security_milenage_f1 u.k u.opc rand) u ak autn_enb sqn ak_xor_sqn
  log ← log_compared c.autn autn_enb c.ak_xor_sqn log
  some (record {
    result = c.result;
    usim = with_answer u ck ik ak c (log_dumps ck ik ak c log);
    res = res;
    res_len = 8;
    ak_xor_sqn = c.ak_xor_sqn;
  })

-- usim::gen_auth_res_xor; res_ and sqn are the local arrays before they are written.
pub gen_auth_res_xor :
    SrsRan → Usim → (rand autn_enb res ak_xor_sqn sqn res_ : List ℕ) → Option Outcome
gen_auth_res_xor srs u rand autn_enb res ak_xor_sqn sqn res_ = do
  let f = srs.security_xor_f2345 u.k rand
  res_ ← copy_at 16 0 0 f.res res_
  ck ← copy_at 16 0 0 f.ck u.ck
  ik ← copy_at 16 0 0 f.ik u.ik
  ak ← copy_at 6 0 0 f.ak u.ak
  res ← copy_at 8 0 0 res_ res
  c ← check_autn (srs.security_xor_f1 u.k rand) u ak autn_enb sqn ak_xor_sqn
  some (record {
    result = c.result;
    usim = with_answer u ck ik ak c (log_dumps ck ik ak c (say_bytes "K:" u.k ∷ u.log));
    res = res;
    res_len = 8;
    ak_xor_sqn = c.ak_xor_sqn;
  })
