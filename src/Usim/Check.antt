-- ===== src/Usim/Check.antt =====
-- The part that gen_auth_res_milenage and gen_auth_res_xor of srsue/usim.cc have in common: SQN and
-- AMF from the challenge's AUTN, the MAC that belongs to them, and the comparison of the AUTN that is
-- built with the challenge's.
use disguise_pets.Base.{ℕ, List, Option, some, get_elem?, ◌>>=◌, ◌==◌, if◌then◌else◌}
use disguise_pets.Base.Arrays.{for_loop, copy_at}
use disguise_pets.Milenage.{xor_from}
use disguise_pets.Usim.{Usim, AuthResult, auth_ok, auth_failed}

-- for (i = 0; i < 16; i++) if (autn[i] != autn_enb[i]) result = AUTH_FAILED;
unfoldable pub compare_autn : (autn autn_enb : List ℕ) → Option AuthResult
compare_autn autn autn_enb =
    for_loop 16 0
      (λ i result. do
        x ← get_elem? autn i
        y ← get_elem? autn_enb i
        some (if x == y then result else auth_failed))
      auth_ok

-- The local sqn and the members that are written, the parameter ak_xor_sqn, and the result.
pub record Checked : Type 0 where
  pub sqn : List ℕ
  pub amf : List ℕ
  pub mac : List ℕ
  pub autn : List ℕ
  pub ak_xor_sqn : List ℕ
  pub result : AuthResult

-- f1 is the call that generates the MAC; sqn is the local array before it is written.
unfoldable pub check_autn :
    (f1 : (sqn amf : List ℕ) → List ℕ)
    → Usim
    → (ak autn_enb sqn ak_xor_sqn : List ℕ) → Option Checked
unfolding xor_from
check_autn f1 u ak autn_enb sqn ak_xor_sqn = do
  sqn ← xor_from 6 autn_enb ak sqn
  amf ← copy_at 2 0 6 autn_enb u.amf
  mac ← copy_at 8 0 0 (f1 sqn amf) u.mac
  autn ← xor_from 6 sqn ak u.autn
  autn ← copy_at 2 6 0 amf autn
  autn ← copy_at 8 8 0 mac autn
  result ← compare_autn autn autn_enb
  ak_xor_sqn ← xor_from 6 sqn ak ak_xor_sqn
  some (record {
    sqn = sqn;
    amf = amf;
    mac = mac;
    autn = autn;
    ak_xor_sqn = ak_xor_sqn;
    result = result;
  })
