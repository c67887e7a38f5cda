-- ===== src/Usim/Response.antt =====
-- The two operations of srsue/usim.cc that answer a challenge of the network, and the time difference
-- that they log.
pub mod Laws
use disguise_pets.Base.{
  ℕ, List, [], ◌∷◌, Bool, true, false, Option, none, some, ◌>>=◌, if◌then◌else◌,
}
use disguise_pets.Base.Arrays.{copy_at}
use disguise_pets.Base.Int.{ℤ, pos, sub_ℕ, ◌+ℤ◌, ◌*ℤ◌}
use disguise_pets.Enclave.{codes}
use disguise_pets.Channel.{slice}
use disguise_pets.Runtime.{Timeval}
use disguise_pets.Timing.{subtract, to_milliseconds}
use disguise_pets.Shared.{SharedData}
use disguise_pets.Usim.{
  Usim, SrsRan, AuthAlgo, auth_algo_milenage, auth_algo_xor, AuthResult, auth_ok, auth_failed, Line,
  say, say_hex, say_bytes, say_ms,
}
use disguise_pets.Usim.Text.{same_text}
use disguise_pets.Usim.Standard.{Outcome, gen_auth_res_milenage, gen_auth_res_xor}
use disguise_pets.Usim.Vsim.{Interference, VsimOutcome, gen_auth_res_milenage_vsim}

-- usim::get_time_diff_ms
unfoldable pub get_time_diff_ms : (start end : Timeval) → Option ℤ
get_time_diff_ms start end = do
  (seconds, microseconds) ← subtract start end
  to_milliseconds seconds microseconds

pub is_xor : AuthAlgo → Bool
is_xor auth_algo_xor = true
is_xor auth_algo_milenage = false

-- What the local arrays of these operations and of the ones that they call hold at first.
pub record Locals : Type 0 where
  pub ak_xor_sqn : List ℕ
  pub sqn : List ℕ
  pub res_ : List ℕ
  pub res : List ℕ
  pub res_len : ℕ
  pub k_ausf : List ℕ
  pub k_seaf : List ℕ

pub record Response : Type 0 where
  pub outcome : Outcome
  pub k_asme : List ℕ

-- K_asme is generated for an accepted challenge.
pub finish_lte : SrsRan → (mcc mnc : ℕ) (k_asme : List ℕ) → Outcome → Option Response
finish_lte srs mcc mnc k_asme o = elim o.result [
  | auth_ok ↦ do
    let key = srs.security_generate_k_asme o.usim.ck o.usim.ik o.ak_xor_sqn mcc mnc
    k_asme ← copy_at 32 0 0 key k_asme
    some (record { outcome = o; k_asme = k_asme })
  | auth_failed ↦ some (record { outcome = o; k_asme = k_asme })
]

-- usim::generate_authentication_response; res and k_asme are the caller's arrays.
pub generate_authentication_response :
    SrsRan
    → Locals
    → Usim
    → (rand autn_enb : List ℕ) (mcc mnc : ℕ) (res k_asme : List ℕ) → Option Response
unfolding is_xor finish_lte
generate_authentication_response srs l u rand autn_enb mcc mnc res k_asme =
    (if is_xor u.auth_algo
      then gen_auth_res_xor srs u rand autn_enb res l.ak_xor_sqn l.sqn l.res_
      else gen_auth_res_milenage srs u rand autn_enb res l.ak_xor_sqn l.sqn)
    >>= finish_lte srs mcc mnc k_asme

-- The result and the class, the shared memory, and the caller's two arrays.
pub record Response5g : Type 0 where
  pub result : AuthResult
  pub usim : Usim
  pub shared : SharedData
  pub res_star : List ℕ
  pub k_amf : List ℕ

-- The outcome with the four keys, and their lines; `shown` is the part of ABBA that is logged.
abbrev pub with_keys : VsimOutcome → (shown res_star k_ausf k_seaf k_amf : List ℕ) → Response5g
with_keys v shown res_star k_ausf k_seaf k_amf =
    let u = v.outcome.usim in
    record {
      result = auth_ok;
      usim = record u {
        log =
            say_bytes "K AMF" k_amf
            ∷ say_hex "IMSI: %s" u.imsi_str
            ∷ say_bytes "ABBA:" shown
            ∷ say_bytes "K SEAF" k_seaf
            ∷ say_bytes "K AUSF" k_ausf
            ∷ say_bytes "RES STAR" res_star
            ∷ u.log;
      };
      shared = v.shared;
      res_star = res_star;
      k_amf = k_amf;
    }

-- The four keys of an accepted challenge.
pub derive_keys :
    SrsRan
    → Locals
    → VsimOutcome
    → (rand name abba : List ℕ) (abba_len : ℕ) (res_star k_amf : List ℕ) → Option Response5g
derive_keys srs l v rand name abba abba_len res_star k_amf = do
  let o = v.outcome
  let u = o.usim
  res_star ←
      copy_at 16 0 0 (srs.security_generate_res_star u.ck u.ik name rand o.res o.res_len) res_star
  k_ausf ← copy_at 32 0 0 (srs.security_generate_k_ausf u.ck u.ik o.ak_xor_sqn name) l.k_ausf
  k_seaf ← copy_at 32 0 0 (srs.security_generate_k_seaf k_ausf name) l.k_seaf
  k_amf ← copy_at 32 0 0 (srs.security_generate_k_amf k_seaf u.imsi_str abba abba_len) k_amf
  shown ← slice abba_len 0 abba
  some (with_keys v shown res_star k_ausf k_seaf k_amf)

-- The variable USE_VSIM, `none` if it is not set.
unfoldable pub uses_vsim : Option (List ℕ) → Bool
uses_vsim none = false
uses_vsim (some value) = same_text value (codes "true")

abbrev pub add_line : Line → VsimOutcome → VsimOutcome
add_line line v = record v {
  outcome = record v.outcome { usim = record v.outcome.usim { log = line ∷ v.outcome.usim.log } };
}

-- The class when an answer with the enclave, and one without it, begins.
abbrev pub vsim_begun : Usim → Usim
vsim_begun u = record u { log = say "Using vSIM for authentication (via Keystone TEE)" ∷ u.log }

abbrev pub standard_begun : Usim → Usim
standard_begun u = record u { log = say "Using standard milenage for authentication" ∷ u.log }

-- The answer with the enclave, and the time that the calls of gettimeofday measure.
pub vsim_5g :
    SrsRan
    → Locals
    → Interference
    → (start end : Timeval) → Usim
    → SharedData
    → (rand autn_enb : List ℕ) → Option VsimOutcome
unfolding get_time_diff_ms
vsim_5g srs l others start end u s rand autn_enb = do
  v ←
      gen_auth_res_milenage_vsim srs others (vsim_begun u) s rand autn_enb l.res l.ak_xor_sqn l.sqn
        l.res_len
  ms ← get_time_diff_ms start end
  some (add_line (say_ms "vSIM 5G authentication time: %ld ms" ms) v)

pub standard_5g :
    SrsRan
    → Locals
    → (start end : Timeval) → Usim
    → SharedData
    → (rand autn_enb : List ℕ) → Option VsimOutcome
unfolding get_time_diff_ms
standard_5g srs l start end u s rand autn_enb = do
  o ← gen_auth_res_milenage srs (standard_begun u) rand autn_enb l.res l.ak_xor_sqn l.sqn
  ms ← get_time_diff_ms start end
  some (
      add_line (say_ms "Standard milenage 5G authentication time: %ld ms" ms)
        (record { outcome = o; shared = s }))

pub xor_5g : SrsRan → Locals → Usim → SharedData → (rand autn_enb : List ℕ) → Option VsimOutcome
xor_5g srs l u s rand autn_enb = do
  o ← gen_auth_res_xor srs u rand autn_enb l.res l.ak_xor_sqn l.sqn l.res_
  some (record { outcome = o; shared = s })

-- The algorithm that is chosen.
pub answer_5g :
    SrsRan
    → Locals
    → Interference
    → (use_vsim : Option (List ℕ)) (start end : Timeval) → Usim
    → SharedData
    → (rand autn_enb : List ℕ) → Option VsimOutcome
unfolding is_xor uses_vsim vsim_5g standard_5g xor_5g
answer_5g srs l others use_vsim start end u s rand autn_enb =
    if is_xor u.auth_algo
    then xor_5g srs l u s rand autn_enb
    else (if uses_vsim use_vsim
        then vsim_5g srs l others start end u s rand autn_enb
        else standard_5g srs l start end u s rand autn_enb)

-- Without AUTH_OK the caller's arrays keep their contents.
pub finish_5g :
    SrsRan
    → Locals
    → (rand name abba : List ℕ) (abba_len : ℕ) (res_star k_amf : List ℕ) → VsimOutcome
    → Option Response5g
unfolding derive_keys
finish_5g srs l rand name abba abba_len res_star k_amf v = elim v.outcome.result [
  | auth_ok ↦ derive_keys srs l v rand name abba abba_len res_star k_amf
  | auth_failed ↦ some (record {
    result = auth_failed;
    usim = v.outcome.usim;
    shared = v.shared;
    res_star = res_star;
    k_amf = k_amf;
  })
]

-- usim::generate_authentication_response_5g
pub generate_authentication_response_5g :
    SrsRan
    → Locals
    → Interference
    → (use_vsim : Option (List ℕ)) (start end : Timeval) → Usim
    → SharedData
    → (rand autn_enb name abba : List ℕ) (abba_len : ℕ) (res_star k_amf : List ℕ)
    → Option Response5g
unfolding answer_5g finish_5g
generate_authentication_response_5g srs l others use_vsim start end u s rand autn_enb name abba
      abba_len res_star k_amf =
    answer_5g srs l others use_vsim start end u s rand autn_enb
    >>= finish_5g srs l rand name abba abba_len res_star k_amf
