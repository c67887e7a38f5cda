-- ===== src/Usim.antt =====
-- srsue/usim.cc: the subscriber module of srsUE. The class's header and srsRAN's security functions
-- are not in the repository: the functions are parameters, and so are the lengths of the arrays.
pub mod Text
pub mod Init
pub mod Check
pub mod Standard
pub mod Vsim
pub mod Response
pub mod Toy
mod Tests
use disguise_pets.Base.{ℕ, List, Bool, ◌≡◌, length}
use disguise_pets.Base.Int.{ℤ}
use Prim.Native.String.{String}

-- The two results that the code returns, of srsRAN's auth_result_t.
pub data AuthResult : Type 0 where
  auth_ok auth_failed : AuthResult

pub data AuthAlgo : Type 0 where
  auth_algo_milenage auth_algo_xor : AuthAlgo

-- What mmap gave for the shared memory, if it was called.
pub data Mapping : Type 0 where
  null map_failed mapped : Mapping

-- A line of the log: a text, a label with the text of a %s or the bytes of a dump, and a time.
pub data Line : Type 0 where
  say : String → Line
  say_hex : String → List ℕ → Line
  say_bytes : String → List ℕ → Line
  say_ms : String → ℤ → Line
  length_error : String → ℕ → Line

-- The members of the class, the static one included, and the lines logged, newest first.
pub record Usim : Type 0 where
  pub k : List ℕ
  pub op : List ℕ
  pub opc : List ℕ
  pub ck : List ℕ
  pub ik : List ℕ
  pub ak : List ℕ
  pub mac : List ℕ
  pub amf : List ℕ
  pub autn : List ℕ
  pub imsi : ℕ
  pub imei : ℕ
  pub imsi_str : List ℕ
  pub imei_str : List ℕ
  pub auth_algo : AuthAlgo
  pub shared_data : Mapping
  pub initiated : Bool
  pub fpga_initialized : Bool
  pub log : List Line

-- RES, CK, IK and AK.
pub record F2345 : Type 0 where
  pub res : List ℕ
  pub ck : List ℕ
  pub ik : List ℕ
  pub ak : List ℕ

-- srsRAN's functions: what each writes to its output arrays.
pub record SrsRan : Type 0 where
  pub security_milenage_f2345 : (k opc rand : List ℕ) → F2345
  pub security_milenage_f1 : (k opc rand sqn amf : List ℕ) → List ℕ
  pub security_xor_f2345 : (k rand : List ℕ) → F2345
  pub security_xor_f1 : (k rand sqn amf : List ℕ) → List ℕ
  pub compute_opc : (k op : List ℕ) → List ℕ
  pub security_generate_k_asme : (ck ik ak_xor_sqn : List ℕ) (mcc mnc : ℕ) → List ℕ
  pub security_generate_res_star : (ck ik name rand res : List ℕ) (res_len : ℕ) → List ℕ
  pub security_generate_k_ausf : (ck ik ak_xor_sqn name : List ℕ) → List ℕ
  pub security_generate_k_seaf : (k_ausf name : List ℕ) → List ℕ
  pub security_generate_k_amf : (k_seaf imsi abba : List ℕ) (abba_len : ℕ) → List ℕ

-- The arrays have the lengths that the loops over them use.
pub record UsimSized (u : Usim) : Type 0 where
  pub k : length u.k ≡ 16
  pub opc : length u.opc ≡ 16
  pub ck : length u.ck ≡ 16
  pub ik : length u.ik ≡ 16
  pub ak : length u.ak ≡ 6
  pub mac : length u.mac ≡ 8
  pub amf : length u.amf ≡ 2
  pub autn : length u.autn ≡ 16

-- The lengths of what the functions f1 to f5 write, for the two algorithms.
pub record F2345Sized (n : ℕ) (f : F2345) : Type 0 where
  pub res : length f.res ≡ n
  pub ck : length f.ck ≡ 16
  pub ik : length f.ik ≡ 16
  pub ak : length f.ak ≡ 6

pub record SrsRanSized (srs : SrsRan) : Type 0 where
  pub milenage_f2345 :
      (k opc rand : List ℕ)
      → length opc ≡ 16
      → length rand ≡ 16
      → F2345Sized 8 (srs.security_milenage_f2345 k opc rand)
  pub milenage_f1 :
      (k opc rand sqn amf : List ℕ)
      → length opc ≡ 16
      → length rand ≡ 16
      → length sqn ≡ 6
      → length amf ≡ 2
      → length (srs.security_milenage_f1 k opc rand sqn amf) ≡ 8
  pub xor_f2345 :
      (k rand : List ℕ)
      → length k ≡ 16
      → length rand ≡ 16
      → F2345Sized 16 (srs.security_xor_f2345 k rand)
  pub xor_f1 :
      (k rand sqn amf : List ℕ)
      → length k ≡ 16
      → length rand ≡ 16
      → length sqn ≡ 6
      → length amf ≡ 2
      → length (srs.security_xor_f1 k rand sqn amf) ≡ 8
