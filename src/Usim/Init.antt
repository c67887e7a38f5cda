-- ===== src/Usim/Init.antt =====
-- usim::init of srsue/usim.cc: the keys and the identities from the texts of the configuration.
pub mod Laws
use disguise_pets.Base.{
  ℕ, ◌+◌, ◌-◌, ◌*◌, ◌%◌, ◌^◌, Bool, true, false, List, ◌∷◌, Option, some, length, get_elem?, ◌>>=◌,
  ltb, ◌==◌, if◌then◌else◌,
}
use disguise_pets.Base.Arrays.{for_loop}
use disguise_pets.Enclave.{codes}
use disguise_pets.Usim.{
  Usim, SrsRan, AuthAlgo, auth_algo_milenage, auth_algo_xor, Mapping, Line, say, length_error,
}
use disguise_pets.Usim.Text.{same_text, str_to_hex}
use Prim.Native.String.{String}

-- The part of usim_args_t that init reads.
pub record UsimArgs : Type 0 where
  pub imsi : List ℕ
  pub imei : List ℕ
  pub algo : List ℕ
  pub k : List ℕ
  pub using_op : Bool
  pub op : List ℕ
  pub opc : List ℕ

-- imsi *= 10; imsi += c - '0'; in a uint64_t, for a char c that is signed.
pub add_digit : (imsi c : ℕ) → ℕ
add_digit imsi c =
    let value = if ltb c 128 then c else c + 2 ^ 64 - 256 in
    (imsi * 10 % 2 ^ 64 + (value + 2 ^ 64 - b'0')) % 2 ^ 64

-- The number of a text of 15 characters; another length is an error, and the member keeps its value.
pub read_identity : (label : String) (c_str : List ℕ) (old : ℕ) → List Line → Option (ℕ × List Line)
unfolding add_digit
read_identity label c_str old log =
    if length c_str == 15
    then (do
      n ← for_loop 15 0 (λ i n. do c ← get_elem? c_str i; some (add_digit n c)) 0
      some (n, log))
    else some (old, length_error label (length c_str) ∷ log)

-- The bytes of a text of 32 digits; another length is an error, and the member keeps its bytes.
pub read_key : (label : String) (str old : List ℕ) → List Line → Option (List ℕ × List Line)
unfolding str_to_hex
read_key label str old log =
    if length str == 32
    then (do bytes ← str_to_hex str old; some (bytes, log))
    else some (old, length_error label (length str) ∷ log)

-- OPc, from OP or from its own text.
pub read_op : SrsRan → UsimArgs → Usim → Option Usim
unfolding read_key
read_op srs args u =
    if args.using_op
    then (do
      (op, log) ← read_key "Invalid length for OP: %zu should be %d" args.op u.op u.log
      let opc = if length args.op == 32 then srs.compute_opc u.k op else u.opc
      some (record u { op = op; opc = opc; log = log }))
    else (do
      (opc, log) ← read_key "Invalid length for OPc: %zu should be %d" args.opc u.opc u.log
      some (record u { opc = opc; log = log }))

pub choose_algo : List ℕ → AuthAlgo
choose_algo algo = if same_text (codes "xor") algo then auth_algo_xor else auth_algo_milenage

needs_op : AuthAlgo → Bool
needs_op auth_algo_milenage = true
needs_op auth_algo_xor = false

-- The return codes of init.
pub data ReturnCode : Type 0 where
  srsran_success srsran_error : ReturnCode

-- usim::init; `map` is what mmap gives.
pub init : SrsRan → UsimArgs → Mapping → Usim → Option (ReturnCode × Usim)
unfolding read_identity read_key read_op choose_algo needs_op
init srs args map u = do
  let algo = choose_algo args.algo
  let log = say "Shared memory for vSIM initialized successfully" ∷ u.log
  (k, log) ← read_key "Invalid length for K: %zu should be %d" args.k u.k log
  let u' : Usim = record u {
    imsi_str = args.imsi;
    imei_str = args.imei;
    shared_data = map;
    auth_algo = algo;
    k = k;
    log = log;
  }
  u' ← if needs_op algo then read_op srs args u' else some u'
  (imsi, log) ← read_identity "Invalid length for IMSI: %zu should be %d" args.imsi u'.imsi u'.log
  (imei, log) ← read_identity "Invalid length for IMEI: %zu should be %d" args.imei u'.imei log
  some (srsran_success, record u' { imsi = imsi; imei = imei; initiated = true; log = log })
