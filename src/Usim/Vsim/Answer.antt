-- ===== src/Usim/Vsim/Answer.antt =====
-- The request and the answer in the shared memory, and what srsUE takes from there.
use disguise_pets.Base.{
  ℕ, ◌≤◌, ◌≡◌, refl, arith, true, List, ◌∷◌, ◌++◌, take, drop, length, length-append, replicate,
  some, ◌∙◌,
}
use disguise_pets.Shared.{SharedData, cmd_authenticate}
use disguise_pets.Usim.{Usim, UsimSized, auth_ok, Line, say_hex}
use disguise_pets.Usim.Text.Printed.{log_hex_lem}
use disguise_pets.Hex.Laws.{hex_text}
use disguise_pets.Usim.Standard.Laws.{copy_whole}
use disguise_pets.Usim.Vsim.{Others, Interference, VsimOutcome, write_request, read_answer}
use disguise_pets.Usim.Vsim.Changing.{
  as_read, length-as_read, as_read-same, copy_changing_lem, copy_changing_whole,
}

-- The arrays have the lengths that SharedData gives them.
pub record RequestSized (s : SharedData) : Type 0 where
  pub rand_bytes : length s.auth_data.rand_bytes ≡ 16
  pub opc_bytes : length s.auth_data.opc_bytes ≡ 16
  pub autenb_bytes : length s.auth_data.autenb_bytes ≡ 16

pub record ReplySized (s : SharedData) : Type 0 where
  pub res : length s.res ≡ 8
  pub ak_xor_sqn : length s.ak_xor_sqn ≡ 6
  pub ck : length s.ck ≡ 16
  pub ik : length s.ik ≡ 16

-- The memory with a request in it.
abbrev pub requested : (rand opc autn_enb : List ℕ) → SharedData → SharedData
requested rand opc autn_enb s = record s {
  auth_data = record { rand_bytes = rand; opc_bytes = opc; autenb_bytes = autn_enb };
  command_type = cmd_authenticate;
  command_ready = true;
}

-- The outcome with the answer that the memory holds.
abbrev pub taken : Usim → List ℕ → SharedData → List Line → VsimOutcome
taken u res m log = record {
  outcome = record {
    result = auth_ok;
    usim = record u { ck = m.ck; ik = m.ik; fpga_initialized = true; log = log };
    res = m.res ++ drop 8 res;
    res_len = 8;
    ak_xor_sqn = m.ak_xor_sqn;
  };
  shared = m;
}

-- The outcome with an answer that was read while the memory m changed.
abbrev pub taken_changing :
    (copies : ℕ → ℕ → SharedData → SharedData)
    → Usim
    → List ℕ
    → SharedData
    → List Line
    → VsimOutcome
taken_changing copies u res m log = record {
  outcome = record {
    result = auth_ok;
    usim = record u {
      ck = as_read 16 0 (λ i. (copies 3 i m).ck);
      ik = as_read 16 0 (λ i. (copies 4 i m).ik);
      fpga_initialized = true;
      log = log;
    };
    res = as_read 8 0 (λ i. (copies 1 i m).res) ++ drop 8 res;
    res_len = 8;
    ak_xor_sqn = as_read 6 0 (λ i. (copies 2 i m).ak_xor_sqn);
  };
  shared = copies 5 0 m;
}

-- Nobody writes the memory between the last load and the end of the copies.
abbrev pub undisturbed : Others → Interference
undisturbed loads = record { loads = loads; copies = λ k i m. m }

-- The arrays keep their lengths while they are copied.
unfoldable pub AreSized : (copies : ℕ → ℕ → SharedData → SharedData) → SharedData → Type 0
AreSized copies m = (k i : ℕ) → ReplySized (copies k i m)

pub write_request_lem :
    (rand opc a : List ℕ) (s : SharedData)
    → RequestSized s
    → length rand ≡ 16
    → length opc ≡ 16
    → length a ≡ 16
    → write_request rand opc a s ≡ some (requested rand opc a s)
unfolding write_request
write_request_lem rand opc a s sized hr ho ha =
    rw
      (
        copy_whole 16 rand s.auth_data.rand_bytes hr sized.rand_bytes,
        copy_whole 16 opc s.auth_data.opc_bytes ho sized.opc_bytes,
        copy_whole 16 a s.auth_data.autenb_bytes ha sized.autenb_bytes,
      )
      refl

pub read_answer_lem :
    (copies : ℕ → ℕ → SharedData → SharedData) (u : Usim) (res ak_xor_sqn : List ℕ) (m : SharedData)
    (log : List Line)
    → UsimSized u
    → AreSized copies m
    → 8 ≤ length res
    → length ak_xor_sqn ≡ 6
    → (log' : List Line) × (read_answer copies u res ak_xor_sqn m log
        ≡ some (taken_changing copies u res m log'))
unfolding read_answer AreSized
read_answer_lem copies u res ak_xor_sqn m log sized reply h8 hx =
    let shown = as_read 6 0 (λ i. (copies 0 i m).ak_xor_sqn) in
    let answer = as_read 8 0 (λ i. (copies 1 i m).res) in
    let enough : 8 ≤ length (answer ++ drop 8 res) =
      omega
        (arith, length-append answer (drop 8 res), length-as_read 8 0 (λ i. (copies 1 i m).res)) in
    (
      say_hex "res (hex): %s" (hex_text (take 8 (answer ++ drop 8 res)))
          ∷ say_hex "ak_xor_sqn (hex): %s" (hex_text (take 6 shown))
          ∷ log,
      rw
          (
            copy_changing_whole 6 (λ i. (copies 0 i m).ak_xor_sqn) (replicate 6 0)
                (λ i. (reply 0 i).ak_xor_sqn) refl,
            log_hex_lem "ak_xor_sqn (hex): %s" 6 shown log
                (omega (arith, length-as_read 6 0 (λ i. (copies 0 i m).ak_xor_sqn))),
          )
          (rw
            (
              copy_changing_lem 8 (λ i. (copies 1 i m).res) res (λ i. (reply 1 i).res) h8,
              copy_changing_whole 6 (λ i. (copies 2 i m).ak_xor_sqn) ak_xor_sqn
                  (λ i. (reply 2 i).ak_xor_sqn) hx,
              copy_changing_whole 16 (λ i. (copies 3 i m).ck) u.ck (λ i. (reply 3 i).ck) sized.ck,
              copy_changing_whole 16 (λ i. (copies 4 i m).ik) u.ik (λ i. (reply 4 i).ik) sized.ik,
            )
            (rw (log_hex_lem "res (hex): %s" 8 (answer ++ drop 8 res) _ enough) refl)),
    )

-- If the memory does not change, that is the answer that it holds.
pub taken_settled :
    (copies : ℕ → ℕ → SharedData → SharedData) (u : Usim) (res : List ℕ) (m : SharedData)
    (log : List Line)
    → ReplySized m
    → ((k i : ℕ) → copies k i m ≡ m)
    → taken_changing copies u res m log ≡ taken u res m log
taken_settled copies u res m log reply still =
    let at_res : as_read 8 0 (λ i. (copies 1 i m).res) ≡ m.res =
      (λ p. as_read 8 0 (λ i. (still 1 i p).res)) ∙ as_read-same 8 m.res reply.res in
    let at_xor : as_read 6 0 (λ i. (copies 2 i m).ak_xor_sqn) ≡ m.ak_xor_sqn =
      (λ p. as_read 6 0 (λ i. (still 2 i p).ak_xor_sqn))
      ∙ as_read-same 6 m.ak_xor_sqn reply.ak_xor_sqn in
    let at_ck : as_read 16 0 (λ i. (copies 3 i m).ck) ≡ m.ck =
      (λ p. as_read 16 0 (λ i. (still 3 i p).ck)) ∙ as_read-same 16 m.ck reply.ck in
    let at_ik : as_read 16 0 (λ i. (copies 4 i m).ik) ≡ m.ik =
      (λ p. as_read 16 0 (λ i. (still 4 i p).ik)) ∙ as_read-same 16 m.ik reply.ik in
    λ p. record {
      outcome = record {
        result = auth_ok;
        usim = record u { ck = at_ck p; ik = at_ik p; fpga_initialized = true; log = log };
        res = at_res p ++ drop 8 res;
        res_len = 8;
        ak_xor_sqn = at_xor p;
      };
      shared = still 5 0 p;
    }

pub with_log : (u : Usim) (log : List Line) → UsimSized u → UsimSized (record u { log = log })
with_log u log sized = record {
  k = sized.k;
  opc = sized.opc;
  ck = sized.ck;
  ik = sized.ik;
  ak = sized.ak;
  mac = sized.mac;
  amf = sized.amf;
  autn = sized.autn;
}
