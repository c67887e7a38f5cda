-- ===== src/Auth/Tests.antt =====
-- The program on one challenge, with a toy cipher.
use disguise_pets.Base.{
  ℕ, ◌+◌, ◌*◌, ◌≡◌, refl, arith, List, [], ◌∷◌, ◌++◌, replicate, length, take, true,
}
use disguise_pets.Milenage.Spec
use disguise_pets.Milenage.Answer.{subscriber_key}
use disguise_pets.Milenage.Toy.{toy, zeros, challenge, answer_locals, answer_locals-AnswerSized}
use disguise_pets.Enclave.{World, exit, fault, codes}
use disguise_pets.Report.Laws.{Texts, AreTexts, elapsed_reported}
use disguise_pets.Runtime.{timeval_of_cycles}
use disguise_pets.Timing.Laws.{difference}
use disguise_pets.Auth.{EntryLocals, eapp_entry}
use disguise_pets.Auth.Steps.{waiting}
use disguise_pets.Auth.Laws.{Serves, LocalsSized, eapp_entry_lem, short_challenge_faults}

abbrev locals : EntryLocals
locals = record {
  res_o = replicate 8 5;
  ak_xor_sqn = replicate 6 5;
  debug = replicate 100 5;
  answer = answer_locals;
}

locals-LocalsSized : LocalsSized locals
locals-LocalsSized = record {
  res_o = refl;
  ak_xor_sqn = refl;
  debug = refl;
  answer = answer_locals-AnswerSized;
}

-- RAND, OPc and AUTN.
abbrev message : List ℕ
message = challenge ++ zeros ++ challenge

abbrev world : List ℕ → World
world m = record {
  inbox = m ∷ [];
  sent = [];
  clock = λ n. 1000 * n + 100;
  readings = 0;
  heap_ok = λ n. true;
  allocations = 0;
  fresh = λ n. 9;
}

world-Serves : Serves (world message) message
world-Serves = record {
  rest = [];
  inbox = refl;
  copy_ok = refl;
  reply_ok = refl;
  early_start = omega arith;
  early_end = omega arith;
  forward = omega arith;
}

abbrev E : List ℕ → List ℕ
E = toy.ecb_encrypt (toy.init_ctx subscriber_key)

abbrev payload : List ℕ
payload =
    Spec.res E zeros challenge
    ++ take 6 challenge
    ++ Spec.ck E zeros challenge
    ++ Spec.ik E zeros challenge

eapp_entry_lem_example :
    (t : Texts) × (w' : World) × (eapp_entry toy locals (world message) ≡ exit 0 w')
    × AreTexts (difference (timeval_of_cycles 100) (timeval_of_cycles 1100)) t
    × (w'.sent
        ≡ record { call = 7; payload = payload }
          ∷ elapsed_reported (codes "MilliSecond: ") t (waiting ∷ []))
    × (length payload ≡ 46)
eapp_entry_lem_example =
    eapp_entry_lem toy locals (world message) message locals-LocalsSized world-Serves (omega arith)

short_challenge_faults_example : eapp_entry toy locals (world challenge) ≡ fault
short_challenge_faults_example =
    short_challenge_faults toy locals (world challenge) challenge [] refl (omega arith)
