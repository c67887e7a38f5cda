-- ===== src/Milenage/Toy.antt =====
-- Concrete values for the tests: a toy cipher in the place of AES, a challenge, and arrays.
use disguise_pets.Base.{ℕ, arith, List, [], ◌∷◌, map, length-map, get_or, replicate, bit_xor, ◌∙◌}
use disguise_pets.Milenage.{Aes, Locals}
use disguise_pets.Milenage.Functions.{IsSized}
use disguise_pets.Milenage.Answer.{AnswerLocals}
use disguise_pets.Milenage.Answer.Laws.{AnswerSized}

-- Each byte is masked with the first byte of the key.
abbrev pub toy : Aes
toy = record {
  Ctx = ℕ;
  init_ctx = λ key. get_or key 3 0;
  ecb_encrypt = λ c b. map (λ x. bit_xor x c) b;
  length-ecb_encrypt = λ c b e. length-map b (λ x. bit_xor x c) ∙ e;
}

abbrev pub zeros : List ℕ
zeros = replicate 16 0

abbrev pub challenge : List ℕ
challenge = 1 ∷ 2 ∷ 3 ∷ 4 ∷ 5 ∷ 6 ∷ 7 ∷ 8 ∷ 9 ∷ 10 ∷ 11 ∷ 12 ∷ 13 ∷ 14 ∷ 15 ∷ 16 ∷ []

abbrev pub locals : Locals
locals = record { temp = zeros; out = zeros; input = zeros; in1 = zeros }

pub locals-IsSized : IsSized locals
locals-IsSized = omega arith

abbrev pub answer_locals : AnswerLocals
answer_locals = record {
  sqn = replicate 6 0;
  amf = replicate 4 0;
  ak = replicate 6 0;
  mac = replicate 8 0;
  autn = zeros;
  f2345 = locals;
  f1 = locals;
}

pub answer_locals-AnswerSized : AnswerSized answer_locals
answer_locals-AnswerSized = omega arith
