-- ===== src/Usim/Toy.antt =====
-- Concrete values for the tests: Milenage over the toy cipher in the place of srsRAN's functions, a
-- class and a shared memory.
use disguise_pets.Base.{
  ℕ, ◌≡◌, refl, arith, false, List, [], take, length, length-take, replicate, length-replicate,
  get_or, ◌∙◌, sym,
}
use disguise_pets.Milenage.Toy.{toy, zeros, challenge}
use disguise_pets.Milenage.Spec.{xor, length-xor}
use disguise_pets.Milenage.Spec
use disguise_pets.Milenage.Functions.{
  length-res, length-ck, length-ik, length-out_block, length-mac_a,
}
use disguise_pets.Shared.{SharedData, cmd_none}
use disguise_pets.Usim.{Usim, UsimSized, SrsRan, SrsRanSized, auth_algo_milenage, mapped}
use disguise_pets.Usim.Response.{Locals}
use disguise_pets.Usim.Response.Laws.{LocalsSized, KeysSized}
use disguise_pets.Usim.Vsim.Answer.{RequestSized, ReplySized}

abbrev cipher : List ℕ → List ℕ → List ℕ
cipher k = toy.ecb_encrypt (toy.init_ctx k)

-- A key that its first byte fills.
abbrev key_of : List ℕ → List ℕ
key_of ck = replicate 32 (get_or ck 0 0)

abbrev pub toy_srs : SrsRan
toy_srs = record {
  security_milenage_f2345 = λ k opc rand. record {
    res = Spec.res (cipher k) opc rand;
    ck = Spec.ck (cipher k) opc rand;
    ik = Spec.ik (cipher k) opc rand;
    ak = Spec.ak (cipher k) opc rand;
  };
  security_milenage_f1 = λ k opc rand sqn amf. Spec.mac_a (cipher k) opc rand sqn amf;
  security_xor_f2345 = λ k rand. record {
    res = xor k rand;
    ck = xor k rand;
    ik = xor k rand;
    ak = take 6 (xor k rand);
  };
  security_xor_f1 = λ k rand sqn amf. take 8 (xor k rand);
  compute_opc = λ k op. xor op k;
  security_generate_k_asme = λ ck ik x mcc mnc. key_of ck;
  security_generate_res_star = λ ck ik name rand res n. replicate 16 (get_or res 0 0);
  security_generate_k_ausf = λ ck ik x name. key_of ck;
  security_generate_k_seaf = λ k name. key_of k;
  security_generate_k_amf = λ k imsi abba n. key_of k;
}

pub toy_srs-SrsRanSized : SrsRanSized toy_srs
unfolding Spec.ak
toy_srs-SrsRanSized = record {
  milenage_f2345 = λ k opc rand ho hr. record {
    res = length-res toy k opc rand ho hr;
    ck = length-ck toy k opc rand ho hr;
    ik = length-ik toy k opc rand ho hr;
    ak = omega (
      arith,
      length-take 6 (Spec.out_block (cipher k) opc rand 0 1),
      length-out_block toy k opc rand ho hr 0 1 (omega arith),
    );
  };
  milenage_f1 = λ k opc rand sqn amf ho hr hs ha. length-mac_a toy k opc rand ho hr sqn amf hs ha;
  xor_f2345 = λ k rand hk hr.
      let h : length (xor k rand) ≡ 16 = length-xor k rand (hk ∙ sym hr) ∙ hr in
      record { res = h; ck = h; ik = h; ak = omega (arith, length-take 6 (xor k rand), h) };
  xor_f1 = λ k rand sqn amf hk hr hs ha.
      let h : length (xor k rand) ≡ 16 = length-xor k rand (hk ∙ sym hr) ∙ hr in
      omega (arith, length-take 8 (xor k rand), h);
}

pub toy_srs-KeysSized : KeysSized toy_srs
toy_srs-KeysSized = record {
  k_asme = λ ck ik x mcc mnc. length-replicate 32 (get_or ck 0 0);
  res_star = λ ck ik name rand res n. length-replicate 16 (get_or res 0 0);
  k_ausf = λ ck ik x name. length-replicate 32 (get_or ck 0 0);
  k_seaf = λ k name. length-replicate 32 (get_or k 0 0);
  k_amf = λ k imsi abba n. length-replicate 32 (get_or k 0 0);
}

abbrev pub usim : Usim
usim = record {
  k = challenge;
  op = zeros;
  opc = zeros;
  ck = zeros;
  ik = zeros;
  ak = replicate 6 0;
  mac = replicate 8 0;
  amf = replicate 2 0;
  autn = zeros;
  imsi = 0;
  imei = 0;
  imsi_str = [];
  imei_str = [];
  auth_algo = auth_algo_milenage;
  shared_data = mapped;
  initiated = false;
  fpga_initialized = false;
  log = [];
}

pub usim-UsimSized : UsimSized usim
usim-UsimSized = record {
  k = refl;
  opc = refl;
  ck = refl;
  ik = refl;
  ak = refl;
  mac = refl;
  amf = refl;
  autn = refl;
}

abbrev pub locals : Locals
locals = record {
  ak_xor_sqn = replicate 6 5;
  sqn = replicate 6 5;
  res_ = zeros;
  res = zeros;
  res_len = 5;
  k_ausf = replicate 32 5;
  k_seaf = replicate 32 5;
}

pub locals-LocalsSized : LocalsSized locals
locals-LocalsSized = record {
  ak_xor_sqn = refl;
  sqn = refl;
  res = refl;
  k_ausf = refl;
  k_seaf = refl;
}

-- The memory as main leaves it.
abbrev pub memory : SharedData
memory = record {
  command_ready = false;
  response_ready = false;
  auth_response_ready = false;
  command_type = cmd_none;
  auth_data = record { rand_bytes = zeros; opc_bytes = zeros; autenb_bytes = zeros };
  res = replicate 8 0;
  ak_xor_sqn = replicate 6 0;
  ck = zeros;
  ik = zeros;
  response = [];
}

pub memory-RequestSized : RequestSized memory
memory-RequestSized = record { rand_bytes = refl; opc_bytes = refl; autenb_bytes = refl }

pub memory-ReplySized : ReplySized memory
memory-ReplySized = record { res = refl; ak_xor_sqn = refl; ck = refl; ik = refl }
