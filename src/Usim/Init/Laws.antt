-- ===== src/Usim/Init/Laws.antt =====
-- What init makes of a configuration.
use mathlib.Core.List.{append_assoc}
use mathlib.Core.Path.{subst}
use disguise_pets.Base.{
  ℕ, zero, suc, ◌+◌, ◌-◌, ◌*◌, ◌^◌, ◌<◌, ◌≤◌, ◌≡◌, ◌≢◌, refl, arith, true, false, List, [], ◌∷◌,
  ◌++◌, length, length-append, some, get_elem?, ltb, ◌==◌, ap, ◌∙◌, sym, ◌>>=◌,
}
use disguise_pets.Base.Arrays.{for_loop, get_elem?-append}
use disguise_pets.Enclave.{codes}
use disguise_pets.Usim.{
  Usim, UsimSized, SrsRan, auth_algo_milenage, Mapping, Line, say, length_error,
}
use disguise_pets.Usim.Text.{same_text}
use disguise_pets.Usim.Text.Read.{IsHexOf, str_to_hex_lem, length-IsHexOf}
use disguise_pets.Usim.Init.{
  UsimArgs, add_digit, read_identity, read_key, read_op, choose_algo, needs_op, init,
  srsran_success,
}
use Prim.Native.String.{String}

-- A text of decimal digits, and the number that it continues.
abbrev pub AreDecimal : List ℕ → Type 0
AreDecimal [] = Unit {0}
AreDecimal (c ∷ cs) = (b'0' ≤ c) × (c ≤ b'9') × AreDecimal cs

abbrev pub value_of : (n : ℕ) → List ℕ → ℕ
value_of n [] = n
value_of n (c ∷ cs) = value_of (n * 10 + (c - b'0')) cs

add_digit_lem : (n c : ℕ) → n < 10 ^ 15 → b'0' ≤ c → c ≤ b'9' → add_digit n c ≡ n * 10 + (c - b'0')
unfolding add_digit
add_digit_lem n c small lo hi =
    let ascii : ltb c 128 ≡ true = ground arith in rw ascii (omega arith)

-- A bound that stays below 10 ^ 15 when it grows by k digits.
abbrev Fits : (bound k : ℕ) → Type 0
Fits bound zero = bound ≤ 10 ^ 15
Fits bound (suc k) = Fits (bound * 10) k

Fits-le : (bound k : ℕ) → Fits bound k → bound ≤ 10 ^ 15
Fits-le bound zero h = h
Fits-le bound (suc k) h = omega (arith, Fits-le (bound * 10) k h)

identity_loop :
    (cs before : List ℕ) (i n bound : ℕ)
    → AreDecimal cs
    → length before ≡ i
    → n < bound
    → Fits bound (length cs)
    → (for_loop (length cs) i (λ i n. do c ← get_elem? (before ++ cs) i; some (add_digit n c)) n
        ≡ some (value_of n cs))
      × (value_of n cs < 10 ^ 15)
identity_loop [] before i n bound d e lt fits = (refl, omega arith)
identity_loop (c ∷ cs) before i n bound d e lt fits =
    let small = Fits-le (bound * 10) (length cs) fits in
    let digit = add_digit_lem n c (omega arith) d.0 d.1 in
    let (rest, le) =
      identity_loop cs (before ++ c ∷ []) (i + 1) (n * 10 + (c - b'0')) (bound * 10) d.2
        (omega (arith, length-append before (c ∷ []))) (omega (arith, d.0, d.1)) fits in
    (
      rw (get_elem?-append before cs c i e, digit)
          (ap
              (λ s.
                for_loop (length cs) (i + 1) (λ i n. do c ← get_elem? s i; some (add_digit n c))
                  (n * 10 + (c - b'0')))
              (sym (append_assoc before (c ∷ []) cs))
            ∙ rest),
      le,
    )

read_identity_lem :
    (label : String) (cs : List ℕ) (old : ℕ) (log : List Line)
    → length cs ≡ 15
    → AreDecimal cs
    → (read_identity label cs old log ≡ some (value_of 0 cs, log)) × (value_of 0 cs < 10 ^ 15)
unfolding read_identity
read_identity_lem label cs old log size decimal =
    let enough : (length cs == 15) ≡ true = ground (arith, size) in
    let fits : Fits 1 (length cs) = subst (Fits 1) (sym size) (omega arith) in
    let (run, small) = identity_loop cs [] 0 0 1 decimal refl (omega arith) fits in
    let read =
      ap (λ k. for_loop k 0 (λ i n. do c ← get_elem? cs i; some (add_digit n c)) 0) (sym size)
      ∙ run in
    (rw enough (rw read refl), small)

read_key_lem :
    (label : String) (str bytes old : List ℕ) (log : List Line)
    → IsHexOf str bytes
    → length bytes ≡ 16
    → length old ≡ 16
    → read_key label str old log ≡ some (bytes, log)
unfolding read_key
read_key_lem label str bytes old log digits hb ho =
    let enough : (length str == 32) ≡ true = ground (arith, length-IsHexOf str bytes digits, hb) in
    rw enough (rw (str_to_hex_lem str bytes old digits (omega arith)) refl)

-- A configuration with Milenage, OPc and texts of the right lengths, in hexadecimal and decimal digits:
-- init returns SRSRAN_SUCCESS, stores the bytes of K and OPc and the numbers of IMSI and IMEI, each below 10 ^ 15, and logs no
-- error.
pub init_lem :
    (srs : SrsRan) (args : UsimArgs) (map : Mapping) (u : Usim) (k opc : List ℕ)
    → UsimSized u
    → same_text (codes "xor") args.algo ≡ false
    → args.using_op ≡ false
    → IsHexOf args.k k
    → length k ≡ 16
    → IsHexOf args.opc opc
    → length opc ≡ 16
    → length args.imsi ≡ 15
    → AreDecimal args.imsi
    → length args.imei ≡ 15
    → AreDecimal args.imei
    → (init srs args map u
        ≡ some (
          srsran_success,
          record u {
            imsi_str = args.imsi;
            imei_str = args.imei;
            shared_data = map;
            auth_algo = auth_algo_milenage;
            k = k;
            opc = opc;
            imsi = value_of 0 args.imsi;
            imei = value_of 0 args.imei;
            initiated = true;
            log = say "Shared memory for vSIM initialized successfully" ∷ u.log;
          },
        ))
      × (value_of 0 args.imsi < 10 ^ 15)
      × (value_of 0 args.imei < 10 ^ 15)
unfolding init read_op choose_algo needs_op
init_lem srs args map u k opc sized algo own key hk op ho i15 imsi e15 imei =
    let log = say "Shared memory for vSIM initialized successfully" ∷ u.log in
    let (ri, li) =
      read_identity_lem "Invalid length for IMSI: %zu should be %d" args.imsi u.imsi log i15 imsi in
    let (re, le) =
      read_identity_lem "Invalid length for IMEI: %zu should be %d" args.imei u.imei log e15 imei in
    (
      rw
          (
            algo,
            read_key_lem "Invalid length for K: %zu should be %d" args.k k u.k log key hk sized.k,
          )
          (rw own (
            rw
              (read_key_lem "Invalid length for OPc: %zu should be %d" args.opc opc u.opc log op ho
                sized.opc)
              (rw ri (rw re refl)))),
      li,
      le,
    )

-- With Milenage and OPc, a configuration in which no text has the right length is accepted all the
-- same: init logs four errors and returns SRSRAN_SUCCESS, with K, OPc, IMSI and IMEI as they were before.
pub init_ignores_lengths :
    (srs : SrsRan) (args : UsimArgs) (map : Mapping) (u : Usim)
    → same_text (codes "xor") args.algo ≡ false
    → args.using_op ≡ false
    → length args.k ≢ 32
    → length args.opc ≢ 32
    → length args.imsi ≢ 15
    → length args.imei ≢ 15
    → (u' : Usim) × (init srs args map u ≡ some (srsran_success, u'))
      × (u'.initiated ≡ true)
      × (u'.k ≡ u.k)
      × (u'.opc ≡ u.opc)
      × (u'.imsi ≡ u.imsi)
      × (u'.imei ≡ u.imei)
      × (u'.log
          ≡ length_error "Invalid length for IMEI: %zu should be %d" (length args.imei)
            ∷ length_error "Invalid length for IMSI: %zu should be %d" (length args.imsi)
            ∷ length_error "Invalid length for OPc: %zu should be %d" (length args.opc)
            ∷ length_error "Invalid length for K: %zu should be %d" (length args.k)
            ∷ say "Shared memory for vSIM initialized successfully"
            ∷ u.log)
unfolding init read_op choose_algo needs_op read_key read_identity
init_ignores_lengths srs args map u algo own hk ho hi he =
    let not_equal : (a b : ℕ) → a ≢ b → (a == b) ≡ false = λ a b ne. ground (arith, ne) in
    (
      after,
      rw
          (
            algo,
            not_equal (length args.k) 32 hk,
            not_equal (length args.imsi) 15 hi,
            not_equal (length args.imei) 15 he,
          )
          (rw own (rw (not_equal (length args.opc) 32 ho) refl)),
      refl,
      refl,
      refl,
      refl,
      refl,
      refl,
    )
  where
    after : Usim
    after = record u {
      imsi_str = args.imsi;
      imei_str = args.imei;
      shared_data = map;
      auth_algo = auth_algo_milenage;
      initiated = true;
      log =
          length_error "Invalid length for IMEI: %zu should be %d" (length args.imei)
          ∷ length_error "Invalid length for IMSI: %zu should be %d" (length args.imsi)
          ∷ length_error "Invalid length for OPc: %zu should be %d" (length args.opc)
          ∷ length_error "Invalid length for K: %zu should be %d" (length args.k)
          ∷ say "Shared memory for vSIM initialized successfully"
          ∷ u.log;
    }
