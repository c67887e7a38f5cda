-- ===== src/Auth/Laws.antt =====
-- What the program does with a challenge.
use disguise_pets.Base.{
  ℕ, ◌+◌, ◌≤◌, ◌<◌, ◌≡◌, refl, arith, List, ◌∷◌, ◌++◌, some, length, length-take, length-drop, take,
  drop, true, ap, ◌∙◌, length-append,
}
use disguise_pets.Base.Arrays.{elements}
use disguise_pets.Milenage.{Aes, success}
use disguise_pets.Milenage.Answer.{Answer, gen_auth_res_milenage, subscriber_key}
use disguise_pets.Milenage.Answer.Laws.{AnswerSized, gen_auth_res_milenage_lem}
use disguise_pets.Milenage.Spec
use disguise_pets.Milenage.Functions.{length-res, length-ck, length-ik}
use disguise_pets.Enclave.{World, ok, exit, fault, codes}
use disguise_pets.Runtime.{Timeval, timeval_of_cycles}
use disguise_pets.Runtime.Clock.{IsEarly, timeval_of_cycles_lem}
use disguise_pets.Timing.Laws.{difference}
use disguise_pets.Report.{report_delay}
use disguise_pets.Report.Laws.{Texts, AreTexts, elapsed_reported, report_delay_lem}
use disguise_pets.Auth.{EntryLocals, eapp_entry, zeros}
use disguise_pets.Auth.Steps.{waiting, measured, send_reply_lem, run_of_parts, delivered_faults}

-- The environment in which the answer is computed: the host delivers the challenge m, memory suffices,
-- and the clock has not wrapped at the two readings and does not run backwards.
pub record Serves (w : World) (m : List ℕ) : Type 0 where
  pub rest : List (List ℕ)
  pub inbox : w.inbox ≡ m ∷ rest
  pub copy_ok : w.heap_ok w.allocations ≡ true
  pub reply_ok : w.heap_ok (w.allocations + 1) ≡ true
  pub early_start : IsEarly (w.clock w.readings)
  pub early_end : IsEarly (w.clock (w.readings + 1))
  pub forward : w.clock w.readings ≤ w.clock (w.readings + 1)

pub record LocalsSized (l : EntryLocals) : Type 0 where
  pub res_o : length l.res_o ≡ 8
  pub ak_xor_sqn : length l.ak_xor_sqn ≡ 6
  pub debug : length l.debug ≡ 100
  pub answer : AnswerSized l.answer

length-payload :
    (r x c i : List ℕ)
    → length r ≡ 8
    → length x ≡ 6
    → length c ≡ 16
    → length i ≡ 16
    → length (r ++ x ++ c ++ i) ≡ 46
length-payload r x c i hr hx hc hi =
    omega (arith, length-append (r ++ x ++ c) i, length-append (r ++ x) c, length-append r x)

-- A delay that the clock measures before it wraps is printed.
clock_reported :
    (label debug : List ℕ) (c d : ℕ) (w : World)
    → IsEarly c
    → IsEarly d
    → c ≤ d
    → 22 ≤ length debug
    → let start = timeval_of_cycles c in
      let end = timeval_of_cycles d in
      (t : Texts) × (debug' : List ℕ) × (report_delay label start end debug w
        ≡ ok debug' (record w { sent = elapsed_reported label t w.sent }))
      × AreTexts (difference start end) t
      × (22 ≤ length debug')
clock_reported label debug c d w hc hd le room =
    let (cu, cs) = timeval_of_cycles_lem c hc in
    let (du, ds) = timeval_of_cycles_lem d hd in
    report_delay_lem label debug (timeval_of_cycles c) (timeval_of_cycles d) w cu du
      (omega (arith, cs, ds)) (omega (arith, ds)) room

-- A challenge of at least 48 bytes is answered, if both allocations succeed, the local arrays have
-- the lengths that they are declared with, and the clock has not wrapped at its two readings and
-- does not run backwards: the program ends with code 0, and its last call of the host carries RES,
-- the first six bytes of AUTN, CK and IK, 46 bytes in all. Before that it waited for the challenge
-- and printed the decimal texts of the measured delay, and it made no other call.
pub eapp_entry_lem :
    (aes : Aes) (l : EntryLocals) (w : World) (m : List ℕ)
    → LocalsSized l
    → Serves w m
    → 48 ≤ length m
    → let E = aes.ecb_encrypt (aes.init_ctx subscriber_key) in
      let rand = take 16 m in
      let opc = take 16 (drop 16 m) in
      let autn = take 16 (drop 32 m) in
      let start = timeval_of_cycles (w.clock w.readings) in
      let end = timeval_of_cycles (w.clock (w.readings + 1)) in
      let payload =
        Spec.res E opc rand ++ take 6 autn ++ Spec.ck E opc rand ++ Spec.ik E opc rand in
      (t : Texts) × (w' : World) × (eapp_entry aes l w ≡ exit 0 w')
      × AreTexts (difference start end) t
      × (w'.sent
          ≡ record { call = 7; payload = payload }
            ∷ elapsed_reported (codes "MilliSecond: ") t (waiting ∷ w.sent))
      × (length payload ≡ 46)
eapp_entry_lem aes l w m sized s h =
    let (t, debug', printed, texts, room) =
      clock_reported (codes "MilliSecond: ") l.debug (w.clock w.readings) (w.clock (w.readings + 1))
        (measured aes l w m s.rest) s.early_start s.early_end s.forward
        (omega (arith, sized.debug)) in
    let sent = elapsed_reported (codes "MilliSecond: ") t (waiting ∷ w.sent) in
    let run =
      run_of_parts aes l w m s.rest res x ck ik debug' sent s.copy_ok s.reply_ok h answered printed
        (send_reply_lem answer (elements 92 w.fresh) _ h8 h6 h16 h16' refl) in
    (
      t,
      _,
      ap (λ inbox. eapp_entry aes l (record w { inbox = inbox })) s.inbox ∙ run,
      texts,
      refl,
      length-payload res x ck ik h8 h6 h16 h16',
    )
  where
    E : List ℕ → List ℕ
    E = aes.ecb_encrypt (aes.init_ctx subscriber_key)

    rand : List ℕ
    rand = take 16 m

    opc : List ℕ
    opc = take 16 (drop 16 m)

    autn : List ℕ
    autn = take 16 (drop 32 m)

    h_rand : length rand ≡ 16
    h_rand = omega (arith, length-take 16 m)

    h_opc : length opc ≡ 16
    h_opc = omega (arith, length-take 16 (drop 16 m), length-drop 16 m)

    h_autn : length autn ≡ 16
    h_autn = omega (arith, length-take 16 (drop 32 m), length-drop 32 m)

    start : Timeval
    start = timeval_of_cycles (w.clock w.readings)

    end : Timeval
    end = timeval_of_cycles (w.clock (w.readings + 1))

    res : List ℕ
    res = Spec.res E opc rand

    x : List ℕ
    x = take 6 autn

    ck : List ℕ
    ck = Spec.ck E opc rand

    ik : List ℕ
    ik = Spec.ik E opc rand

    answer : Answer
    answer = record { code = success; res = res; ak_xor_sqn = x; ck = ck; ik = ik }

    h8 : length res ≡ 8
    h8 = length-res aes subscriber_key opc rand h_opc h_rand

    h6 : length x ≡ 6
    h6 = omega (arith, length-take 6 autn, h_autn)

    h16 : length ck ≡ 16
    h16 = length-ck aes subscriber_key opc rand h_opc h_rand

    h16' : length ik ≡ 16
    h16' = length-ik aes subscriber_key opc rand h_opc h_rand

    answered :
        gen_auth_res_milenage aes l.answer opc rand autn l.res_o l.ak_xor_sqn zeros zeros
        ≡ some answer
    answered =
        gen_auth_res_milenage_lem aes l.answer opc rand autn l.res_o l.ak_xor_sqn zeros zeros
          sized.answer h_opc h_rand h_autn sized.res_o sized.ak_xor_sqn refl refl

-- A challenge of fewer than 48 bytes makes the program read beyond its copy of the message, since
-- the message's size is never compared with the 48 bytes that are taken from it: the run is
-- undefined.
pub short_challenge_faults :
    (aes : Aes) (l : EntryLocals) (w : World) (m : List ℕ) (rest : List (List ℕ))
    → w.inbox ≡ m ∷ rest
    → length m < 48
    → eapp_entry aes l w ≡ fault
short_challenge_faults aes l w m rest e h =
    ap (λ inbox. eapp_entry aes l (record w { inbox = inbox })) e
    ∙ delivered_faults aes l w m rest h
