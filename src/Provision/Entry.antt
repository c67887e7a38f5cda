-- ===== src/Provision/Entry.antt =====
-- What the provisioning program prints once the channel is set up, and how it ends.
use disguise_pets.Base.{ℕ, ◌+◌, ◌≤◌, ◌<◌, ◌≡◌, ◌^◌, refl, arith, List, [], ◌∷◌, length}
use disguise_pets.Channel.{Keys}
use disguise_pets.Enclave.{
  World, Event, ok, exit, codes, ocall, ocall_print_string, ocall_wait, gettimeofday,
}
use disguise_pets.Provision.{
  Platform, ProvisionLocals, establish_secure_channel, provision_entry, test_with_real_delay,
}
use disguise_pets.Report.{report_delay}
use disguise_pets.Report.Laws.{Texts, AreTexts, printed, elapsed_reported, report_delay_lem}
use disguise_pets.Runtime.{Timeval, timeval_of_cycles}
use disguise_pets.Runtime.Clock.{usec_of}
use disguise_pets.Timing.Laws.{difference}

-- The start is not later than the end, and both are times of the clock before it wraps.
pub record IsDelay (start end : Timeval) : Type 0 where
  pub start_usec : start.tv_usec < 1000000
  pub end_usec : end.tv_usec < 1000000
  pub forward : usec_of start ≤ usec_of end
  pub early : usec_of end < 2 ^ 63

-- The report of one delay.
reported_delay :
    (label debug : List ℕ) (start end : Timeval) (w : World)
    → IsDelay start end
    → length debug ≡ 100
    → (t : Texts) × (debug' : List ℕ) × (report_delay label start end debug w
        ≡ ok debug' (record w { sent = elapsed_reported label t w.sent }))
      × AreTexts (difference start end) t
reported_delay label debug start end w d size =
    let (t, debug', run, texts, room) =
      report_delay_lem label debug start end w d.start_usec d.end_usec d.forward d.early
        (omega (arith, size)) in
    (t, debug', run, texts)

-- The world after the first line and the first reading of the clock.
abbrev pub begun : World → World
begun w = record w {
  sent = printed (codes "Establishing Secure Channel with Provider\n") ∷ w.sent;
  readings = w.readings + 1;
}

abbrev pub waited : Event
waited = record { call = 8; payload = [] }

-- The n-th reading of the clock.
abbrev pub reading : World → ℕ → Timeval
reading w n = timeval_of_cycles (w.clock n)

-- If establish_secure_channel returns, the three pairs of times are delays that the clock measured
-- before it wrapped, and the three text buffers have their 100 bytes, then the program ends with
-- code 0, after it has printed the decimal texts of the whole delay and of the attestation's,
-- called the host to wait, and printed the texts of that delay.
pub provision_entry_lem :
    (p : Platform) (l : ProvisionLocals) (g : Keys) (w v : World) (en_start en_end : Timeval)
    → establish_secure_channel p l g (begun w) ≡ ok (en_start, en_end) v
    → IsDelay (reading w w.readings) (reading v v.readings)
    → IsDelay en_start en_end
    → IsDelay (reading v (v.readings + 1)) (reading v (v.readings + 1 + 1))
    → length l.debug ≡ 100
    → length l.en_debug ≡ 100
    → length l.delay_debug ≡ 100
    → (whole : Texts) × (attestation : Texts) × (wait : Texts) × (w' : World) × (provision_entry p l
          g w
        ≡ exit 0 w')
      × AreTexts (difference (reading w w.readings) (reading v v.readings)) whole
      × AreTexts (difference en_start en_end) attestation
      × AreTexts (difference (reading v (v.readings + 1)) (reading v (v.readings + 1 + 1))) wait
      × (w'.sent
          ≡ elapsed_reported (codes "Sleep test (should be ~12345ms): ") wait (
              waited
              ∷ elapsed_reported (codes "Milliseconds: ") attestation (
                  printed (codes "Attestation Results: \n")
                  ∷ elapsed_reported
                      (codes "Milliseconds: ")
                      whole
                      (printed (codes "Results: \n") ∷ v.sent))))
unfolding provision_entry test_with_real_delay gettimeofday ocall_wait ocall_print_string ocall
provision_entry_lem p l g w v en_start en_end up d1 d2 d3 s1 s2 s3 =
    let v1 = record v {
      readings = v.readings + 1;
      sent = printed (codes "Results: \n") ∷ v.sent;
    } in
    let (t1, b1, run1, texts1) = reported_delay (codes "Milliseconds: ") l.debug _ _ v1 d1 s1 in
    let v2 = record v1 {
      sent =
          printed (codes "Attestation Results: \n")
          ∷ elapsed_reported (codes "Milliseconds: ") t1 v1.sent;
    } in
    let (t2, b2, run2, texts2) = reported_delay (codes "Milliseconds: ") l.en_debug _ _ v2 d2 s2 in
    let v3 = record v2 {
      readings = v.readings + 1 + 1 + 1;
      sent = waited ∷ elapsed_reported (codes "Milliseconds: ") t2 v2.sent;
    } in
    let (t3, b3, run3, texts3) =
      reported_delay (codes "Sleep test (should be ~12345ms): ") l.delay_debug _ _ v3 d3 s3 in
    (
      t1,
      t2,
      t3,
      record v3 { sent = elapsed_reported (codes "Sleep test (should be ~12345ms): ") t3 v3.sent },
      rw up (rw run1 (rw run2 (rw run3 refl))),
      texts1,
      texts2,
      texts3,
      refl,
    )
