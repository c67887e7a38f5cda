-- ===== src/Report/Laws.antt =====
-- What a report prints.
use disguise_pets.Base.{
  ◌≡◌, length, ap, ◌≤◌, length-append, List, length-drop, [], drop, ◌++◌, ◌==◌, false, refl, arith,
  ◌+◌, ◌^◌, ◌<◌, ◌∷◌, ℕ, ℕ_discrete, true,
}
use disguise_pets.Base.Int.{ℤ}
use disguise_pets.Decimal.Digits.{IsDigit, All}
use disguise_pets.Decimal.Laws.{IsDecimal, IsNegatable, ltoa-IsDecimal, unsigned}
use disguise_pets.Enclave.{World, Event, ok, ocall_print_string, c_string, codes}
use disguise_pets.Report.{report, report_elapsed, report_delay, newline}
use disguise_pets.Timing.{Elapsed}
use disguise_pets.Timing.Laws.{difference, elapsed_lem}
use disguise_pets.Runtime.{Timeval}
use disguise_pets.Runtime.Clock.{usec_of}

abbrev pub printed : List ℕ → Event
printed text = record { call = 1; payload = text ++ 0 ∷ [] }

-- The events of one report, newest first.
abbrev pub reported : (label text : List ℕ) → List Event → List Event
reported label text rest = printed newline ∷ printed text ∷ printed label ∷ rest

c_string-digits : (ds r : List ℕ) → All IsDigit ds → c_string (ds ++ 0 ∷ r) ≡ ds
c_string-digits [] r h = refl
c_string-digits (d ∷ ds) r h =
    let test : (d == 0) ≡ false = ground arith in rw test (ap (◌∷◌ d) (c_string-digits ds r h.1))

c_string-text : (text r : List ℕ) → All IsDigit (unsigned text) → c_string (text ++ 0 ∷ r) ≡ text
c_string-text [] r h = refl
c_string-text (c ∷ cs) r h = elim (ℕ_discrete c b'-') [
  | yes sign ↦
      let test : (c == b'-') ≡ true = ground arith in
      let zero_test : (c == 0) ≡ false = ground arith in
      rw zero_test (ap (◌∷◌ c) (c_string-digits cs r (rw test at h)))
  | no digit ↦
      let test : (c == b'-') ≡ false = ground arith in c_string-digits (c ∷ cs) r (rw test at h)
]

pub report_lem :
    (label debug : List ℕ) (num : ℤ) (w : World)
    → IsNegatable num
    → 22 ≤ length debug
    → (text debug' : List ℕ) × (report label num debug w
        ≡ ok debug' (record w { sent = reported label text w.sent }))
      × IsDecimal num text
      × (22 ≤ length debug')
unfolding report ocall_print_string
report_lem label debug num w fits room =
    let (text, run, decimal) = ltoa-IsDecimal num debug fits room in
    (
      text,
      text ++ 0 ∷ drop (length text + 1) debug,
      rw run (rw (c_string-text text (drop (length text + 1) debug) decimal.all_digits)),
      decimal,
      omega (
        arith,
        length-append text (0 ∷ drop (length text + 1) debug),
        length-drop (length text + 1) debug,
        decimal.short,
      ),
    )

-- The three texts of a delay, and its events, newest first.
pub record Texts : Type 0 where
  pub seconds : List ℕ
  pub microseconds : List ℕ
  pub milliseconds : List ℕ

pub record AreTexts (e : Elapsed) (t : Texts) : Type 0 where
  pub seconds : IsDecimal e.seconds t.seconds
  pub microseconds : IsDecimal e.microseconds t.microseconds
  pub milliseconds : IsDecimal e.milliseconds t.milliseconds

abbrev pub elapsed_reported : (label_ms : List ℕ) → Texts → List Event → List Event
elapsed_reported label_ms t rest =
    reported label_ms t.milliseconds (
      reported (codes "Microseconds: ") t.microseconds
        (reported (codes "Seconds: ") t.seconds rest))

-- A delay that ltoa can print is printed as three decimal numbers under their labels.
pub report_elapsed_lem :
    (label_ms debug : List ℕ) (e : Elapsed) (w : World)
    → IsNegatable e.seconds
    → IsNegatable e.microseconds
    → IsNegatable e.milliseconds
    → 22 ≤ length debug
    → (t : Texts) × (debug' : List ℕ) × (report_elapsed label_ms e debug w
        ≡ ok debug' (record w { sent = elapsed_reported label_ms t w.sent }))
      × AreTexts e t
      × (22 ≤ length debug')
unfolding report_elapsed
report_elapsed_lem label_ms debug e w hs hu hm room =
    let (s, d1, run1, dec1, room1) = report_lem (codes "Seconds: ") debug e.seconds w hs room in
    let w1 = record w { sent = reported (codes "Seconds: ") s w.sent } in
    let (u, d2, run2, dec2, room2) =
      report_lem (codes "Microseconds: ") d1 e.microseconds w1 hu room1 in
    let w2 = record w { sent = reported (codes "Microseconds: ") u w1.sent } in
    let (m, d3, run3, dec3, room3) = report_lem label_ms d2 e.milliseconds w2 hm room2 in
    (
      record { seconds = s; microseconds = u; milliseconds = m },
      d3,
      rw run1 (rw run2 run3),
      record { seconds = dec1; microseconds = dec2; milliseconds = dec3 },
      room3,
    )

-- A delay whose end is below 2 ^ 63 microseconds is measured without overflow and printed.
pub report_delay_lem :
    (label_ms debug : List ℕ) (start end : Timeval) (w : World)
    → start.tv_usec < 1000000
    → end.tv_usec < 1000000
    → usec_of start ≤ usec_of end
    → usec_of end < 2 ^ 63
    → 22 ≤ length debug
    → (t : Texts) × (debug' : List ℕ) × (report_delay label_ms start end debug w
        ≡ ok debug' (record w { sent = elapsed_reported label_ms t w.sent }))
      × AreTexts (difference start end) t
      × (22 ≤ length debug')
unfolding report_delay
report_delay_lem label_ms debug start end w hs he le lt room =
    let (t, debug', run, texts, room') =
      report_elapsed_lem label_ms debug (difference start end) w (omega arith) (omega arith)
        (omega arith) room in
    (t, debug', rw (elapsed_lem start end hs he le (omega arith) (omega arith)) run, texts, room')
