-- ===== src/Report.antt =====
-- The printing of a measured number, as eapp_entry of both enclave programs repeats it:
--   ltoa(num, debug); ocall_print_string(label); ocall_print_string(debug); ocall_print_string("\n");
pub mod Laws
use disguise_pets.Base.{ℕ, List, [], ◌∷◌}
use disguise_pets.Base.Int.{ℤ}
use disguise_pets.Decimal.{ltoa}
use disguise_pets.Enclave.{Cmd, pure, lift, ocall_print_string, c_string, codes, ◌>>=◌, ◌>>◌}
use disguise_pets.Timing.{Elapsed, elapsed}
use disguise_pets.Runtime.{Timeval}

abbrev pub newline : List ℕ
newline = 10 ∷ []

-- The result is the buffer.
pub report : (label : List ℕ) → ℤ → List ℕ → Cmd (List ℕ)
report label num debug = do
  debug ← lift (ltoa num debug)
  ocall_print_string label
  ocall_print_string (c_string debug)
  ocall_print_string newline
  pure debug

-- The seconds, the microseconds and the milliseconds of a delay, under their labels.
pub report_elapsed : (label_ms : List ℕ) → Elapsed → List ℕ → Cmd (List ℕ)
report_elapsed label_ms e debug = do
  debug ← report (codes "Seconds: ") e.seconds debug
  debug ← report (codes "Microseconds: ") e.microseconds debug
  report label_ms e.milliseconds debug

-- The three numbers of the delay between two times, computed and printed.
unfoldable pub report_delay : (label_ms : List ℕ) (start end : Timeval) → List ℕ → Cmd (List ℕ)
report_delay label_ms start end debug = do
  e ← lift (elapsed start end)
  report_elapsed label_ms e debug
