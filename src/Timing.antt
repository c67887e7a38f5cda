-- ===== src/Timing.antt =====
-- The measurement of a delay, in eapp_entry of vsim/fpga-auth/eapp/fpga-auth.c and three times in
-- vsim/fpga-provision/eapp/fpga-provision.c: the difference of two times, in `long`.
pub mod Laws
mod Tests
use disguise_pets.Base.{
  ℕ, suc, ◌/◌, ◌+◌, ◌^◌, Bool, true, false, if◌then◌else◌, ltb, Option, none, some, ◌>>=◌,
}
use disguise_pets.Base.Int.{ℤ, pos, negsuc, sub_ℕ, ltb_ℤ, ◌+ℤ◌, ◌-ℤ◌, ◌*ℤ◌}
use disguise_pets.Runtime.{Timeval}

pub record Elapsed : Type 0 where
  pub seconds : ℤ
  pub microseconds : ℤ
  pub milliseconds : ℤ

-- n / d of C, which rounds towards 0.
pub div_trunc : ℤ → ℕ → ℤ
div_trunc (pos n) d = pos (n / d)
div_trunc (negsuc n) d = pos 0 -ℤ pos ((n + 1) / d)

-- A result of `long`: outside of 64 bits the behaviour is undefined.
pub fits_long : ℤ → Bool
fits_long (pos n) = ltb n (2 ^ 63)
fits_long (negsuc n) = ltb n (2 ^ 63)

unfoldable pub in_long : ℤ → Option ℤ
unfolding fits_long
in_long z = if fits_long z then some z else none

-- if (microseconds < 0) { seconds--; microseconds += 1000000; }
unfoldable pub carry : (seconds microseconds : ℤ) → Option (ℤ × ℤ)
carry seconds microseconds =
    if ltb_ℤ microseconds (pos 0)
    then (do s ← in_long (seconds -ℤ pos 1); m ← in_long (microseconds +ℤ pos 1000000); some (s, m))
    else some (seconds, microseconds)

-- The differences of the fields, and the carry.
unfoldable pub subtract : (start end : Timeval) → Option (ℤ × ℤ)
subtract start end = do
  seconds ← in_long (sub_ℕ end.tv_sec start.tv_sec)
  microseconds ← in_long (sub_ℕ end.tv_usec start.tv_usec)
  carry seconds microseconds

-- (seconds * 1000) + (microseconds / 1000)
unfoldable pub to_milliseconds : (seconds microseconds : ℤ) → Option ℤ
to_milliseconds seconds microseconds = do
  product ← in_long (seconds *ℤ pos 1000)
  in_long (product +ℤ div_trunc microseconds 1000)

-- The three numbers that are printed.
unfoldable pub elapsed : (start end : Timeval) → Option Elapsed
elapsed start end = do
  (seconds, microseconds) ← subtract start end
  milliseconds ← to_milliseconds seconds microseconds
  some (record { seconds = seconds; microseconds = microseconds; milliseconds = milliseconds })
