-- ===== src/Runtime/Clock.antt =====
-- The clock: microseconds since the start, until the product with a million leaves 64 bits.
use disguise_pets.Base.{ℕ, ◌+◌, ◌*◌, ◌/◌, ◌^◌, ◌≤◌, ◌<◌, ◌≡◌, arith}
use disguise_pets.Runtime.{Timeval, timeval_of_cycles}

-- The time in microseconds.
abbrev pub usec_of : Timeval → ℕ
usec_of t = t.tv_sec * 1000000 + t.tv_usec

pub tv_usec-lt : (cycles : ℕ) → (timeval_of_cycles cycles).tv_usec < 1000000
unfolding timeval_of_cycles
tv_usec-lt cycles = omega arith

pub tv_sec-lt : (cycles : ℕ) → (timeval_of_cycles cycles).tv_sec < 2 ^ 38
unfolding timeval_of_cycles
tv_sec-lt cycles = omega arith

-- A count of cycles that does not overflow when it is multiplied.
abbrev pub IsEarly : ℕ → Type 0
IsEarly cycles = cycles * 1000000 < 2 ^ 64

-- Up to 2 ^ 64 / 10 ^ 6 cycles, about 51 hours, gettimeofday gives whole seconds and microseconds
-- below a million that together are the cycles divided by a hundred.
pub timeval_of_cycles_lem :
    (cycles : ℕ)
    → IsEarly cycles
    → ((timeval_of_cycles cycles).tv_usec < 1000000)
      × (usec_of (timeval_of_cycles cycles) ≡ cycles / 100)
unfolding timeval_of_cycles
timeval_of_cycles_lem cycles early = (omega arith, omega arith)

-- The clock wraps: from 18446744073710 cycles on, where the product leaves 64 bits, it reads 0
-- again, up to the count 18446744073799.
pub clock_wraps :
    (cycles : ℕ)
    → 18446744073710 ≤ cycles
    → cycles < 18446744073800
    → usec_of (timeval_of_cycles cycles) ≡ 0
unfolding timeval_of_cycles
clock_wraps cycles lo hi = omega arith
