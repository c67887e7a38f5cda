-- ===== src/Timing/Laws.antt =====
-- The delay is the difference of the two times.
use disguise_pets.Base.{ℕ, ◌-◌, ◌+◌, ◌/◌, ◌%◌, ◌^◌, ◌≤◌, ◌<◌, ◌≡◌, refl, arith, some, dec_lt, ◌>>=◌}
use disguise_pets.Base.Int.{ℤ, pos, sub_ℕ, pos_part, neg_part, ◌+ℤ◌, ◌-ℤ◌, ◌*ℤ◌}
use disguise_pets.Runtime.{Timeval}
use disguise_pets.Runtime.Clock.{usec_of}
use disguise_pets.Timing.{
  Elapsed, fits_long, in_long, carry, subtract, to_milliseconds, div_trunc, elapsed,
}

-- The difference in microseconds.
abbrev pub delay : (start end : Timeval) → ℕ
delay start end = usec_of end - usec_of start

-- The whole seconds, the microseconds and the milliseconds of a delay.
abbrev pub difference : (start end : Timeval) → Elapsed
difference start end = record {
  seconds = pos (delay start end / 1000000);
  microseconds = pos (delay start end % 1000000);
  milliseconds = pos (delay start end / 1000);
}

in_long-pos : (n : ℕ) → n < 2 ^ 63 → in_long (pos n) ≡ some (pos n)
unfolding in_long fits_long
in_long-pos n lt = ground arith

in_long-sub : (a b : ℕ) → a < 2 ^ 63 → b < 2 ^ 63 → in_long (sub_ℕ a b) ≡ some (sub_ℕ a b)
unfolding in_long fits_long
in_long-sub a b ha hb = ground arith

subtract_lem :
    (start end : Timeval)
    → start.tv_usec < 1000000
    → end.tv_usec < 1000000
    → end.tv_sec < 2 ^ 63
    → usec_of start ≤ usec_of end
    → subtract start end ≡ some (pos (delay start end / 1000000), pos (delay start end % 1000000))
unfolding subtract carry in_long fits_long ◌+ℤ◌ ◌-ℤ◌
subtract_lem start end hs he long le =
    rw
      (
        in_long-sub end.tv_sec start.tv_sec long (omega arith),
        in_long-sub end.tv_usec start.tv_usec (omega arith) (omega arith),
      )
      (ground arith)

to_milliseconds_lem :
    (d : ℕ)
    → d / 1000 < 2 ^ 63
    → to_milliseconds (pos (d / 1000000)) (pos (d % 1000000)) ≡ some (pos (d / 1000))
unfolding to_milliseconds div_trunc in_long fits_long ◌+ℤ◌ ◌*ℤ◌
to_milliseconds_lem d long = ground arith

-- If both times have less than a million microseconds, the start is not later than the end, and the
-- seconds of the end and the milliseconds of the delay are in the range of `long`, then no step
-- overflows, and the seconds, the microseconds and the milliseconds are those of the difference, rounded
-- down.
pub elapsed_lem :
    (start end : Timeval)
    → start.tv_usec < 1000000
    → end.tv_usec < 1000000
    → usec_of start ≤ usec_of end
    → end.tv_sec < 2 ^ 63
    → delay start end / 1000 < 2 ^ 63
    → elapsed start end
      ≡ some (record {
        seconds = pos (delay start end / 1000000);
        microseconds = pos (delay start end % 1000000);
        milliseconds = pos (delay start end / 1000);
      })
unfolding elapsed
elapsed_lem start end hs he le seconds long =
    rw (subtract_lem start end hs he seconds le)
      (rw (to_milliseconds_lem (delay start end) long) refl)

-- A time whose milliseconds are far inside of `long`.
pub record IsTime (t : Timeval) : Type 0 where
  pub seconds : t.tv_sec < 2 ^ 53
  pub microseconds : t.tv_usec < 1000000

subtract-IsTime :
    (start end : Timeval)
    → IsTime start
    → IsTime end
    → (s : ℤ) × (u : ℕ) × (subtract start end ≡ some (s, pos u))
      × (u < 1000000)
      × (pos_part s + neg_part s ≤ 2 ^ 53)
unfolding subtract carry in_long fits_long ◌+ℤ◌ ◌-ℤ◌
subtract-IsTime start end hs he = elim (dec_lt end.tv_usec start.tv_usec) [
  | yes borrow ↦ (
    sub_ℕ end.tv_sec (start.tv_sec + 1),
    end.tv_usec + 1000000 - start.tv_usec,
    rw
        (
          in_long-sub end.tv_sec start.tv_sec (omega (arith, he.seconds))
              (omega (arith, hs.seconds)),
          in_long-sub end.tv_usec start.tv_usec (omega (arith, he.microseconds))
              (omega (arith, hs.microseconds)),
        )
        (ground (arith, hs.seconds, he.seconds, hs.microseconds, he.microseconds, borrow)),
    omega (arith, borrow),
    ground (arith, hs.seconds, he.seconds),
  )
  | no direct ↦ (
    sub_ℕ end.tv_sec start.tv_sec,
    end.tv_usec - start.tv_usec,
    rw
        (
          in_long-sub end.tv_sec start.tv_sec (omega (arith, he.seconds))
              (omega (arith, hs.seconds)),
          in_long-sub end.tv_usec start.tv_usec (omega (arith, he.microseconds))
              (omega (arith, hs.microseconds)),
        )
        (ground (arith, hs.microseconds, he.microseconds, direct)),
    omega (arith, he.microseconds),
    ground (arith, hs.seconds, he.seconds),
  )
]

to_milliseconds_small :
    (s : ℤ) (u : ℕ)
    → u < 1000000
    → pos_part s + neg_part s ≤ 2 ^ 53
    → to_milliseconds s (pos u) ≡ some (s *ℤ pos 1000 +ℤ pos (u / 1000))
unfolding to_milliseconds div_trunc in_long fits_long ◌+ℤ◌ ◌*ℤ◌
to_milliseconds_small s u lt small = ground arith

-- Between two such times the milliseconds are computed without overflow.
pub milliseconds-IsTime :
    (start end : Timeval)
    → IsTime start
    → IsTime end
    → (ms : ℤ) × ((subtract start end >>= λ p. to_milliseconds p.0 p.1) ≡ some ms)
milliseconds-IsTime start end hs he =
    let (s, u, run, lt, small) = subtract-IsTime start end hs he in
    (s *ℤ pos 1000 +ℤ pos (u / 1000), rw run (to_milliseconds_small s u lt small))
