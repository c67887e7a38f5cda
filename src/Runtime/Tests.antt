-- ===== src/Runtime/Tests.antt =====
-- The entropy and the clock at single values.
use disguise_pets.Base.{◌<◌, ◌≡◌, refl, arith, [], ◌∷◌, ◌++◌, some, replicate}
use disguise_pets.Base.Int.{pos}
use disguise_pets.Runtime.{Pool, syscall, timeval_of_cycles}
use disguise_pets.Runtime.Entropy.{Drawn, table, syscall-Drawn}
use disguise_pets.Runtime.Clock.{usec_of, timeval_of_cycles_lem}

-- What is left after 508 bytes.
abbrev last_four : Pool
last_four = record { remaining_bytes = 4; entropy_bytes = 253 ∷ 254 ∷ 0 ∷ 1 ∷ [] }

last_four-Drawn : Drawn 508 last_four
unfolding table
last_four-Drawn = record { total = refl; bytes = refl }

syscall-Drawn_example :
    (p : Pool) × (syscall 278 6 last_four (replicate 6 9)
      ≡ some (pos 4, p, table 508 4 ++ 9 ∷ 9 ∷ []))
    × Drawn 512 p
syscall-Drawn_example = syscall-Drawn 6 508 last_four (replicate 6 9) last_four-Drawn (omega arith)

timeval_of_cycles_lem_example :
    ((timeval_of_cycles 123456789).tv_usec < 1000000)
    × (usec_of (timeval_of_cycles 123456789) ≡ 1234567)
timeval_of_cycles_lem_example = timeval_of_cycles_lem 123456789 (omega arith)
