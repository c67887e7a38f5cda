-- ===== src/Timing/Tests.antt =====
-- A delay across a second.
use disguise_pets.Base.{◌≡◌, arith, some}
use disguise_pets.Base.Int.{pos}
use disguise_pets.Runtime.{Timeval}
use disguise_pets.Timing.{elapsed}
use disguise_pets.Timing.Laws.{elapsed_lem}

abbrev start : Timeval
start = record { tv_sec = 4; tv_usec = 999000 }

abbrev end : Timeval
end = record { tv_sec = 7; tv_usec = 1500 }

elapsed_lem_example :
    elapsed start end
    ≡ some (record { seconds = pos 2; microseconds = pos 2500; milliseconds = pos 2002 })
elapsed_lem_example =
    elapsed_lem start end (omega arith) (omega arith) (omega arith) (omega arith) (omega arith)
