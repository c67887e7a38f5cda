-- ===== src/Runtime.antt =====
-- vsim/fpga-auth/include/hacks.h, which vsim/fpga-provision/include/hacks.h repeats: the entropy that
-- libsodium is given, and the clock.
pub mod Entropy
pub mod Clock
mod Tests
use disguise_pets.Base.{
  ℕ, zero, suc, ◌+◌, ◌-◌, ◌*◌, ◌/◌, ◌%◌, ◌^◌, Bool, true, false, List, [], ◌∷◌, Option, none, some,
  get_elem?, ltb, ◌==◌, if◌then◌else◌, ◌>>=◌, replicate, drop,
}
use disguise_pets.Base.Arrays.{put, for_loop, elements}
use disguise_pets.Base.Int.{ℤ, pos, negsuc}

-- remaining_bytes, and the bytes from the pointer entropy_bytes on.
pub record Pool : Type 0 where
  pub remaining_bytes : ℕ
  pub entropy_bytes : List ℕ

pub data Started : Type 0 where
  started : Pool → Started
  exit : ℕ → Started

-- for (i = 0; i < n; i++) entropy_bytes[i] = i % 255;
unfoldable pub fill_entropy : ℕ → List ℕ → Option (List ℕ)
fill_entropy n = for_loop n 0 (λ i bytes. put bytes i (i % 255))

-- magic_random_init, given what malloc(512) returns; EAPP_ERR_RET is 5.
unfoldable pub magic_random_init : Option (List ℕ) → Option Started
magic_random_init none = some (exit 5)
magic_random_init (some block) = fill_entropy 512 block >>= λ bytes.
    some (started (record { remaining_bytes = 512; entropy_bytes = bytes }))

-- while (remaining_bytes > 0 && done < count) _buf[done++] = *entropy_bytes++;
-- `left` is count - done. The result is done, the pool and the buffer.
pub take_entropy : (left done : ℕ) → Pool → List ℕ → Option (ℕ × Pool × List ℕ)
take_entropy zero done p buf = some (done, p, buf)
take_entropy (suc left) done p buf = elim (ltb 0 p.remaining_bytes) [
  | true ↦ get_elem? p.entropy_bytes 0 >>= λ byte. put buf done byte >>= λ buf'.
      take_entropy left (done + 1)
        (record { remaining_bytes = p.remaining_bytes - 1; entropy_bytes = drop 1 p.entropy_bytes })
        buf'
  | false ↦ some (done, p, buf)
]

-- syscall(number, buffer, count): only getrandom (278) is served.
pub syscall : (number count : ℕ) → Pool → List ℕ → Option (ℤ × Pool × List ℕ)
syscall number count p buf =
    if number == 278
    then (take_entropy count 0 p buf >>= λ (done, p', buf'). some (pos done, p', buf'))
    else some (negsuc 0, p, buf)

pub record Timeval : Type 0 where
  pub tv_sec : ℕ
  pub tv_usec : ℕ

-- gettimeofday from the 64-bit cycle counter of a 100 MHz processor.
unfoldable pub timeval_of_cycles : ℕ → Timeval
timeval_of_cycles cycles =
    let total_usec = cycles * 1000000 % 2 ^ 64 / 100000000 in
    record { tv_sec = total_usec / 1000000; tv_usec = total_usec % 1000000 }

abbrev pub getpid : ℕ
getpid = 10

-- sysconf(name): the page size, or -1.
pub sysconf : ℕ → ℤ
sysconf name = if name == 30 then pos 4096 else negsuc 0
