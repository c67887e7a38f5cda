-- ===== src/Hex.antt =====
-- print_hex of vsim/fpga-auth/eapp/fpga-auth.c, which vsim/fpga-provision/eapp/fpga-provision.c repeats
-- and vsim/fpga-auth/eapp/usim.c has as print_h: bytes as hexadecimal text, printed by the host.
pub mod Laws
mod Tests
use disguise_pets.Base.{ℕ, ◌+◌, ◌*◌, ◌/◌, ◌^◌, bit_and, List, Option, get_elem?, ◌>>=◌}
use disguise_pets.Base.Arrays.{put, for_loop}
use disguise_pets.Enclave.{Cmd, lift, codes, c_string, ocall_print_string, ◌>>◌}
use disguise_pets.Enclave

abbrev pub hex_chars : List ℕ
hex_chars = codes "0123456789abcdef"

-- hex_string[i * 2] = hex_chars[(buffer[i] >> 4) & 0xF]; hex_string[i * 2 + 1] = hex_chars[buffer[i] & 0xF];
unfoldable pub write_hex : (buffer : List ℕ) (i : ℕ) → List ℕ → Option (List ℕ)
write_hex buffer i hex_string = do
  byte ← get_elem? buffer i
  high ← get_elem? hex_chars (bit_and (byte / 2 ^ 4) 0xf)
  low ← get_elem? hex_chars (bit_and byte 0xf)
  hex_string ← put hex_string (i * 2) high
  put hex_string (i * 2 + 1) low

-- The whole text with the 0 behind it.
unfoldable pub fill_hex : (size : ℕ) (buffer hex_string : List ℕ) → Option (List ℕ)
fill_hex size buffer hex_string = do
  hex_string ← for_loop size 0 (write_hex buffer) hex_string
  put hex_string (size * 2) 0

-- print_hex; hex_string is the local array before it is written.
pub print_hex : (buffer : List ℕ) (size : ℕ) (hex_string : List ℕ) → Cmd (Unit {0})
print_hex buffer size hex_string w =
    Enclave.and_then (lift (fill_hex size buffer hex_string) w)
      (λ text. ocall_print_string (c_string text))
