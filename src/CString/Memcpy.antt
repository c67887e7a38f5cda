-- ===== src/CString/Memcpy.antt =====
-- memcpy: the word loop and the byte loop together copy every byte.
use disguise_pets.Base.{
  ℕ, zero, suc, ◌+◌, ◌-◌, ◌%◌, ◌^◌, ◌≤◌, ◌<◌, ◌≡◌, refl, arith, dec_lt, some, Bool-cases, inl, inr,
  ◌≢◌, true, false,
}
use mathlib.Core.Path.{subst}
use disguise_pets.Bits.Align.{aligned_both}
use disguise_pets.CString.{
  Memory, Cursor, ptr_add, ptr_sub, store, load_word, store_word, read_bytes, write_bytes,
  copy_words, copy_bytes, both_aligned, memcpy,
}
use disguise_pets.CString.Words.{IsBytes, store-IsBytes, write_bytes-IsBytes}
use disguise_pets.CString.Copies.{Copied, Ahead, Copied-nothing, Copied-byte, Copied-word}

module _ (dest src len : ℕ) (m : Memory) (ahead : Ahead dest src len)
    (dest_fits : dest + len < 2 ^ 64) (src_fits : src + len < 2 ^ 64) where
  -- k bytes are copied, and the cursor stands behind them.
  record At (k : ℕ) (c : Cursor) : Type 0 where
    below : k ≤ len
    d_at : c.d ≡ dest + k
    s_at : c.s ≡ src + k
    bytes : IsBytes c.mem
    copied : Copied dest src k m c.mem

  copy_bytes_lem :
      (fuel k : ℕ) (c : Cursor)
      → At k c
      → len < fuel + k
      → (c' : Cursor) × (copy_bytes fuel (dest + len) c ≡ some c') × At len c'
  unfolding copy_bytes
  copy_bytes_lem zero k c a enough = absurd (omega (arith, a.below))
  copy_bytes_lem (suc fuel) k c a enough = elim (dec_lt k len) [
    | yes lt ↦
        let (c', run, end) =
          copy_bytes_lem fuel (suc k)
            (record { d = ptr_add c.d 1; s = ptr_add c.s 1; mem = store c.mem c.d (c.mem c.s) })
            (next lt) (omega arith) in
        (c', ground (arith, a.d_at, run), end)
    | no ge ↦ (
      c,
      ground (arith, a.d_at),
      (let e : k ≡ len = omega (arith, a.below) in subst (λ n. At n c) e a),
    )
  ]
    where
      next :
          k < len
          → At
              (suc k)
              (record { d = ptr_add c.d 1; s = ptr_add c.s 1; mem = store c.mem c.d (c.mem c.s) })
      next lt = record {
        below = lt;
        d_at = omega (arith, a.d_at);
        s_at = omega (arith, a.s_at);
        bytes = store-IsBytes c.mem c.d (c.mem c.s) a.bytes (a.bytes c.s);
        copied = rw (a.d_at, a.s_at) (Copied-byte dest src k m c.mem a.copied (omega arith));
      }

  copy_words_lem :
      (fuel k : ℕ) (c : Cursor)
      → At k c
      → len < fuel + k
      → dest % 8 ≡ 0
      → src % 8 ≡ 0
      → k % 8 ≡ 0
      → 7 ≤ dest + len
      → (j : ℕ) × (c' : Cursor) × (copy_words fuel (dest + len - 7) c ≡ some c') × At j c'
  unfolding copy_words load_word store_word
  copy_words_lem zero k c a enough da sa ka low = absurd (omega (arith, a.below))
  copy_words_lem (suc fuel) k c a enough da sa ka low = elim (dec_lt (dest + k) (dest + len - 7)) [
    | yes lt ↦
        let (j, c', run, end) =
          copy_words_lem fuel (k + 8) after (next (omega arith)) (omega arith) da sa (omega arith)
            low in
        (j, c', ground (arith, a.d_at, a.s_at, run), end)
    | no ge ↦ (k, c, ground (arith, a.d_at), a)
  ]
    where
      after : Cursor
      after = record {
        d = ptr_add c.d 8;
        s = ptr_add c.s 8;
        mem = write_bytes 8 c.mem c.d (read_bytes 8 c.mem c.s);
      }

      next : k + 8 ≤ len → At (k + 8) after
      next le = record {
        below = le;
        d_at = omega (arith, a.d_at);
        s_at = omega (arith, a.s_at);
        bytes = write_bytes-IsBytes 8 c.mem c.d (read_bytes 8 c.mem c.s) a.bytes;
        copied =
            rw (a.d_at, a.s_at)
              (Copied-word dest src k m c.mem a.copied a.bytes (λ j lt. omega arith));
      }

-- The two ways through memcpy, with the ends of the loops computed without a wrap.
module _ (dest src len : ℕ) (m : Memory) (dest_fits : dest + len < 2 ^ 64) where
  abbrev start : Cursor
  start = record { d = dest; s = src; mem = m }

  memcpy_by_bytes :
      (c : Cursor)
      → both_aligned dest src ≡ false
      → copy_bytes (len + 1) (dest + len) start ≡ some c
      → memcpy dest src len m ≡ some c.mem
  unfolding memcpy
  memcpy_by_bytes c off run =
      let end : ptr_add dest len ≡ dest + len = omega arith in rw off (rw end (rw run))

  memcpy_by_words :
      (c c' : Cursor)
      → 7 ≤ dest + len
      → both_aligned dest src ≡ true
      → copy_words (len + 1) (dest + len - 7) start ≡ some c
      → copy_bytes (len + 1) (dest + len) c ≡ some c'
      → memcpy dest src len m ≡ some c'.mem
  unfolding memcpy
  memcpy_by_words c c' low on run run' =
      let end : ptr_add dest len ≡ dest + len = omega arith in
      let stop : ptr_sub (dest + len) 7 ≡ dest + len - 7 = omega arith in
      rw on (rw end (rw stop (rw run (rw run'))))

-- memcpy returns for every length, touches no unaligned word, and copies the len bytes at src to
-- dest and changes nothing else, if dest is not null, the blocks do not wrap around the address
-- space, memory holds bytes, and dest is not behind src within the block: they are disjoint, or
-- dest is the lower.
pub memcpy-Copied :
    (dest src len : ℕ) (m : Memory)
    → Ahead dest src len
    → dest + len < 2 ^ 64
    → src + len < 2 ^ 64
    → dest ≢ 0
    → IsBytes m
    → (m' : Memory) × (memcpy dest src len m ≡ some m') × Copied dest src len m m'
unfolding both_aligned
memcpy-Copied dest src len m ahead df sf live bytes = elim (Bool-cases (both_aligned dest src)) [
  | inl yes_aligned ↦
      let (da, sa) = aligned_both dest src (ground arith) in
      let (j, c, run, at) =
        copy_words_lem dest src len m ahead df sf (len + 1) 0 (start dest src len m df) started
          (omega arith) da sa refl (omega arith) in
      let (c', run', at') =
        copy_bytes_lem dest src len m ahead df sf (len + 1) j c at (omega arith) in
      (
        c'.mem,
        memcpy_by_words dest src len m df c c' (omega arith) yes_aligned run run',
        at'.copied,
      )
  | inr not_aligned ↦
      let (c', run', at') =
        copy_bytes_lem dest src len m ahead df sf (len + 1) 0 (start dest src len m df) started
          (omega arith) in
      (c'.mem, memcpy_by_bytes dest src len m df c' not_aligned run', at'.copied)
]
  where
    started : At dest src len m ahead df sf 0 (start dest src len m df)
    started = record {
      below = omega arith;
      d_at = omega arith;
      s_at = omega arith;
      bytes = bytes;
      copied = Copied-nothing dest src m;
    }
