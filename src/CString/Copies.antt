-- ===== src/CString/Copies.antt =====
-- What a copy of n bytes does to memory, and how a copied prefix grows by a byte or by a word.
use disguise_pets.Base.{ℕ, suc, ◌+◌, ◌≤◌, ◌<◌, ◌≡◌, refl, ◌⊎◌, arith, ◌∙◌, ◌-◌, dec_lt}
use disguise_pets.CString.{Memory, store, read_bytes, write_bytes}
use disguise_pets.CString.Words.{
  IsBytes, Outside, store_self, store_other, digit-read_bytes, write_bytes_inside,
  write_bytes-Outside,
}

-- m' is m with the n bytes at src copied to dest; src is read in m, so an overlap does no harm.
pub record Copied (dest src n : ℕ) (m m' : Memory) : Type 0 where
  pub inside : (i : ℕ) → i < n → m' (dest + i) ≡ m (src + i)
  pub outside : (a : ℕ) → Outside dest n a → m' a ≡ m a

-- A copy from the low end reads nothing that it has written.
abbrev pub Ahead : ℕ → ℕ → ℕ → Type 0
Ahead dest src n = (dest ≤ src) ⊎ (src + n ≤ dest)

pub Copied-nothing : (dest src : ℕ) (m : Memory) → Copied dest src 0 m m
Copied-nothing dest src m = record { inside = λ i lt. absurd (omega arith); outside = λ a o. refl }

module _ (dest src k : ℕ) (m m' : Memory) (c : Copied dest src k m m') where
  pub Copied-byte :
      Outside dest k (src + k) → Copied dest src (suc k) m (store m' (dest + k) (m' (src + k)))
  Copied-byte fresh = record {
    inside = λ i lt. elim (dec_lt i k) [
      | yes p ↦ store_other m' (dest + k) (m' (src + k)) (dest + i) (omega arith) ∙ c.inside i p
      | no p ↦
          let e : i ≡ k = omega arith in
          rw e (store_self m' (dest + k) (m' (src + k)) (dest + k) refl ∙ c.outside (src + k) fresh)
    ];
    outside =
        λ a o. store_other m' (dest + k) (m' (src + k)) a (omega arith) ∙ c.outside a (omega arith);
  }

  pub Copied-word :
      IsBytes m'
      → ((j : ℕ) → j < 8 → Outside dest k (src + k + j))
      → Copied dest src (k + 8) m (write_bytes 8 m' (dest + k) (read_bytes 8 m' (src + k)))
  Copied-word bytes fresh =
      let w = read_bytes 8 m' (src + k) in
      record {
        inside = λ i lt. elim (dec_lt i k) [
          | yes p ↦ write_bytes-Outside 8 m' (dest + k) w (dest + i) (omega arith) ∙ c.inside i p
          | no p ↦ new_byte i (i - k) (omega arith) (omega arith)
        ];
        outside = λ a o.
            write_bytes-Outside 8 m' (dest + k) w a (omega arith) ∙ c.outside a (omega arith);
      }
    where
      new_byte :
          (i j : ℕ)
          → i ≡ k + j
          → j < 8
          → write_bytes 8 m' (dest + k) (read_bytes 8 m' (src + k)) (dest + i) ≡ m (src + i)
      new_byte i j e lt =
          let p : dest + i ≡ dest + k + j = omega arith in
          let q : src + i ≡ src + k + j = omega arith in
          rw (p, q)
            (write_bytes_inside 8 m' (dest + k) (read_bytes 8 m' (src + k)) j lt
              ∙ digit-read_bytes 8 m' (src + k) j bytes lt
              ∙ c.outside (src + k + j) (fresh j lt))
