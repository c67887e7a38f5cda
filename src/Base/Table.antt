-- ===== src/Base/Table.antt =====
-- Facts about small ranges by evaluation at every value.
use disguise_pets.Base.{
  ℕ, zero, suc, ◌<◌, ◌≡◌, Bool, true, false, arith, dec_lt, if◌then◌else◌, Bool-cases, inl, inr,
}

-- The test holds of each number below the bound.
unfoldable pub each_passes : (test : ℕ → Bool) (bound : ℕ) → Bool
each_passes test zero = true
each_passes test (suc last) = if each_passes test last then test last else false

pub passes_at :
    (test : ℕ → Bool) (bound i : ℕ) → i < bound → each_passes test bound ≡ true → test i ≡ true
unfolding each_passes
passes_at test zero i inside passed = absurd (omega arith)
passes_at test (suc last) i inside passed = elim (Bool-cases (each_passes test last)) [
  | inr stopped ↦ absurd (ground (arith, (rw stopped at passed)))
  | inl before ↦
      let at_last : test last ≡ true = rw before at passed in
      elim (dec_lt i last) [
        | yes earlier ↦ passes_at test last i earlier before
        | no not_earlier ↦ let same : i ≡ last = omega arith in rw same at_last
      ]
]
