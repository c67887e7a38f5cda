-- ===== src/Usim/Vsim/Polls.antt =====
-- The wait for the enclave's answer ends after five waits at most.
use disguise_pets.Base.{
  ℕ, zero, suc, ◌+◌, ◌<◌, ◌≤◌, ◌≡◌, ◌⊎◌, inl, inr, refl, arith, true, false, List, ◌∷◌, ◌++◌,
  replicate, Bool-cases, ap, ◌∙◌, sym, ◌-◌, dec_lt,
}
use disguise_pets.Shared.{SharedData}
use disguise_pets.Usim.{Line, say}
use disguise_pets.Usim.Vsim.{Others, poll}

-- The shared memory at each load.
abbrev pub seen : Others → SharedData → ℕ → SharedData
seen others s zero = others 0 s
seen others s (suc n) = others (suc n) (seen others s n)

-- The loads are over at load n: no earlier one of them found the flag, and this one did unless it is
-- the last.
pub record Ends (others : Others) (s : SharedData) (first last n : ℕ) : Type 0 where
  pub bound : n ≤ last
  pub waited : (i : ℕ) → first ≤ i → i < n → (seen others s i).auth_response_ready ≡ false
  pub reason : (n ≡ last) ⊎ ((seen others s n).auth_response_ready ≡ true)

replicate_end : (k : ℕ) (x : Line) (l : List Line) → replicate k x ++ x ∷ l ≡ x ∷ replicate k x ++ l
replicate_end zero x l = refl
replicate_end (suc k) x l = ap (◌∷◌ x) (replicate_end k x l)

poll_from :
    (left t : ℕ) (others : Others) (s before : SharedData) (log : List Line)
    → others t before ≡ seen others s t
    → (n : ℕ) × (t ≤ n)
      × Ends others s t (t + left) n
      × (poll left t others before log
          ≡ (seen others s n, replicate (n - t) (say "Waiting...") ++ log))
unfolding poll
poll_from zero t others s before log e = (
  t,
  omega arith,
  record {
    bound = omega arith;
    waited = λ i lo hi. absurd (omega arith);
    reason = inl (omega arith);
  },
  let none_left : t - t ≡ 0 = omega arith in rw (none_left, e) refl,
)
poll_from (suc left) t others s before log e =
    elim (Bool-cases (seen others s t).auth_response_ready) [
      | inl ready ↦ (
        t,
        omega arith,
        record {
          bound = omega arith;
          waited = λ i lo hi. absurd (omega arith);
          reason = inr ready;
        },
        let none_left : t - t ≡ 0 = omega arith in rw (none_left, e) (rw ready refl),
      )
      | inr unset ↦
          let next : suc t ≡ t + 1 = omega arith in
          let seen_next : others (t + 1) (seen others s t) ≡ seen others s (t + 1) =
            rw (sym next) refl in
          let (n, le, ends, run) =
            poll_from left (t + 1) others s (seen others s t) (say "Waiting..." ∷ log) seen_next in
          (
            n,
            omega arith,
            record {
              bound = omega (arith, ends.bound);
              waited = λ i lo hi. elim (dec_lt t i) [
                | yes later ↦ ends.waited i (omega arith) hi
                | no first ↦ let same : i ≡ t = omega arith in rw same unset
              ];
              reason = elim ends.reason [ inl at_last ↦ inl (omega arith) | inr ready ↦ inr ready ];
            },
            rw e (
                rw unset (
                  run
                  ∙ let count : n - t ≡ suc (n - (t + 1)) = omega arith in
                    rw count (
                      ap (λ l. (seen others s n, l))
                        (replicate_end (n - (t + 1)) (say "Waiting...") log)))),
          )
    ]

-- Whatever the other processes do, srsUE stops after some number n of waits, at most five: it uses the
-- shared memory as its load n finds it, where the flag is set or n is five; no earlier load found the
-- flag set; and the log has one line for each wait.
pub poll-Ends :
    (others : Others) (s : SharedData) (log : List Line)
    → (n : ℕ) × Ends others s 0 5 n
      × (poll 5 0 others s log ≡ (seen others s n, replicate n (say "Waiting...") ++ log))
poll-Ends others s log =
    let (n, le, ends, run) = poll_from 5 0 others s s log refl in
    let all : n - 0 ≡ n = omega arith in (n, ends, (rw all at run))
