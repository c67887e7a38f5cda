-- ===== src/Enclave/Laws.antt =====
-- Composition of steps.
use disguise_pets.Base.{
  ℕ, ◌≡◌, ◌≢◌, refl, arith, Bool, true, false, Option, none, some, ap, ◌∙◌, sym,
}
use disguise_pets.Enclave.{World, Run, Cmd, lift, ok, exit, fault, blocked, and_then}

pub and_then_assoc :
    {A B C : Type 0} (r : Run A) (k : A → Cmd B) (j : B → Cmd C)
    → and_then r (λ a w. and_then (k a w) j) ≡ and_then (and_then r k) j
and_then_assoc (ok a w) k j = refl
and_then_assoc (exit c w) k j = refl
and_then_assoc fault k j = refl
and_then_assoc blocked k j = refl

-- A step on arrays is undefined, or what follows it is.
pub lift-fault :
    {A B : Type 0} (o : Option A) (k : A → Cmd B) (w : World)
    → ((a : A) → k a w ≡ fault)
    → and_then (lift o w) k ≡ fault
lift-fault none k w h = refl
lift-fault (some a) k w h = h a

abbrev is_ok : {A : Type 0} → Run A → Bool
is_ok (ok a w) = true
is_ok (exit c w) = false
is_ok fault = false
is_ok blocked = false

pub fault-not_ok : {A : Type 0} (r : Run A) (a : A) (w : World) → r ≡ fault → r ≢ ok a w
fault-not_ok r a w f e = absurd (ground (arith, ap is_ok (sym f ∙ e)))

pub blocked-not_ok : {A : Type 0} (r : Run A) (a : A) (w : World) → r ≡ blocked → r ≢ ok a w
blocked-not_ok r a w f e = absurd (ground (arith, ap is_ok (sym f ∙ e)))

pub exit-not_ok :
    {A : Type 0} (r : Run A) (a : A) (w : World) (c : ℕ) (v : World) → r ≡ exit c v → r ≢ ok a w
exit-not_ok r a w c v f e = absurd (ground (arith, ap is_ok (sym f ∙ e)))

-- A sequence of steps that gives a value got one from its first step.
pub and_then-ok :
    {A B : Type 0} (r : Run A) (k : A → Cmd B) (b : B) (w : World)
    → and_then r k ≡ ok b w
    → (a : A) × (v : World) × (r ≡ ok a v) × (k a v ≡ ok b w)
and_then-ok (ok a v) k b w e = (a, v, refl, e)
and_then-ok (exit c v) k b w e = absurd (exit-not_ok (exit c v) b w c v refl e)
and_then-ok fault k b w e = absurd (fault-not_ok fault b w refl e)
and_then-ok blocked k b w e = absurd (ground (arith, ap is_ok e))

abbrev value_or : {A : Type 0} → A → Run A → A
value_or d (ok a w) = a
value_or d (exit c w) = d
value_or d fault = d
value_or d blocked = d

pub ok-inj : {A : Type 0} (a b : A) (v w : World) → ok a v ≡ ok b w → a ≡ b
ok-inj a b v w e = ap (value_or a) e

abbrev pub world_or : {A : Type 0} → World → Run A → World
world_or d (ok a w) = w
world_or d (exit c w) = d
world_or d fault = d
world_or d blocked = d

pub ok-world : {A : Type 0} (a b : A) (v w : World) → ok a v ≡ ok b w → v ≡ w
ok-world a b v w e = ap (world_or v) e
