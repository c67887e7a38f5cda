-- ===== src/Enclave/Yields.antt =====
-- Steps that leave the inbox alone, and what they give.
use disguise_pets.Base.{
  ◌≡◌, refl, ap, ◌∙◌, sym, ℕ, Option, none, some, List, leb, length, take, Bool-cases, inl, inr,
}
use mathlib.Core.Path.{subst}
use disguise_pets.Enclave.{
  World, Cmd, ok, exit, fault, lift, pure, eapp_return, malloc, ocall, ocall_print_string,
  ocall_send_ra_req, call_send_ra_req, send_part, ◌>>=◌,
}
use disguise_pets.Enclave.Laws.{and_then-ok, ok-inj, ok-world, exit-not_ok, fault-not_ok}

-- Whenever the steps give a value, it satisfies P, and no message was taken.
abbrev pub Yields : {A : Type 0} → (A → Type 0) → Cmd A → Type 0
Yields {A} P c = (w : World) (a : A) (v : World) → c w ≡ ok a v → (v.inbox ≡ w.inbox) × P a

pub bind-Yields :
    {A B : Type 0} (P : A → Type 0) (Q : B → Type 0) (c : Cmd A) (k : A → Cmd B)
    → Yields P c
    → ((a : A) → P a → Yields Q (k a))
    → Yields Q (c >>= k)
bind-Yields P Q c k hc hk w b v e =
    let (a, u, e1, e2) = and_then-ok (c w) k b v e in
    let (same1, p) = hc w a u e1 in let (same2, q) = hk a p u b v e2 in (same2 ∙ same1, q)

pub pure-Yields : {A : Type 0} (P : A → Type 0) (a : A) → P a → Yields P (pure a)
pure-Yields P a h w b v e =
    (ap (λ u. u.inbox) (sym (ok-world a b w v e)), subst P (ok-inj a b w v e) h)

pub exit-Yields : {A : Type 0} (P : A → Type 0) (c : ℕ) → Yields P (eapp_return c)
exit-Yields P c w b v e = absurd (exit-not_ok (exit c w) b v c w refl e)

abbrev pub Anything : {A : Type 0} → A → Type 0
Anything a = Unit {0}

pub lift-Yields : {A : Type 0} (o : Option A) → Yields Anything (lift o)
lift-Yields none w b v e = absurd (fault-not_ok fault b v refl e)
lift-Yields (some a) w b v e = pure-Yields Anything a tt w b v e

pub malloc-Yields : (n : ℕ) → Yields Anything (malloc n)
unfolding malloc
malloc-Yields n w b v e = (ap (λ u. u.inbox) (sym (ok-world _ b _ v e)), tt)

ocall-Yields : (number : ℕ) (payload : List ℕ) → Yields Anything (ocall number payload)
unfolding ocall
ocall-Yields number payload w b v e = (ap (λ u. u.inbox) (sym (ok-world _ b _ v e)), tt)

pub ocall_print_string-Yields : (line : List ℕ) → Yields Anything (ocall_print_string line)
unfolding ocall_print_string
ocall_print_string-Yields line = ocall-Yields _ _

pub ocall_send_ra_req-Yields :
    (buffer : List ℕ) (len : ℕ) → Yields Anything (ocall_send_ra_req buffer len)
unfolding ocall_send_ra_req send_part
ocall_send_ra_req-Yields buffer len = elim (Bool-cases (leb len (length buffer))) [
  | inl enough ↦ rw enough (ocall-Yields call_send_ra_req (take len buffer))
  | inr short ↦ rw short (λ w b v e. absurd (fault-not_ok fault b v refl e))
]
