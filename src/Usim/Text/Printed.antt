-- ===== src/Usim/Text/Printed.antt =====
-- The hexadecimal texts of the log are those of the arrays' first bytes.
use mathlib.Core.List.{append_assoc}
use disguise_pets.Base.{
  ℕ, ◌+◌, ◌≤◌, ◌≡◌, refl, arith, List, [], ◌∷◌, ◌++◌, take, drop, length, length-append,
  length-take, take-append-drop, some, ap, ◌∙◌, sym, ◌≢◌, true, false, ◌==◌, Bool-cases, inl, inr,
  ap₂, ◌/◌, ◌%◌,
}
use disguise_pets.Base.Arrays.{for_loop, get_elem?-append}
use disguise_pets.Hex.Laws.{char_of, hex_text}
use disguise_pets.Usim.{Line, say_hex}
use disguise_pets.Usim.Text.{add_pair, hex_str, log_hex, same_text}
use Prim.Native.String.{String}

hex_loop :
    (xs before after str : List ℕ) (i : ℕ)
    → length before ≡ i
    → for_loop (length xs) i (add_pair (before ++ (xs ++ after))) str ≡ some (str ++ hex_text xs)
hex_loop [] before after str i e = ap some (sym (append_nil str))
  where
    append_nil : (l : List ℕ) → l ++ [] ≡ l
    append_nil [] = refl
    append_nil (x ∷ l) = ap (◌∷◌ x) (append_nil l)
hex_loop (x ∷ xs) before after str i e =
    let pair = char_of (x / 16) ∷ char_of (x % 16) ∷ [] in
    rw (get_elem?-append before (xs ++ after) x i e) (
      ap (λ l. for_loop (length xs) (i + 1) (add_pair l) (str ++ pair))
        (sym (append_assoc before (x ∷ []) (xs ++ after)))
      ∙ hex_loop xs (before ++ x ∷ []) after (str ++ pair) (i + 1)
          (omega (arith, length-append before (x ∷ [])))
      ∙ ap some (append_assoc str pair (hex_text xs)))

pub hex_str_lem : (n : ℕ) (a : List ℕ) → n ≤ length a → hex_str n a ≡ some (hex_text (take n a))
unfolding hex_str
hex_str_lem n a le =
    let all : length (take n a) ≡ n = omega (arith, length-take n a) in
    let run = hex_loop (take n a) [] (drop n a) [] 0 refl in rw (all, take-append-drop n a) at run

pub log_hex_lem :
    (label : String) (n : ℕ) (a : List ℕ) (log : List Line)
    → n ≤ length a
    → log_hex label n a log ≡ some (say_hex label (hex_text (take n a)) ∷ log)
unfolding log_hex
log_hex_lem label n a log le = rw (hex_str_lem n a le)

-- same_text decides equality.
pub same_text-eq : (a b : List ℕ) → same_text a b ≡ true → a ≡ b
same_text-eq [] [] e = refl
same_text-eq [] (y ∷ b) e = absurd (ground (arith, e))
same_text-eq (x ∷ a) [] e = absurd (ground (arith, e))
same_text-eq (x ∷ a) (y ∷ b) e = elim (Bool-cases (x == y)) [
  | inl same ↦ ap₂ ◌∷◌ (ground (arith, same)) (same_text-eq a b (rw same at e))
  | inr other ↦ let no : false ≡ true = rw other at e in absurd (ground (arith, no))
]

pub same_text_self : (a : List ℕ) → same_text a a ≡ true
same_text_self [] = refl
same_text_self (x ∷ a) = let same : (x == x) ≡ true = ground arith in rw same (same_text_self a)

pub same_text-ne : (a b : List ℕ) → same_text a b ≡ false → a ≢ b
same_text-ne a b e same =
    let both : true ≡ false = sym (same_text_self a) ∙ ap (same_text a) same ∙ e in
    ground (arith, both)
