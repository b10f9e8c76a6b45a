-- ===== src/Prelude/Texts.antt =====
-- Texts as lists of runes, and what the standard library's strings package does to them.
use Prim.Native.Nat.{ℕ}
use mathlib.Core.Path.{◌≡◌, refl}
use mathlib.Core.Bool.{Bool, true, false, ◌&&◌, ◌||◌}
use mathlib.Core.List.{List, [], ◌∷◌, ◌++◌}
use native.Mathlib.Omega.{arith}
use psycho_space.Prelude.Tests.{◌==◌, if◌then◌else◌, ltb, leb}

abbrev pub Text : Type 0
Text = List ℕ

unfoldable pub eq_text : Text → Text → Bool
eq_text [] [] = true
eq_text [] (d ∷ ds) = false
eq_text (c ∷ cs) [] = false
eq_text (c ∷ cs) (d ∷ ds) = c == d && eq_text cs ds

-- `a < b` on strings.
unfoldable pub lt_text : Text → Text → Bool
lt_text cs [] = false
lt_text [] (d ∷ ds) = true
lt_text (c ∷ cs) (d ∷ ds) = ltb c d || c == d && lt_text cs ds

unfoldable pub has_text : Text → List Text → Bool
has_text k [] = false
has_text k (x ∷ xs) = eq_text x k || has_text k xs

-- `unicode.IsSpace`
unfoldable pub is_space : ℕ → Bool
is_space c =
    leb 9 c && leb c 13
    || c == 32
    || c == 133
    || c == 160
    || c == 5760
    || leb 8192 c && leb c 8202
    || c == 8232
    || c == 8233
    || c == 8239
    || c == 8287
    || c == 12288

unfoldable pub trim_left : Text → Text
trim_left [] = []
trim_left (c ∷ cs) = let rest = trim_left cs in if is_space c then rest else c ∷ cs

unfoldable pub trim_right : Text → Text
trim_right [] = []
trim_right (c ∷ cs) = elim (trim_right cs) [
  | [] ↦ if is_space c then [] else c ∷ []
  | d ∷ ds ↦ c ∷ d ∷ ds
]

-- `strings.TrimSpace`
unfoldable pub trim_space : Text → Text
unfolding trim_left trim_right
trim_space s = trim_right (trim_left s)

unfoldable pub has_prefix : Text → Text → Bool
has_prefix [] s = true
has_prefix (p ∷ ps) [] = false
has_prefix (p ∷ ps) (c ∷ cs) = p == c && has_prefix ps cs

-- `strings.Contains`, the text that is looked for last.
unfoldable pub contains_text : Text → Text → Bool
contains_text [] p = has_prefix p []
contains_text (c ∷ cs) p = has_prefix p (c ∷ cs) || contains_text cs p

pub eq_text_refl : (s : Text) → eq_text s s ≡ true
unfolding eq_text
eq_text_refl [] = refl
eq_text_refl (c ∷ cs) = ground (arith, eq_text_refl cs)

pub eq_text_eq : (s t : Text) → eq_text s t ≡ true → s ≡ t
unfolding eq_text
eq_text_eq [] [] e = refl
eq_text_eq [] (d ∷ ds) e = ground arith
eq_text_eq (c ∷ cs) [] e = ground arith
eq_text_eq (c ∷ cs) (d ∷ ds) e = ground (arith, eq_text_eq cs ds)

pub has_text-append :
    (k : Text) (xs ys : List Text) → has_text k (xs ++ ys) ≡ (has_text k xs || has_text k ys)
unfolding has_text
has_text-append k [] ys = refl
has_text-append k (x ∷ xs) ys = ground (arith, has_text-append k xs ys)

pub eq_text-sym : (s t : Text) → eq_text s t ≡ eq_text t s
unfolding eq_text
eq_text-sym [] [] = refl
eq_text-sym [] (d ∷ ds) = refl
eq_text-sym (c ∷ cs) [] = refl
eq_text-sym (c ∷ cs) (d ∷ ds) = ground (arith, eq_text-sym cs ds)
