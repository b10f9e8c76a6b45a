-- ===== src/GameKhimki/Salvage/Escaping.antt =====
-- internal/gamekhimki/llm.go: escapeControlCharsInStrings against a scan of the strings of a text.
use psycho_space.Prelude.{
  ◌≡◌, ◌↔◌, refl, subst, ap, Text, Bool, true, false, ◌&&◌, ◌||◌, not, [], ◌∷◌, ◌==◌, arith,
  if◌then◌else◌,
}
use psycho_space.GameKhimki.Salvage.{Mode, escape_byte, escape_from, escape_control}

-- No line feed, carriage return or tab stands in a string, but for one behind a backslash.
unfoldable pub is_clean : Mode → Text → Bool
is_clean mode [] = true
is_clean (in_string, true) (c ∷ cs) = is_clean (in_string, false) cs
is_clean (in_string, false) (c ∷ cs) =
    let rest = is_clean (if c == 34 then not in_string else in_string, in_string && c == 92) cs in
    not (in_string && (c == 10 || c == 13 || c == 9)) && rest

escape_from-clean : (i e : Bool) (s : Text) → is_clean (i, e) (escape_from (i, e) s) ≡ true
unfolding is_clean escape_from escape_byte
escape_from-clean i e [] = refl
escape_from-clean i true (c ∷ cs) = escape_from-clean i false cs
escape_from-clean false false (c ∷ cs) =
    ground (arith, escape_from-clean false false cs, escape_from-clean true false cs)
escape_from-clean true false (c ∷ cs) = ground (
  arith,
  escape_from-clean true false cs,
  escape_from-clean false false cs,
  escape_from-clean true true cs,
)

escape_from-same : (i e : Bool) (s : Text) → is_clean (i, e) s ≡ true → escape_from (i, e) s ≡ s
unfolding is_clean escape_from escape_byte
escape_from-same i e [] h = refl
escape_from-same i true (c ∷ cs) h = ap (λ r. c ∷ r) (escape_from-same i false cs h)
escape_from-same false false (c ∷ cs) h =
    ground (arith, h, escape_from-same false false cs, escape_from-same true false cs)
escape_from-same true false (c ∷ cs) h = ground (
  arith,
  h,
  escape_from-same true false cs,
  escape_from-same false false cs,
  escape_from-same true true cs,
)

-- The repaired text has no line feed, carriage return or tab in a string, but for one that stands
-- behind a backslash, and a text is left as it is exactly if it had none.
pub escape_control_lem :
    (s : Text)
    → (is_clean (false, false) (escape_control s) ≡ true)
      × (is_clean (false, false) s ≡ true ↔ escape_control s ≡ s)
unfolding escape_control
escape_control_lem s = (
  escape_from-clean false false s,
  (
    escape_from-same false false s,
    λ e. subst (λ t. is_clean (false, false) t ≡ true) e (escape_from-clean false false s),
  ),
)
