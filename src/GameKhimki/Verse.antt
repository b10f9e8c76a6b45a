-- ===== src/GameKhimki/Verse.antt =====
-- internal/gamekhimki/llm.go: normalizeVerse. 10 is the line feed, 13 the carriage return, 92 the
-- backslash, 110 and 114 the letters n and r.
pub mod Ending
use psycho_space.Prelude.{
  ℕ, zero, suc, Text, trim_space, has_prefix, contains_text, true, false, [], ◌∷◌, if◌then◌else◌,
  length,
}

-- The length of the first pattern of the replacer that begins a text, 0 if none does.
unfoldable pub break_at : Text → ℕ
break_at s =
    if has_prefix (92 ∷ 114 ∷ 92 ∷ 110 ∷ []) s
    then 4
    else if has_prefix (92 ∷ 110 ∷ []) s
    then 2
    else if has_prefix (92 ∷ 114 ∷ []) s
    then 2
    else if has_prefix (13 ∷ 10 ∷ []) s
    then 2
    else if has_prefix (13 ∷ []) s
    then 1
    else 0

-- The replacer, with the number of runes that the last match still takes.
unfoldable pub real_lines : ℕ → Text → Text
unfolding break_at
real_lines skip [] = []
real_lines (suc skip) (c ∷ cs) = real_lines skip cs
real_lines zero (c ∷ cs) = elim (break_at (c ∷ cs)) [
  | zero ↦ c ∷ real_lines zero cs
  | suc n ↦ 10 ∷ real_lines n cs
]

abbrev pub three_lines : Text
three_lines = 10 ∷ 10 ∷ 10 ∷ []

-- `strings.ReplaceAll(s, "\n\n\n", "\n\n")`, likewise.
unfoldable pub collapse : ℕ → Text → Text
collapse skip [] = []
collapse (suc skip) (c ∷ cs) = collapse skip cs
collapse zero (c ∷ cs) = elim (has_prefix three_lines (c ∷ cs)) [
  | true ↦ 10 ∷ 10 ∷ collapse 2 cs
  | false ↦ c ∷ collapse zero cs
]

-- The loop, on fuel.
unfoldable pub collapse_all : ℕ → Text → Text
unfolding collapse
collapse_all zero s = s
collapse_all (suc fuel) s = elim (contains_text s three_lines) [
  | true ↦ collapse_all fuel (collapse 0 s)
  | false ↦ s
]

-- `normalizeVerse`. Every round of the loop shortens the text, so its length is fuel enough.
unfoldable pub normalize_verse : Text → Text
unfolding real_lines collapse_all
normalize_verse s = let t = real_lines 0 s in trim_space (collapse_all (length t) t)
