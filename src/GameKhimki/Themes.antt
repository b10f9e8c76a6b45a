-- ===== src/GameKhimki/Themes.antt =====
-- internal/gamekhimki/llm.go: the deep subjects of a dialogue, and which of them are open.
pub mod Progress
pub mod Steering
use psycho_space.Prelude.{
  ℕ, ◌+◌, Text, trim_space, has_text, Bool, ◌||◌, ◌++◌, List, [], ◌∷◌, Option, none, some, map, ltb,
  leb, if◌then◌else◌, keep, count_by, eq_text, not, trim_space,
}
use psycho_space.GameKhimki.Defs.{
  Theme, Character, Exchange, theme_keys, matches, theme_confirm_turns, theme_auto_done_turns,
}

module _ (lower : Text → Text) where
  -- `clampThemes`
  unfoldable pub clamp_themes : Character → List Text → List Text
  clamp_themes ch got =
      keep (λ key. has_text (lower key) (map (λ g. trim_space (lower g)) got)) (theme_keys ch)

  -- `mergeThemes`
  unfoldable pub merge_themes : Character → List Text → List Text → List Text
  unfolding clamp_themes
  merge_themes ch was now = clamp_themes ch (was ++ now)

  abbrev pub engages : Theme → Exchange → Bool
  engages t ex = matches lower t ex.choice || matches lower t ex.reply

  -- The entry of one key that `themeEngagement` counts, theme by theme.
  unfoldable pub engagement : List Theme → List Exchange → Text → Text → ℕ
  engagement [] transcript choice key = 0
  engagement (t ∷ ts) transcript choice key =
      (if eq_text t.key key
        then count_by (engages t) transcript + (if matches lower t choice then 1 else 0)
        else 0)
      + engagement ts transcript choice key

  -- `autoMarkThemes`
  unfoldable pub auto_mark_themes : Character → List Text → (Text → ℕ) → List Text
  unfolding merge_themes
  auto_mark_themes ch done eng =
      elim (keep (λ k. leb theme_auto_done_turns (eng k)) (theme_keys ch)) [
        | [] ↦ done
        | k ∷ ks ↦ merge_themes ch done (k ∷ ks)
      ]

  -- `confirmThemes`
  unfoldable pub confirm_themes : Character → List Text → List Text → (Text → ℕ) → List Text
  unfolding clamp_themes merge_themes
  confirm_themes ch already claimed eng =
      merge_themes ch already (
        keep (λ c. has_text c already || leb theme_confirm_turns (eng c)) (clamp_themes ch claimed))

  -- `currentTopic`
  unfoldable pub first_match : Text → List Theme → Option Theme
  first_match text [] = none
  first_match text (t ∷ ts) = if matches lower t text then some t else first_match text ts

  unfoldable pub last : List Exchange → Option Exchange
  last [] = none
  last (x ∷ xs) = elim (last xs) [ none ↦ some x | some y ↦ some y ]

  unfoldable pub current_topic : Character → List Exchange → Text → Option Theme
  unfolding first_match last
  current_topic ch transcript choice = elim (last transcript) [
    | none ↦ first_match choice ch.themes
    | some ex ↦ first_match (choice ++ (32 ∷ []) ++ ex.reply ++ (32 ∷ []) ++ ex.choice) ch.themes
  ]

-- `openThemes`
unfoldable pub open_themes : Character → List Text → List Theme
open_themes ch done = keep (λ t. not (has_text t.key done)) ch.themes

unfoldable pub least : (Text → ℕ) → Theme → List Theme → Theme
least eng best [] = best
least eng best (t ∷ ts) = least eng (if ltb (eng t.key) (eng best.key) then t else best) ts

unfoldable pub steer_among : (Text → ℕ) → List Theme → Option Theme
unfolding least
steer_among eng [] = none
steer_among eng (t ∷ ts) =
    let best = least eng t ts in if leb theme_confirm_turns (eng best.key) then none else some best

-- `steerTheme`
unfoldable pub steer_theme : Character → List Text → (Text → ℕ) → Option Theme
unfolding open_themes steer_among
steer_theme ch done eng = steer_among eng (open_themes ch done)
