-- ===== src/GameKhimki/Turn/Openings.antt =====
-- internal/gamekhimki/llm.go: the themes that are open after a turn.
use psycho_space.Prelude.{
  ℕ, ◌≡◌, subst, ℤ, Text, has_text, Bool, true, ◌&&◌, ◌||◌, not, List, Option, none, some, leb,
  arith, Every,
}
use psycho_space.GameKhimki.Defs.{Character, Exchange, JudgeReply, theme_keys, theme_confirm_turns}
use psycho_space.GameKhimki.Salvage.{Field}
use psycho_space.GameKhimki.Themes.{clamp_themes, auto_mark_themes, engagement}
use psycho_space.GameKhimki.Themes.Progress.{
  IsPlain, clamp-own, clamp-IsPlain, auto_mark-has, confirm-has, confirm-clamp, auto_mark-clamp,
}
use psycho_space.GameKhimki.Turn.{LlmResponse, judge, themes_before, turn_of, new_themes}
use psycho_space.GameKhimki.Turn.Fairness.{OnTurn, judge-OnTurn}

abbrev pub Implies : Bool → Bool → Type 0
Implies a b = (not a || b) ≡ true

module _ (lower : Text → Text) (ch : Character)
    (plain : Every (IsPlain lower) (theme_keys ch)) where
  -- Of a theme: it stays open, it opens only as one of the character's that two exchanges have touched,
  -- and what is open comes back whole when the client sends it with the next turn.
  abbrev pub IsEarned : List Text → (Text → ℕ) → Text → List Text → Type 0
  IsEarned themes eng k now =
      Implies (has_text k (clamp_themes lower ch themes)) (has_text k now)
      × Implies (has_text k now) (
          has_text k (clamp_themes lower ch themes)
          || has_text k (theme_keys ch) && leb theme_confirm_turns (eng k))
      × (clamp_themes lower ch now ≡ now)

  marked-IsPlain :
      (themes : List Text) (eng : Text → ℕ)
      → Every (IsPlain lower) (auto_mark_themes lower ch (clamp_themes lower ch themes) eng)
  marked-IsPlain themes eng =
      subst (Every (IsPlain lower)) (auto_mark-clamp lower ch plain themes eng) (
        clamp-IsPlain lower ch plain (auto_mark_themes lower ch (clamp_themes lower ch themes) eng))

  new_themes-IsEarned :
      (themes : List Text) (eng : Text → ℕ) (claim : Option (List Text)) (k : Text)
      → IsEarned themes eng k (
          new_themes lower ch
            (auto_mark_themes lower ch (clamp_themes lower ch themes) eng)
            claim
            eng)
  unfolding new_themes
  new_themes-IsEarned themes eng none k = (
    ground (arith, auto_mark-has lower ch plain k themes eng),
    ground (arith, auto_mark-has lower ch plain k themes eng),
    auto_mark-clamp lower ch plain themes eng,
  )
  new_themes-IsEarned themes eng (some claimed) k =
      let done : List Text = auto_mark_themes lower ch (clamp_themes lower ch themes) eng in
      let now = confirm-has lower ch plain k done claimed eng (marked-IsPlain themes eng) in
      (
        ground (
          arith,
          auto_mark-has lower ch plain k themes eng,
          now,
          clamp-own lower ch plain k themes,
        ),
        ground (arith, auto_mark-has lower ch plain k themes eng, now),
        confirm-clamp lower ch plain done claimed eng,
      )

  module _ (strings : Text → Option (List Text)) (object : Text → Option (List Field))
      (parse : Text → Option JudgeReply) where
    -- For a character whose theme keys are lower case and free of space at the ends: a theme that is
    -- open before a judged turn is open after it; one that is open after it was open before, or is one
    -- of the character's that two exchanges have touched; and the themes open after a turn are kept as
    -- they are when they are sent with the next.
    pub judge-IsEarned :
        (ask : Character → List Exchange → Text → ℕ → List Text → (Text → ℕ) → LlmResponse)
        (transcript : List Exchange) (choice : Text) (anger : ℤ) (themes : List Text) (k : Text)
        → OnTurn
            (λ r. IsEarned themes (engagement lower ch.themes transcript choice) k r.themes_done)
            (judge strings object parse lower ask ch transcript choice anger themes)
    unfolding themes_before turn_of
    judge-IsEarned ask transcript choice anger themes k =
        let eng : Text → ℕ = engagement lower ch.themes transcript choice in
        judge-OnTurn strings object parse lower (λ r. IsEarned themes eng k r.themes_done) ask ch
          transcript choice anger themes (λ jr. new_themes-IsEarned themes eng jr.themes_done k)
