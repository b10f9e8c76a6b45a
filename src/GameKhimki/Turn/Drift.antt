-- ===== src/GameKhimki/Turn/Drift.antt =====
-- internal/gamekhimki/llm.go: a dialogue whose judge keeps silent on the anger is lost in the end.
use psycho_space.Prelude.{
  ℕ, ◌+◌, ◌*◌, ◌≤◌, ◌<◌, ◌≡◌, refl, ap, ◌∙◌, ℤ, pos, ◌⊎◌, inl, inr, Text, Bool, true, false, ◌&&◌,
  ◌||◌, not, List, [], ◌∷◌, ◌++◌, Option, none, some, ltb, if◌then◌else◌, arith, length,
}
use psycho_space.GameKhimki.Defs.{
  Character, Exchange, JudgeReply, TurnResult, clamp_anger, anger_lose_at, max_anger,
}
use psycho_space.GameKhimki.Salvage.{Field}
use psycho_space.GameKhimki.Themes.{engagement}
use psycho_space.GameKhimki.Turn.{
  LlmResponse, answered, Choice, judge, hear, themes_before, turn_of, new_anger, is_over,
  read_reply,
}
use psycho_space.GameKhimki.Turn.Fairness.{clamp_anger-bounded}

-- What the player says, and what the provider answers.
pub record Move : Type 0 where
  pub choice : Text
  pub response : LlmResponse

module _ (strings : Text → Option (List Text)) (object : Text → Option (List Field))
    (parse : Text → Option JudgeReply) (lower : Text → Text) (ch : Character) where
  -- Whether a client that carries the transcript, the anger and the themes from turn to turn loses.
  abbrev pub exchange : Move → TurnResult → Exchange
  exchange m r = record { choice = m.choice; reply = r.reply; options = r.options }

  unfoldable pub loses : List Exchange → ℤ → List Text → List Move → Bool
  loses transcript anger themes [] = false
  loses transcript anger themes (m ∷ moves) =
      elim (judge strings object parse lower (λ c t x a d e. m.response) ch transcript m.choice
        anger themes) [
          | inl err ↦ loses transcript anger themes moves
          | inr r ↦
              r.game_over
              || not r.achieved
                && loses (transcript ++ exchange m r ∷ []) (pos r.anger) r.themes_done moves
        ]

  -- The answer can be read, has not been convinced and says nothing about the anger.
  abbrev pub IsSilent : Move → Type 0
  IsSilent m =
      (jr : JudgeReply) × (c : Choice) × (cs : List Choice) × (m.response ≡ answered (c ∷ cs))
      × (read_reply strings object parse c.content ≡ some jr)
      × (jr.anger ≡ none)
      × (jr.achieved ≡ false)

  drifted :
      (anger : ℕ)
      → new_anger anger none ≡ (if ltb max_anger (anger + 5) then max_anger else anger + 5)
  unfolding new_anger clamp_anger
  drifted anger = refl

  abbrev pub AllSilent : List Move → Type 0
  AllSilent [] = Unit {0}
  AllSilent (m ∷ moves) = IsSilent m × AllSilent moves

  -- A silent answer ends the game or brings the anger nearer to the end.
  abbrev Drifts : ℕ → TurnResult → Type 0
  Drifts anger r =
      (r.game_over ≡ true)
      ⊎ ((r.game_over ≡ false)
          × (r.achieved ≡ false)
          × (anger + 5 ≤ r.anger)
          × (r.anger < anger_lose_at))

  turn_of-Drifts :
      (anger : ℕ) (done : List Text) (eng : Text → ℕ) (jr : JudgeReply)
      → anger ≤ max_anger
      → jr.anger ≡ none
      → jr.achieved ≡ false
      → Drifts anger (turn_of lower ch anger done eng jr)
  unfolding turn_of is_over
  turn_of-Drifts anger done eng jr low e a =
      let now : new_anger anger jr.anger ≡ new_anger anger none = ap (new_anger anger) e in
      ground (arith, low, now, drifted anger, a)

  hear-silent :
      (anger : ℤ) (done : List Text) (eng : Text → ℕ) (m : Move) (h : IsSilent m)
      → hear strings object parse lower ch (clamp_anger anger) done eng m.response
        ≡ inr (turn_of lower ch (clamp_anger anger) done eng h.0)
  unfolding hear
  hear-silent anger done eng m (jr, c, cs, said, read, silent, unmoved) =
      rw said (rw (read, hear) refl)

  judge-Drifts :
      (transcript : List Exchange) (anger : ℤ) (themes : List Text) (m : Move)
      → IsSilent m
      → (r : TurnResult) × (judge strings object parse lower
            (λ c t x a d e. m.response)
            ch
            transcript
            m.choice
            anger
            themes
          ≡ inr r)
        × Drifts (clamp_anger anger) r
  unfolding judge
  judge-Drifts transcript anger themes m h =
      let done : List Text = themes_before lower ch transcript m.choice themes in
      let eng : Text → ℕ = engagement lower ch.themes transcript m.choice in
      (
        turn_of lower ch (clamp_anger anger) done eng h.0,
        hear-silent anger done eng m h,
        turn_of-Drifts (clamp_anger anger) done eng h.0 (clamp_anger-bounded anger) h.5 h.6,
      )

  clamp_anger-low : (n : ℕ) → n < anger_lose_at → clamp_anger (pos n) ≡ n
  unfolding clamp_anger
  clamp_anger-low n h = ground (arith, h)

  loses-step :
      (transcript : List Exchange) (anger : ℤ) (themes : List Text) (m : Move) (moves : List Move)
      (r : TurnResult)
      → judge strings object parse lower
          (λ c t x a d e. m.response)
          ch
          transcript
          m.choice
          anger
          themes
        ≡ inr r
      → loses transcript anger themes (m ∷ moves) ≡ (
          r.game_over
          || not r.achieved
            && loses (transcript ++ exchange m r ∷ []) (pos r.anger) r.themes_done moves)
  unfolding loses
  loses-step transcript anger themes m moves r e = rw (e, loses) refl

  -- If every answer can be read, says nothing of the anger, and is not that of one who is convinced,
  -- the dialogue is lost within as many turns as the drift of five a turn takes to bring the anger
  -- from where it begins to the end of the scale, 90.
  pub loses_lem :
      (transcript : List Exchange) (anger : ℤ) (themes : List Text) (m : Move) (moves : List Move)
      → AllSilent (m ∷ moves)
      → anger_lose_at ≤ clamp_anger anger + 5 * length (m ∷ moves)
      → loses transcript anger themes (m ∷ moves) ≡ true
  loses_lem transcript anger themes m [] h far =
      let (r, e, d) = judge-Drifts transcript anger themes m h.0 in
      loses-step transcript anger themes m [] r e ∙ ground (arith, d, far)
  loses_lem transcript anger themes m (n ∷ moves) h far =
      let (r, e, d) = judge-Drifts transcript anger themes m h.0 in
      loses-step transcript anger themes m (n ∷ moves) r e ∙ elim d [
        | inl over ↦ ground (arith, over)
        | inr d ↦ ground (
          arith,
          d.0,
          d.1,
          loses_lem (transcript ++ exchange m r ∷ []) (pos r.anger) r.themes_done n moves h.1
              (omega (arith, far, d.2, clamp_anger-low r.anger d.3)),
        )
      ]
