-- ===== src/GameKhimki/Themes/Steering.antt =====
-- internal/gamekhimki/llm.go: which closed theme the next options are steered at.
use psycho_space.Prelude.{
  ℕ, ◌≤◌, ◌<◌, ◌≡◌, ◌⊎◌, inl, inr, subst, sym, Text, has_text, true, false, List, [], ◌∷◌, Option,
  none, some, arith, not, Every-keep-imp, keep-Every, eq_text_refl, map, leb, ltb, Bool-cases,
  Every, Every-imp,
}
use psycho_space.GameKhimki.Defs.{Theme, Character, theme_keys, theme_confirm_turns}
use psycho_space.GameKhimki.Themes.{open_themes, least, steer_among, steer_theme}

module _ (eng : Text → ℕ) where
  abbrev pub NoMore : ℕ → Theme → Type 0
  NoMore n t = n ≤ eng t.key

  least-how :
      (best t : Theme) (ts : List Theme)
      → ((least eng best (t ∷ ts) ≡ least eng t ts) × (eng t.key ≤ eng best.key))
        ⊎ ((least eng best (t ∷ ts) ≡ least eng best ts) × (eng best.key ≤ eng t.key))
  unfolding least
  least-how best t ts = ground arith

  abbrev IsLow : Theme → List Theme → Theme → Type 0
  IsLow best ts x = (eng x.key ≤ eng best.key) × Every (NoMore (eng x.key)) ts

  -- The search for the least engaged theme ends at none that is above another.
  least-IsLow : (best : Theme) (ts : List Theme) → IsLow best ts (least eng best ts)
  unfolding least
  least-IsLow best [] = (ground arith, tt)
  least-IsLow best (t ∷ ts) = elim (least-how best t ts) [
    | inl e ↦
        let low = least-IsLow t ts in
        subst (IsLow best (t ∷ ts)) (sym e.0) (ground (arith, e.1, low.0), (low.0, low.1))
    | inr e ↦
        let low = least-IsLow best ts in
        subst (IsLow best (t ∷ ts)) (sym e.0) (low.0, (ground (arith, e.1, low.0), low.1))
  ]

  least-among :
      (P : Theme → Type 0) (best : Theme) (ts : List Theme)
      → P best
      → Every P ts
      → P (least eng best ts)
  unfolding least
  least-among P best [] h g = h
  least-among P best (t ∷ ts) h g = elim (Bool-cases (ltb (eng t.key) (eng best.key))) [
    | inl e ↦ rw (e, least) (least-among P t ts g.0 g.1)
    | inr e ↦ rw (e, least) (least-among P best ts h g.1)
  ]

  abbrev pub IsClosed : List Text → Theme → Type 0
  IsClosed done t = has_text t.key done ≡ false

  abbrev pub IsOf : List Text → Theme → Type 0
  IsOf keys t = has_text t.key keys ≡ true

  abbrev pub IsSteered : (Theme → Type 0) → List Theme → Option Theme → Type 0
  IsSteered P ts none = Every (NoMore theme_confirm_turns) ts
  IsSteered P ts (some t) = P t × (eng t.key < theme_confirm_turns) × Every (NoMore (eng t.key)) ts

  steer_among-IsSteered :
      (P : Theme → Type 0) (ts : List Theme) → Every P ts → IsSteered P ts (steer_among eng ts)
  unfolding steer_among
  steer_among-IsSteered P [] h = tt
  steer_among-IsSteered P (t ∷ ts) h =
      let every : Every (NoMore (eng (least eng t ts).key)) (t ∷ ts) = least-IsLow t ts in
      elim (Bool-cases (leb theme_confirm_turns (eng (least eng t ts).key))) [
        | inl e ↦ rw e (
            Every-imp (NoMore (eng (least eng t ts).key)) (NoMore theme_confirm_turns) (t ∷ ts)
              (λ x le. ground (arith, e, le)) every)
        | inr e ↦ rw e (least-among P t ts h.0 h.1, ground (arith, e), every)
      ]

  abbrev pub IsOpening : Character → List Text → Theme → Type 0
  IsOpening ch done t = IsOf (theme_keys ch) t × IsClosed done t

  themes-IsOf :
      (keys : List Text) (ts : List Theme)
      → ((k : Text) → has_text k (map (λ (t : Theme). t.key) ts) ≡ true → has_text k keys ≡ true)
      → Every (IsOf keys) ts
  unfolding has_text
  themes-IsOf keys [] f = tt
  themes-IsOf keys (t ∷ ts) f = (
    f t.key (ground (arith, eq_text_refl t.key)),
    themes-IsOf keys ts (λ k e. f k (ground (arith, e))),
  )

  open_themes-IsOpening :
      (ch : Character) (done : List Text) → Every (IsOpening ch done) (open_themes ch done)
  unfolding open_themes
  open_themes-IsOpening ch done =
      Every-keep-imp (IsOf (theme_keys ch)) (IsOpening ch done) (λ t. not (has_text t.key done))
        ch.themes (λ t h e. (h, ground (arith, e)))
        (themes-IsOf (theme_keys ch) ch.themes (λ k e. e))

  -- A theme has been opened, or has been touched in as many exchanges.
  abbrev pub IsOpenedOr : List Text → ℕ → Theme → Type 0
  IsOpenedOr done n t = (has_text t.key done ≡ true) ⊎ (n ≤ eng t.key)

  abbrev pub IsChosen : Character → List Text → Option Theme → Type 0
  IsChosen ch done none = Every (IsOpenedOr done theme_confirm_turns) ch.themes
  IsChosen ch done (some t) =
      IsOpening ch done t
      × (eng t.key < theme_confirm_turns)
      × Every (IsOpenedOr done (eng t.key)) ch.themes

  open_themes-Every :
      (ch : Character) (done : List Text) (n : ℕ)
      → Every (NoMore n) (open_themes ch done)
      → Every (IsOpenedOr done n) ch.themes
  unfolding open_themes
  open_themes-Every ch done n h =
      Every-imp (λ t. (not (has_text t.key done) ≡ false) ⊎ NoMore n t) (IsOpenedOr done n)
        ch.themes (λ t g. elim g [ inl e ↦ inl (ground (arith, e)) | inr le ↦ inr le ])
        (keep-Every (NoMore n) (λ t. not (has_text t.key done)) ch.themes h)

  IsSteered-IsChosen :
      (ch : Character) (done : List Text) (o : Option Theme)
      → IsSteered (IsOpening ch done) (open_themes ch done) o
      → IsChosen ch done o
  IsSteered-IsChosen ch done none h = open_themes-Every ch done theme_confirm_turns h
  IsSteered-IsChosen ch done (some t) h = (h.0, h.1, open_themes-Every ch done (eng t.key) h.2)

  -- The theme that the next options are steered at is one of the character's, is still closed, has
  -- been touched in fewer than two exchanges, and every other theme of the character that is closed
  -- has been touched in as many. There is none only if every closed theme has been touched in two.
  pub steer_theme_lem :
      (ch : Character) (done : List Text) → IsChosen ch done (steer_theme ch done eng)
  unfolding steer_theme
  steer_theme_lem ch done = IsSteered-IsChosen ch done (steer_among eng (open_themes ch done)) (
      steer_among-IsSteered (IsOpening ch done) (open_themes ch done)
        (open_themes-IsOpening ch done))
