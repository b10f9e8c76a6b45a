-- ===== src/GameKhimki/Window/Fitting.antt =====
-- internal/gamekhimki/llm.go: windowTranscript keeps the longest recent part that fits.
use psycho_space.Prelude.{
  ℕ, zero, suc, ◌+◌, ◌≤◌, ◌<◌, ◌≡◌, refl, sym, subst, ap, ℤ, pos, negsuc, ◌⊎◌, inl, inr, true,
  false, List, [], ◌∷◌, ◌++◌, if◌then◌else◌, arith, length, ◌==◌,
}
use psycho_space.GameKhimki.Defs.{Exchange, history_exchanges}
use psycho_space.GameKhimki.Window.{Window, exchange_tokens, window_from, window_transcript}

unfoldable pub cost : List Exchange → ℕ
cost [] = 0
cost (ex ∷ exs) = exchange_tokens ex + cost exs

abbrev pub Fits : ℕ → List Exchange → Type 0
Fits budget exs = (length exs ≤ history_exchanges) × (cost exs ≤ budget)

-- A window of a transcript: its newest part, which fits, and with one exchange more would not.
abbrev pub IsWindow : ℕ → List Exchange → List Exchange → Type 0
IsWindow budget transcript kept =
    Fits budget kept
    × ((kept ≡ transcript)
        ⊎ ((older : List Exchange) × (ex : Exchange) × (transcript ≡ older ++ ex ∷ kept)
            × ((history_exchanges < suc (length kept))
                ⊎ (budget < exchange_tokens ex + cost kept))))

abbrev IsLoop : ℕ → List Exchange → Window → Type 0
IsLoop budget exs w =
    Fits budget w.kept
    × (w.used ≡ cost w.kept)
    × ((w.going ≡ true) × (w.kept ≡ exs)
        ⊎ (w.going ≡ false)
          × ((older : List Exchange) × (ex : Exchange) × (exs ≡ older ++ ex ∷ w.kept)
              × ((history_exchanges < suc (length w.kept))
                  ⊎ (budget < exchange_tokens ex + cost w.kept))))

window_from-how :
    (budget : ℕ) (ex : Exchange) (exs : List Exchange)
    → let w = window_from budget exs in
      ((w.going ≡ true)
        × (length (ex ∷ exs) ≤ history_exchanges)
        × (w.used + exchange_tokens ex ≤ budget)
        × (window_from budget (ex ∷ exs)
            ≡ record { kept = ex ∷ w.kept; used = w.used + exchange_tokens ex; going = true }))
      ⊎ ((window_from budget (ex ∷ exs) ≡ record w { going = false })
          × ((w.going ≡ false)
              ⊎ ((history_exchanges < length (ex ∷ exs)) ⊎ (budget < w.used + exchange_tokens ex))))
unfolding window_from
window_from-how budget ex exs = ground arith

module _ (budget : ℕ) where
  IsLoop-add :
      (ex : Exchange) (exs : List Exchange) (w : Window)
      → IsLoop budget exs w
      → w.going ≡ true
      → length (ex ∷ exs) ≤ history_exchanges
      → w.used + exchange_tokens ex ≤ budget
      → IsLoop budget
          (ex ∷ exs)
          record { kept = ex ∷ w.kept; used = w.used + exchange_tokens ex; going = true }
  unfolding cost
  IsLoop-add ex exs w (fits, used, inr h) g l c = ground (arith, g, h.0)
  IsLoop-add ex exs w (fits, used, inl h) g l c = (
    (omega (arith, ap length h.1, l), omega (arith, c, used)),
    omega (arith, used),
    inl (refl, ap (λ xs. ex ∷ xs) h.1),
  )

  IsLoop-stop :
      (ex : Exchange) (exs : List Exchange) (w : Window)
      → IsLoop budget exs w
      → (w.going ≡ false)
        ⊎ ((history_exchanges < length (ex ∷ exs)) ⊎ (budget < w.used + exchange_tokens ex))
      → IsLoop budget (ex ∷ exs) (record w { going = false })
  IsLoop-stop ex exs w (fits, used, inr (g, (older, last, e, why))) reason =
      (fits, used, inr (refl, (ex ∷ older, last, ap (λ xs. ex ∷ xs) e, why)))
  IsLoop-stop ex exs w (fits, used, inl h) (inl g) = ground (arith, g, h.0)
  IsLoop-stop ex exs w (fits, used, inl h) (inr (inl long)) = (
    fits,
    used,
    inr (refl, ([], ex, ap (λ xs. ex ∷ xs) (sym h.1), inl (omega (arith, long, ap length h.1)))),
  )
  IsLoop-stop ex exs w (fits, used, inl h) (inr (inr dear)) = (
    fits,
    used,
    inr (refl, ([], ex, ap (λ xs. ex ∷ xs) (sym h.1), inr (omega (arith, dear, used)))),
  )

  window_from-IsLoop : (exs : List Exchange) → IsLoop budget exs (window_from budget exs)
  unfolding window_from cost
  window_from-IsLoop [] = ((omega arith, omega arith), refl, inl (refl, refl))
  window_from-IsLoop (ex ∷ exs) = elim (window_from-how budget ex exs) [
    | inl (g, l, c, e) ↦
        subst (IsLoop budget (ex ∷ exs)) (sym e)
          (IsLoop-add ex exs (window_from budget exs) (window_from-IsLoop exs) g l c)
    | inr (e, reason) ↦
        subst (IsLoop budget (ex ∷ exs)) (sym e)
          (IsLoop-stop ex exs (window_from budget exs) (window_from-IsLoop exs) reason)
  ]

  IsWindow-IsLoop :
      (exs : List Exchange) (w : Window) → IsLoop budget exs w → IsWindow budget exs w.kept
  IsWindow-IsLoop exs w (fits, used, inl h) = (fits, inl h.1)
  IsWindow-IsLoop exs w (fits, used, inr h) = (fits, inr h.1)

abbrev pub budget_of : ℤ → ℕ
budget_of (pos n) = n
budget_of (negsuc n) = 0

free-empty : (exs : List Exchange) → cost exs ≤ 0 → exs ≡ []
unfolding cost exchange_tokens
free-empty [] h = refl
free-empty (ex ∷ exs) h = ground (arith, h)

nothing : (transcript : List Exchange) → IsWindow 0 transcript []
nothing transcript =
    let w = window_from 0 transcript in
    let window : IsWindow 0 transcript w.kept =
      IsWindow-IsLoop 0 transcript w (window_from-IsLoop 0 transcript) in
    subst (IsWindow 0 transcript) (free-empty w.kept window.0.1) window

-- The window is the newest part of the transcript that fits both the budget (nothing fits one that is
-- not positive) and the number of exchanges, in order, and with one exchange more it would not fit.
pub window_transcript_lem :
    (transcript : List Exchange) (budget : ℤ)
    → IsWindow (budget_of budget) transcript (window_transcript transcript budget)
unfolding window_transcript
window_transcript_lem transcript (negsuc n) = nothing transcript
window_transcript_lem transcript (pos zero) = nothing transcript
window_transcript_lem transcript (pos (suc n)) =
    let w = window_from (suc n) transcript in
    let open_ : (if suc n == 0 then [] else w.kept) ≡ w.kept = ground arith in
    rw open_ (IsWindow-IsLoop (suc n) transcript w (window_from-IsLoop (suc n) transcript))
