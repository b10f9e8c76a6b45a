-- ===== src/GameKhimki/Window.antt =====
-- internal/gamekhimki/llm.go: the part of the transcript that is sent again, and the options shown.
pub mod Fitting
pub mod Offering
use psycho_space.Prelude.{
  ℕ, suc, ◌+◌, ◌*◌, ℤ, pos, negsuc, Text, eq_text, has_text, trim_space, Bool, true, false, ◌&&◌,
  ◌||◌, List, [], ◌∷◌, ◌++◌, leb, ◌==◌, if◌then◌else◌, length,
}
use psycho_space.GameKhimki.Defs.{Character, Exchange, history_exchanges, option_count}

abbrev pub est_tokens : Text → ℕ
est_tokens s = length s + 1

unfoldable pub options_tokens : List Text → ℕ
options_tokens [] = 0
options_tokens (o ∷ os) = est_tokens o + options_tokens os

-- `exchangeTokens`
unfoldable pub exchange_tokens : Exchange → ℕ
unfolding options_tokens
exchange_tokens ex = est_tokens ex.choice + est_tokens ex.reply + options_tokens ex.options

-- The loop from the newest exchange on: what it has kept, what that costs, and whether it goes on.
pub record Window : Type 0 where
  pub kept : List Exchange
  pub used : ℕ
  pub going : Bool

unfoldable pub window_from : ℕ → List Exchange → Window
unfolding exchange_tokens
window_from budget [] = record { kept = []; used = 0; going = true }
window_from budget (ex ∷ exs) =
    let w = window_from budget exs in
    if w.going
      && leb (length (ex ∷ exs)) history_exchanges
      && leb (w.used + exchange_tokens ex) budget
    then record { kept = ex ∷ w.kept; used = w.used + exchange_tokens ex; going = true }
    else record w { going = false }

-- `windowTranscript`
unfoldable pub window_transcript : List Exchange → ℤ → List Exchange
unfolding window_from
window_transcript transcript (negsuc n) = []
window_transcript transcript (pos budget) =
    if budget == 0 then [] else (window_from budget transcript).kept

abbrev pub max_recently_offered : ℕ
max_recently_offered = 6 * option_count

-- The options listed, and the keys seen.
pub record Offered : Type 0 where
  pub seen : List Text
  pub out : List Text

module _ (lower : Text → Text) where
  -- `add`: whether the list goes on.
  unfoldable pub add_offer : Offered → Text → Offered × Bool
  add_offer s opt =
      let o = trim_space opt in
      if eq_text o [] || has_text (lower o) s.seen
      then (s, true)
      else if leb max_recently_offered (length s.out)
      then (s, false)
      else (record { seen = lower o ∷ s.seen; out = s.out ++ o ∷ [] }, true)

  unfoldable pub add_offers : Offered → List Text → Offered × Bool
  unfolding add_offer
  add_offers s [] = (s, true)
  add_offers s (o ∷ os) = elim (add_offer s o).1 [
    | false ↦ ((add_offer s o).0, false)
    | true ↦ add_offers (add_offer s o).0 os
  ]

  -- The exchanges, from the newest on.
  unfoldable pub add_exchanges : List Exchange → Offered × Bool
  unfolding add_offers
  add_exchanges [] = (record { seen = []; out = [] }, true)
  add_exchanges (ex ∷ exs) = elim (add_exchanges exs).1 [
    | false ↦ ((add_exchanges exs).0, false)
    | true ↦ add_offers (add_exchanges exs).0 ex.options
  ]

  -- `recentlyOffered`
  unfoldable pub recently_offered : Character → List Exchange → List Text
  unfolding add_exchanges
  recently_offered ch windowed = elim (add_exchanges windowed).1 [
    | false ↦ (add_exchanges windowed).0.out
    | true ↦ (add_offers (add_exchanges windowed).0 ch.opening_options).0.out
  ]

-- `nonEmpty`
unfoldable pub non_empty : List Text → List Text
non_empty [] = []
non_empty (s ∷ ss) =
    let rest = non_empty ss in if eq_text (trim_space s) [] then rest else trim_space s ∷ rest
