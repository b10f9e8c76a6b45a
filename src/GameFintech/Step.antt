-- ===== src/GameFintech/Step.antt =====
-- The choice of the next cell among the neighbours.
use psycho_space.Prelude.{
  ℕ, ◌<◌, ◌≡◌, ◌≢◌, ◌⊎◌, Bool, true, ◌||◌, not, List, [], ◌∷◌, Option, none, some, ◌==◌, arith, inl,
  inr, Bool-cases, ltb,
}
use psycho_space.GameFintech.Navigate.{better, best_of}
use psycho_space.GameFintech.Flood.{has}

module _ (free : ℕ → Bool) (label : ℕ → ℕ) where
  -- A cell that may be stepped to for less than a bound.
  abbrev pub IsStep : ℕ → ℕ → Type 0
  IsStep bound n = (free n ≡ true) × (label n ≢ 0) × (label n < bound)

  best_of_kept :
      (os : List (Option ℕ)) (k bound : ℕ) → (best_of free label os (some k, bound)).0 ≢ none
  unfolding best_of better
  best_of_kept [] k bound e = cc
  best_of_kept (none ∷ os) k bound e = best_of_kept os k bound e
  best_of_kept (some n ∷ os) k bound e = elim (Bool-cases (not (free n) || label n == 0)) [
    | inl skip ↦ best_of_kept os k bound (ground (arith, e, skip))
    | inr go_ ↦ elim (Bool-cases (ltb (label n) bound)) [
      | inl less ↦ best_of_kept os n (label n) (ground (arith, e, go_, less))
      | inr more ↦ best_of_kept os k bound (ground (arith, e, go_, more))
    ]
  ]

  -- The cell that the loop picks is one of those it looks at, free, labelled, and below the bound.
  pub best_of_picks :
      (os : List (Option ℕ)) (best : Option ℕ × ℕ) (n : ℕ)
      → (best_of free label os best).0 ≡ some n
      → (best.0 ≡ some n)
        ⊎ ((has n os ≡ true) × (free n ≡ true) × (label n ≢ 0) × (label n < best.1))
  unfolding best_of better has
  best_of_picks [] best n e = inl e
  best_of_picks (none ∷ os) best n e = best_of_picks os best n e
  best_of_picks (some k ∷ os) best n e =
      ground (arith, e, best_of_picks os best n, best_of_picks os (some k, label k) n)

  passed_over :
      (k m bound : ℕ)
      → (os : List (Option ℕ)) → has m (some k ∷ os) ≡ true
      → free m ≡ true
      → label m ≢ 0
      → label m < bound
      → not (free k) || label k == 0 || not (ltb (label k) bound) ≡ true
      → has m os ≡ true
  unfolding has
  passed_over k m bound os h f l b skip = elim (Bool-cases (m == k)) [
    | inl here ↦
        let same : m ≡ k = ground (arith, here) in absurd (ground (arith, f, l, b, skip, same))
    | inr there ↦ ground (arith, h, there)
  ]

  -- If there is such a cell the loop picks one.
  pub best_of_finds :
      (os : List (Option ℕ)) (bound m : ℕ)
      → has m os ≡ true
      → free m ≡ true
      → label m ≢ 0
      → label m < bound
      → (best_of free label os (none, bound)).0 ≢ none
  unfolding best_of better has
  best_of_finds [] bound m h f l b e = cc
  best_of_finds (none ∷ os) bound m h f l b e = best_of_finds os bound m h f l b e
  best_of_finds (some k ∷ os) bound m h f l b e =
      elim (Bool-cases (not (free k) || label k == 0 || not (ltb (label k) bound))) [
        | inl skip ↦
            best_of_finds os bound m (passed_over k m bound os h f l b skip) f l b
              (ground (arith, e, skip))
        | inr go_ ↦ best_of_kept os k (label k) (ground (arith, e, go_))
      ]
