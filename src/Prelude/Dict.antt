-- ===== src/Prelude/Dict.antt =====
-- A map with numbers as keys, as an association list: Go's built-in maps, and the tables that are
-- looked up by an identifier. The laws in `if` form are what the components use.
use Prim.Native.Nat.{ℕ, ◌+◌}
use mathlib.Core.Path.{◌≡◌, refl}
use mathlib.Core.Bool.{Bool, true}
use mathlib.Core.List.{List, [], ◌∷◌}
use mathlib.Core.Option.{Option, none, some}
use native.Mathlib.Omega.{arith}
use psycho_space.Prelude.Tests.{◌==◌, if◌then◌else◌}
use psycho_space.Prelude.Lists.{length}

abbrev pub Dict {ℓ} : Type ℓ → Type ℓ
Dict V = List (ℕ × V)

module _ {ℓ} {V : Type ℓ} where
  unfoldable pub get : ℕ → Dict V → Option V
  get k [] = none
  get k ((j, v) ∷ m) = if j == k then some v else get k m

  unfoldable pub put : ℕ → V → Dict V → Dict V
  put k v [] = (k, v) ∷ []
  put k v ((j, w) ∷ m) = if j == k then (k, v) ∷ m else (j, w) ∷ put k v m

  unfoldable pub del : ℕ → Dict V → Dict V
  del k [] = []
  del k ((j, v) ∷ m) = let rest = del k m in if j == k then rest else (j, v) ∷ rest

  -- No key stands twice.
  abbrev pub IsMap : Dict V → Type ℓ
  IsMap [] = Unit
  IsMap ((k, v) ∷ m) = (get k m ≡ none) × IsMap m

  -- How many values pass a test.
  unfoldable pub tally : (V → Bool) → Dict V → ℕ
  tally p [] = 0
  tally p ((k, v) ∷ m) = (if p v then 1 else 0) + tally p m

  pub get-put :
      (k j : ℕ) (v : V) (m : Dict V) → get j (put k v m) ≡ (if k == j then some v else get j m)
  unfolding get put
  get-put k j v [] = refl
  get-put k j v ((i, w) ∷ m) = ground (arith, get-put k j v m)

  pub get-del : (k j : ℕ) (m : Dict V) → get j (del k m) ≡ (if k == j then none else get j m)
  unfolding get del
  get-del k j [] = ground arith
  get-del k j ((i, w) ∷ m) = ground (arith, get-del k j m)

  pub put-IsMap : (k : ℕ) (v : V) (m : Dict V) → IsMap m → IsMap (put k v m)
  unfolding get put
  put-IsMap k v [] h = (refl, tt)
  put-IsMap k v ((j, w) ∷ m) h = ground (arith, put-IsMap k v m h.1, get-put k j v m)

  pub del-IsMap : (k : ℕ) (m : Dict V) → IsMap m → IsMap (del k m)
  unfolding del
  del-IsMap k [] h = tt
  del-IsMap k ((j, w) ∷ m) h = ground (arith, del-IsMap k m h.1, get-del k j m)

  -- Deleting an absent key changes nothing.
  pub del-eq_self : (k : ℕ) (m : Dict V) → get k m ≡ none → del k m ≡ m
  unfolding get del
  del-eq_self k [] h = refl
  del-eq_self k ((j, w) ∷ m) h = ground (arith, del-eq_self k m)

  pub del-put : (k : ℕ) (v : V) (m : Dict V) → del k (put k v m) ≡ del k m
  unfolding put del
  del-put k v [] = ground arith
  del-put k v ((j, w) ∷ m) = ground (arith, del-put k v m)

  pub tally-del :
      (p : V → Bool) (k : ℕ) (v : V) (m : Dict V)
      → IsMap m
      → get k m ≡ some v
      → tally p (del k m) + (if p v then 1 else 0) ≡ tally p m
  unfolding get del tally
  tally-del p k v [] h e = ground arith
  tally-del p k v ((j, w) ∷ m) h e = ground (arith, tally-del p k v m h.1, del-eq_self j m h.0)

  pub tally-put_new :
      (p : V → Bool) (k : ℕ) (v : V) (m : Dict V)
      → get k m ≡ none
      → tally p (put k v m) ≡ tally p m + (if p v then 1 else 0)
  unfolding get put tally
  tally-put_new p k v [] e = ground arith
  tally-put_new p k v ((j, w) ∷ m) e = ground (arith, tally-put_new p k v m)

  pub tally-put_over :
      (p : V → Bool) (k : ℕ) (v w : V) (m : Dict V)
      → get k m ≡ some w
      → tally p (put k v m) + (if p w then 1 else 0) ≡ tally p m + (if p v then 1 else 0)
  unfolding get put tally
  tally-put_over p k v w [] e = ground arith
  tally-put_over p k v w ((j, u) ∷ m) e = ground (arith, tally-put_over p k v w m)

  pub length-tally : (m : Dict V) → length m ≡ tally (λ _. true) m
  unfolding tally
  length-tally [] = refl
  length-tally ((k, v) ∷ m) = ground (arith, length-tally m)
