-- ===== src/Prelude/Lists.antt =====
-- Lists measured by native numbers, under the library's names, and tests on their elements.
use Prim.Native.Nat.{ℕ, suc, ◌+◌, ◌≤◌}
use mathlib.Core.Path.{◌≡◌, refl, subst}
use mathlib.Core.Bool.{Bool, true, false, ◌||◌}
use mathlib.Core.List.{List, [], ◌∷◌, ◌++◌}
use native.Mathlib.Omega.{arith}
use mathlib.Core.Logic.{◌⊎◌, inl, inr}
use psycho_space.Prelude.Tests.{◌==◌, if◌then◌else◌, Bool-cases}

module _ {ℓ} {A : Type ℓ} where
  abbrev pub length : List A → ℕ
  length [] = 0
  length (x ∷ xs) = suc (length xs)

  pub length-append : (xs ys : List A) → length (xs ++ ys) ≡ length xs + length ys
  length-append [] ys = omega arith
  length-append (x ∷ xs) ys = omega (arith, length-append xs ys)

  -- How many elements pass a test.
  unfoldable pub count_by : (A → Bool) → List A → ℕ
  count_by p [] = 0
  count_by p (x ∷ xs) = (if p x then 1 else 0) + count_by p xs

  -- The elements that pass a test, in order.
  unfoldable pub keep : (A → Bool) → List A → List A
  keep p [] = []
  keep p (x ∷ xs) = let rest = keep p xs in if p x then x ∷ rest else rest

  pub count_by-append :
      (p : A → Bool) (xs ys : List A) → count_by p (xs ++ ys) ≡ count_by p xs + count_by p ys
  unfolding count_by
  count_by-append p [] ys = omega arith
  count_by-append p (x ∷ xs) ys = omega (arith, count_by-append p xs ys)

  pub count_by-le-length : (p : A → Bool) (xs : List A) → count_by p xs ≤ length xs
  unfolding count_by
  count_by-le-length p [] = omega arith
  count_by-le-length p (x ∷ xs) = ground (arith, count_by-le-length p xs)

  -- A test that implies another passes at most as often.
  pub count_by_mono :
      (p q : A → Bool) (xs : List A)
      → ((x : A) → p x ≡ true → q x ≡ true)
      → count_by p xs ≤ count_by q xs
  unfolding count_by
  count_by_mono p q [] h = omega arith
  count_by_mono p q (x ∷ xs) h = ground (arith, h x, count_by_mono p q xs h)

  pub count_by-cong :
      (p q : A → Bool) (xs : List A) → ((x : A) → p x ≡ q x) → count_by p xs ≡ count_by q xs
  unfolding count_by
  count_by-cong p q [] h = refl
  count_by-cong p q (x ∷ xs) h = ground (arith, h x, count_by-cong p q xs h)

-- How often a number stands in a list, and whether it does.
unfoldable pub count : ℕ → List ℕ → ℕ
count a [] = 0
count a (x ∷ xs) = (if x == a then 1 else 0) + count a xs

unfoldable pub contains : ℕ → List ℕ → Bool
contains a [] = false
contains a (x ∷ xs) = x == a || contains a xs

pub contains-count_zero : (a : ℕ) (xs : List ℕ) → contains a xs ≡ false → count a xs ≡ 0
unfolding contains count
contains-count_zero a [] h = refl
contains-count_zero a (x ∷ xs) h = ground (arith, contains-count_zero a xs)

pub contains-count_pos : (a : ℕ) (xs : List ℕ) → contains a xs ≡ true → 1 ≤ count a xs
unfolding contains count
contains-count_pos a [] h = ground arith
contains-count_pos a (x ∷ xs) h = ground (arith, contains-count_pos a xs)

-- A property of every element.
module _ {ℓ} {A : Type ℓ} where
  abbrev pub Every : (A → Type 0) → List A → Type 0
  Every P [] = Unit {0}
  Every P (x ∷ xs) = P x × Every P xs

  pub Every-keep : (P : A → Type 0) (p : A → Bool) (xs : List A) → Every P xs → Every P (keep p xs)
  unfolding keep
  Every-keep P p [] h = tt
  Every-keep P p (x ∷ xs) h = elim (Bool-cases (p x)) [
    | inl e ↦ rw e (h.0, Every-keep P p xs h.1)
    | inr e ↦ rw e (Every-keep P p xs h.1)
  ]

  pub keep-cong : (p q : A → Bool) (xs : List A) → Every (λ x. p x ≡ q x) xs → keep p xs ≡ keep q xs
  unfolding keep
  keep-cong p q [] h = refl
  keep-cong p q (x ∷ xs) h = ground (arith, h.0, keep-cong p q xs h.1)

  pub Every-imp : (P Q : A → Type 0) (xs : List A) → ((x : A) → P x → Q x) → Every P xs → Every Q xs
  Every-imp P Q [] f h = tt
  Every-imp P Q (x ∷ xs) f h = (f x h.0, Every-imp P Q xs f h.1)

  -- What holds of all that pass a test holds of all that is kept by it.
  pub Every-keep-imp :
      (P Q : A → Type 0) (p : A → Bool) (xs : List A)
      → ((x : A) → P x → p x ≡ true → Q x)
      → Every P xs
      → Every Q (keep p xs)
  unfolding keep
  Every-keep-imp P Q p [] f h = tt
  Every-keep-imp P Q p (x ∷ xs) f h = elim (Bool-cases (p x)) [
    | inl e ↦ rw e (f x h.0 e, Every-keep-imp P Q p xs f h.1)
    | inr e ↦ rw e (Every-keep-imp P Q p xs f h.1)
  ]

  pub keep-Every :
      (P : A → Type 0) (p : A → Bool) (xs : List A)
      → Every P (keep p xs)
      → Every (λ x. (p x ≡ false) ⊎ P x) xs
  unfolding keep
  keep-Every P p [] h = tt
  keep-Every P p (x ∷ xs) h = elim (Bool-cases (p x)) [
    | inl e ↦
        let on = subst (λ b. Every P (if b then x ∷ keep p xs else keep p xs)) e h in
        (inr on.0, keep-Every P p xs on.1)
    | inr e ↦ (
      inl e,
      keep-Every P p xs (subst (λ b. Every P (if b then x ∷ keep p xs else keep p xs)) e h),
    )
  ]

  -- What holds at every label holds at each element's own.
  pub Every-diag :
      {B : Type 0} (R : B → A → Type 0) (f : A → B) (xs : List A)
      → ((b : B) → Every (R b) xs)
      → Every (λ x. R (f x) x) xs
  Every-diag R f [] h = tt
  Every-diag R f (x ∷ xs) h = ((h (f x)).0, Every-diag R f xs (λ b. (h b).1))

  pub Every-zip :
      (P Q R : A → Type 0) (xs : List A)
      → ((x : A) → P x → Q x → R x)
      → Every P xs
      → Every Q xs
      → Every R xs
  Every-zip P Q R [] f h g = tt
  Every-zip P Q R (x ∷ xs) f h g = (f x h.0 g.0, Every-zip P Q R xs f h.1 g.1)
