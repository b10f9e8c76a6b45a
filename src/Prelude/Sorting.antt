-- ===== src/Prelude/Sorting.antt =====
-- Sorting by a Boolean order, stable: SQL's ORDER BY and the slices package.
use Prim.Native.Nat.{◌+◌}
use mathlib.Core.Path.{◌≡◌, refl, subst}
use mathlib.Core.Logic.{inl, inr}
use mathlib.Core.Bool.{Bool, true, false}
use mathlib.Core.List.{List, [], ◌∷◌}
use native.Mathlib.Omega.{arith}
use psycho_space.Prelude.Tests.{if◌then◌else◌, Bool-cases}
use psycho_space.Prelude.Lists.{count_by, Every}

-- `later x y` says that x stands strictly after y; elements that tie keep their order.
unfoldable pub insert_by {ℓ} : {A : Type ℓ} → (A → A → Bool) → A → List A → List A
insert_by later x [] = x ∷ []
insert_by later x (y ∷ ys) =
    let rest = insert_by later x ys in if later x y then y ∷ rest else x ∷ y ∷ ys

unfoldable pub order_by {ℓ} : {A : Type ℓ} → (A → A → Bool) → List A → List A
order_by later [] = []
order_by later (x ∷ xs) = insert_by later x (order_by later xs)

module _ {ℓ} {A : Type ℓ} (later : A → A → Bool) where
  -- Nothing in the list belongs before `x`.
  abbrev pub AllAfter : A → List A → Type 0
  AllAfter x [] = Unit {0}
  AllAfter x (y ∷ ys) = (later x y ≡ false) × AllAfter x ys

  abbrev pub IsOrdered : List A → Type 0
  IsOrdered [] = Unit {0}
  IsOrdered (x ∷ xs) = AllAfter x xs × IsOrdered xs

  module _ (asym : (x y : A) → later x y ≡ true → later y x ≡ false)
      (trans : (x y z : A) → later x y ≡ false → later y z ≡ false → later x z ≡ false) where
    pub AllAfter-trans : (x y : A) (zs : List A) → later x y ≡ false → AllAfter y zs → AllAfter x zs
    AllAfter-trans x y [] e h = tt
    AllAfter-trans x y (z ∷ zs) e h = (trans x y z e h.0, AllAfter-trans x y zs e h.1)

    AllAfter-insert_by :
        (y x : A) (zs : List A)
        → later y x ≡ false
        → AllAfter y zs
        → AllAfter y (insert_by later x zs)
    unfolding insert_by
    AllAfter-insert_by y x [] e h = (e, tt)
    AllAfter-insert_by y x (z ∷ zs) e h = elim (Bool-cases (later x z)) [
      | inl b ↦ rw b (h.0, AllAfter-insert_by y x zs e h.1)
      | inr b ↦ rw b (e, h)
    ]

    insert_by-IsOrdered : (x : A) (ys : List A) → IsOrdered ys → IsOrdered (insert_by later x ys)
    unfolding insert_by
    insert_by-IsOrdered x [] h = (tt, tt)
    insert_by-IsOrdered x (y ∷ ys) h = elim (Bool-cases (later x y)) [
      | inl b ↦ rw b (AllAfter-insert_by y x ys (asym x y b) h.0, insert_by-IsOrdered x ys h.1)
      | inr b ↦ rw b ((b, AllAfter-trans x y ys b h.0), h)
    ]

    pub order_by-IsOrdered : (xs : List A) → IsOrdered (order_by later xs)
    unfolding order_by
    order_by-IsOrdered [] = tt
    order_by-IsOrdered (x ∷ xs) = insert_by-IsOrdered x (order_by later xs) (order_by-IsOrdered xs)

  count_by-insert_by :
      (p : A → Bool) (x : A) (ys : List A)
      → count_by p (insert_by later x ys) ≡ (if p x then 1 else 0) + count_by p ys
  unfolding insert_by count_by
  count_by-insert_by p x [] = refl
  count_by-insert_by p x (y ∷ ys) = ground (arith, count_by-insert_by p x ys)

  pub count_by-order_by :
      (p : A → Bool) (xs : List A) → count_by p (order_by later xs) ≡ count_by p xs
  unfolding order_by count_by
  count_by-order_by p [] = refl
  count_by-order_by p (x ∷ xs) =
      ground (arith, count_by-insert_by p x (order_by later xs), count_by-order_by p xs)

  -- A property of every element is not touched by the order.
  Every-insert_by :
      (P : A → Type 0) (x : A) (ys : List A) → P x → Every P ys → Every P (insert_by later x ys)
  unfolding insert_by
  Every-insert_by P x [] p h = (p, tt)
  Every-insert_by P x (y ∷ ys) p h = elim (Bool-cases (later x y)) [
    | inl e ↦ rw (e, insert_by) (h.0, Every-insert_by P x ys p h.1)
    | inr e ↦ rw (e, insert_by) (p, h)
  ]

  pub Every-order_by : (P : A → Type 0) (xs : List A) → Every P xs → Every P (order_by later xs)
  unfolding order_by
  Every-order_by P [] h = tt
  Every-order_by P (x ∷ xs) h =
      Every-insert_by P x (order_by later xs) h.0 (Every-order_by P xs h.1)

  insert_by-Every :
      (P : A → Type 0) (x : A) (ys : List A) → Every P (insert_by later x ys) → P x × Every P ys
  unfolding insert_by
  insert_by-Every P x [] h = (h.0, tt)
  insert_by-Every P x (y ∷ ys) h = elim (Bool-cases (later x y)) [
    | inl e ↦
        let on = subst (λ b. Every P (if b then y ∷ insert_by later x ys else x ∷ y ∷ ys)) e h in
        ((insert_by-Every P x ys on.1).0, (on.0, (insert_by-Every P x ys on.1).1))
    | inr e ↦ subst (λ b. Every P (if b then y ∷ insert_by later x ys else x ∷ y ∷ ys)) e h
  ]

  pub order_by-Every : (P : A → Type 0) (xs : List A) → Every P (order_by later xs) → Every P xs
  unfolding order_by
  order_by-Every P [] h = tt
  order_by-Every P (x ∷ xs) h =
      let on = insert_by-Every P x (order_by later xs) h in (on.0, order_by-Every P xs on.1)

  -- Nothing of an ordered list stands before its head.
  pub AllAfter-Every : (x : A) (ys : List A) → AllAfter x ys → Every (λ y. later x y ≡ false) ys
  AllAfter-Every x [] h = tt
  AllAfter-Every x (y ∷ ys) h = (h.0, AllAfter-Every x ys h.1)

-- A relation holds of every element and each that stands after it.
abbrev pub Pairwise {ℓ} : {A : Type ℓ} → (A → A → Type 0) → List A → Type 0
Pairwise R [] = Unit {0}
Pairwise R (x ∷ xs) = Every (R x) xs × Pairwise R xs

AllAfter-imp {ℓ} :
    {A : Type ℓ} (later : A → A → Bool) (P : A → Type 0) (x : A) (ys : List A)
    → ((y : A) → later x y ≡ false → P y)
    → AllAfter later x ys
    → Every P ys
AllAfter-imp later P x [] f h = tt
AllAfter-imp later P x (y ∷ ys) f h = (f y h.0, AllAfter-imp later P x ys f h.1)

pub IsOrdered-Pairwise {ℓ} :
    {A : Type ℓ} (later : A → A → Bool) (R : A → A → Type 0) (xs : List A)
    → ((x y : A) → later x y ≡ false → R x y)
    → IsOrdered later xs
    → Pairwise R xs
IsOrdered-Pairwise later R [] f h = tt
IsOrdered-Pairwise later R (x ∷ xs) f h =
    (AllAfter-imp later (R x) x xs (f x) h.0, IsOrdered-Pairwise later R xs f h.1)
