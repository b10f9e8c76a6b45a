-- ===== src/GameKhimki/Salvage/Strays.antt =====
-- internal/gamekhimki/llm.go: strayOptions fills up to the number of options and no further.
use psycho_space.Prelude.{
  ℕ, ◌+◌, ◌≤◌, ◌≡◌, refl, sym, subst, inl, inr, ◌⊎◌, Text, Bool, true, false, List, [], ◌∷◌, ◌++◌,
  Option, leb, if◌then◌else◌, length, length-append, arith, Every, Bool-cases, Option-cases,
  order_by, keep,
}
use psycho_space.GameKhimki.Defs.{option_count}
use psycho_space.GameKhimki.Salvage.{
  Field, is_blank, is_junk, later_key, take_strays, stray_fields, stray_options,
}

-- Options that are not blank, no more than are missing.
abbrev pub IsFilling : ℕ → List Text → Type 0
IsFilling have out = (have + length out ≤ option_count) × Every (λ s. is_blank s ≡ false) out

Every-snoc :
    {A : Type 0} (P : A → Type 0) (xs : List A) (x : A) → Every P xs → P x → Every P (xs ++ x ∷ [])
Every-snoc P [] x h p = (p, tt)
Every-snoc P (y ∷ ys) x h p = (h.0, Every-snoc P ys x h.1 p)

module _ (have : ℕ) where
  IsFilling-add :
      (out : List Text) (s : Text)
      → IsFilling have out
      → leb option_count (have + length out) ≡ false
      → IsFilling have (if is_blank s then out else out ++ s ∷ [])
  IsFilling-add out s h e = elim (Bool-cases (is_blank s)) [
    | inl b ↦ rw b h
    | inr b ↦ rw b (
      ground (arith, e, length-append out (s ∷ [])),
      Every-snoc (λ x. is_blank x ≡ false) out s h.1 b,
    )
  ]

  take_strays-how :
      (out : List Text) (s : Text) (arr : List Text)
      → (take_strays have out (s ∷ arr) ≡ (out, true))
        ⊎ ((leb option_count (have + length out) ≡ false)
            × (take_strays have out (s ∷ arr)
                ≡ take_strays have (if is_blank s then out else out ++ s ∷ []) arr))
  unfolding take_strays
  take_strays-how out s arr = ground arith

  take_strays-IsFilling :
      (out arr : List Text) → IsFilling have out → IsFilling have (take_strays have out arr).0
  unfolding take_strays
  take_strays-IsFilling out [] h = h
  take_strays-IsFilling out (s ∷ arr) h = elim (take_strays-how out s arr) [
    | inl e ↦ subst (λ (r : List Text × Bool). IsFilling have r.0) (sym e) h
    | inr e ↦
        subst (λ (r : List Text × Bool). IsFilling have r.0) (sym e.1)
          (take_strays-IsFilling (if is_blank s then out else out ++ s ∷ []) arr
            (IsFilling-add out s h e.0))
  ]

  module _ (strings : Text → Option (List Text)) where
    stray_fields-how :
        (out : List Text) (f : Field) (fs : List Field)
        → (stray_fields strings have out (f ∷ fs) ≡ stray_fields strings have out fs)
          ⊎ ((arr : List Text) × ((stray_fields strings have out (f ∷ fs)
                  ≡ (take_strays have out arr).0)
                ⊎ (stray_fields strings have out (f ∷ fs)
                    ≡ stray_fields strings have (take_strays have out arr).0 fs)))
    unfolding stray_fields
    stray_fields-how out f fs = elim (Option-cases (strings f.1)) [
      | inl e ↦ inl (rw (e, stray_fields) refl)
      | inr (arr, e) ↦ elim (Bool-cases (take_strays have out arr).1) [
        | inl b ↦ inr (arr, inl (rw (e, b, stray_fields) refl))
        | inr b ↦ inr (arr, inr (rw (e, b, stray_fields) refl))
      ]
    ]

    stray_fields-IsFilling :
        (out : List Text) (fs : List Field)
        → IsFilling have out
        → IsFilling have (stray_fields strings have out fs)
    unfolding stray_fields
    stray_fields-IsFilling out [] h = h
    stray_fields-IsFilling out (f ∷ fs) h = elim (stray_fields-how out f fs) [
      | inl e ↦ subst (IsFilling have) (sym e) (stray_fields-IsFilling out fs h)
      | inr (arr, inl e) ↦ subst (IsFilling have) (sym e) (take_strays-IsFilling out arr h)
      | inr (arr, inr e) ↦
          subst (IsFilling have) (sym e) (
            stray_fields-IsFilling (take_strays have out arr).0 fs
              (take_strays-IsFilling out arr h))
    ]

    -- The options recovered from fields that were not asked for are not blank, and do not bring the
    -- options that are there above the number of options; those there are no more than that.
    pub stray_options-IsFilling :
        (object : Text → Option (List Field)) (s : Text)
        → have ≤ option_count
        → IsFilling have (stray_options strings object s have)
    unfolding stray_options
    stray_options-IsFilling object s h = elim (Option-cases (object s)) [
      | inl e ↦ rw (e, stray_options) (ground (arith, h), tt)
      | inr (fs, e) ↦
          rw (e, stray_options)
            (stray_fields-IsFilling [] (order_by later_key (keep is_junk fs))
              (ground (arith, h), tt))
    ]
