-- ===== src/GameKhimki/Window/Offering.antt =====
-- internal/gamekhimki/llm.go: recentlyOffered lists no option twice, no blank one, and not too many.
use psycho_space.Prelude.{
  ◌≤◌, ◌≡◌, refl, sym, subst, ap, ◌∙◌, ◌⊎◌, inl, inr, Text, eq_text, has_text, trim_space, false,
  ◌||◌, List, [], ◌∷◌, ◌++◌, leb, arith, length, length-append, Bool-cases, map, eq_text-sym,
  has_text-append,
}
use psycho_space.GameKhimki.Defs.{Character, Exchange}
use psycho_space.GameKhimki.Window.{
  Offered, max_recently_offered, add_offer, add_offers, add_exchanges, recently_offered,
}

-- No text of a list is blank.
abbrev pub NoBlank : List Text → Type 0
NoBlank xs = has_text [] xs ≡ false

abbrev pub IsDistinct : List Text → Type 0
IsDistinct [] = Unit {0}
IsDistinct (x ∷ xs) = (has_text x xs ≡ false) × IsDistinct xs

module _ (lower : Text → Text) where
  -- A list of options: in any case of letters no option twice, none blank, and at most 24.
  abbrev pub IsList : List Text → Type 0
  IsList out = IsDistinct (map lower out) × NoBlank out × (length out ≤ max_recently_offered)

  abbrev IsState : Offered → Type 0
  IsState s = IsList s.out × ((k : Text) → has_text k s.seen ≡ has_text k (map lower s.out))

  map-append : (xs ys : List Text) → map lower (xs ++ ys) ≡ map lower xs ++ map lower ys
  map-append [] ys = refl
  map-append (x ∷ xs) ys = ap (λ zs. lower x ∷ zs) (map-append xs ys)

  IsDistinct-snoc :
      (xs : List Text) (x : Text)
      → IsDistinct xs
      → has_text x xs ≡ false
      → IsDistinct (xs ++ x ∷ [])
  unfolding has_text
  IsDistinct-snoc [] x h e = (refl, tt)
  IsDistinct-snoc (y ∷ ys) x h e = (
    ground (arith, h.0, e, has_text-append y ys (x ∷ []), eq_text-sym x y),
    IsDistinct-snoc ys x h.1 (ground (arith, e)),
  )

  abbrev with_offer : Offered → Text → Offered
  with_offer s o = record { seen = lower o ∷ s.seen; out = s.out ++ o ∷ [] }

  with_offer-IsState :
      (s : Offered) (o : Text)
      → eq_text o [] || has_text (lower o) s.seen ≡ false
      → leb max_recently_offered (length s.out) ≡ false
      → IsState s
      → IsState (with_offer s o)
  unfolding has_text
  with_offer-IsState s o fresh short (list, seen) = (
    (
      subst IsDistinct (sym (map-append s.out (o ∷ []))) (
          IsDistinct-snoc (map lower s.out) (lower o) list.0
            (ground (arith, fresh, seen (lower o)))),
      ground (arith, fresh, list.1, has_text-append [] s.out (o ∷ [])),
      ground (arith, short, length-append s.out (o ∷ [])),
    ),
    λ k.
        let more : has_text k (map lower (s.out ++ o ∷ []))
            ≡ (has_text k (map lower s.out) || eq_text (lower o) k) =
          ap (has_text k) (map-append s.out (o ∷ []))
          ∙ has_text-append k (map lower s.out) (lower o ∷ [])
          ∙ ground arith in
        ground (arith, seen k, more),
  )

  add_offer-how :
      (s : Offered) (o : Text)
      → ((add_offer lower s o).0 ≡ s)
        ⊎ ((eq_text (trim_space o) [] || has_text (lower (trim_space o)) s.seen ≡ false)
            × (leb max_recently_offered (length s.out) ≡ false)
            × ((add_offer lower s o).0 ≡ with_offer s (trim_space o)))
  unfolding add_offer
  add_offer-how s o = ground arith

  add_offer-IsState : (s : Offered) (o : Text) → IsState s → IsState (add_offer lower s o).0
  add_offer-IsState s o h = elim (add_offer-how s o) [
    | inl e ↦ subst IsState (sym e) h
    | inr (fresh, short, e) ↦
        subst IsState (sym e) (with_offer-IsState s (trim_space o) fresh short h)
  ]

  add_offers-IsState :
      (s : Offered) (os : List Text) → IsState s → IsState (add_offers lower s os).0
  unfolding add_offers
  add_offers-IsState s [] h = h
  add_offers-IsState s (o ∷ os) h = elim (Bool-cases (add_offer lower s o).1) [
    | inl e ↦
        rw (e, add_offers) (add_offers-IsState (add_offer lower s o).0 os (add_offer-IsState s o h))
    | inr e ↦ rw (e, add_offers) (add_offer-IsState s o h)
  ]

  add_exchanges-IsState : (exs : List Exchange) → IsState (add_exchanges lower exs).0
  unfolding add_exchanges has_text
  add_exchanges-IsState [] = ((tt, refl, ground arith), λ k. refl)
  add_exchanges-IsState (ex ∷ exs) = elim (Bool-cases (add_exchanges lower exs).1) [
    | inl e ↦
        rw (e, add_exchanges)
          (add_offers-IsState (add_exchanges lower exs).0 ex.options (add_exchanges-IsState exs))
    | inr e ↦ rw (e, add_exchanges) (add_exchanges-IsState exs)
  ]

  -- The list of options already shown has none twice, whatever the case of its letters, none that is
  -- blank, and at most 24.
  pub recently_offered-IsList :
      (ch : Character) (windowed : List Exchange) → IsList (recently_offered lower ch windowed)
  unfolding recently_offered
  recently_offered-IsList ch windowed = elim (Bool-cases (add_exchanges lower windowed).1) [
    | inl e ↦
        rw (e, recently_offered)
          (add_offers-IsState (add_exchanges lower windowed).0 ch.opening_options
            (add_exchanges-IsState windowed)).0
    | inr e ↦ rw (e, recently_offered) (add_exchanges-IsState windowed).0
  ]
