-- ===== src/GameKhimki/Themes/Progress.antt =====
-- internal/gamekhimki/llm.go: clampThemes, mergeThemes, autoMarkThemes and confirmThemes keep what is
-- open and open nothing that the dialogue has not touched.
use psycho_space.Prelude.{
  ℕ, ◌≡◌, refl, sym, ap, ◌∙◌, ◌⊎◌, inl, inr, subst, Text, eq_text, eq_text_eq, eq_text_refl,
  has_text, has_text-append, trim_space, Bool, true, false, not, ◌&&◌, ◌||◌, List, [], ◌∷◌, ◌++◌,
  map, leb, keep, keep-cong, Every, Every-keep, Every-imp, arith, Bool-cases,
}
use psycho_space.GameKhimki.Defs.{Character, theme_keys, theme_confirm_turns, theme_auto_done_turns}
use psycho_space.GameKhimki.Themes.{clamp_themes, merge_themes, auto_mark_themes, confirm_themes}

has_text-keep :
    (p : Text → Bool) (k : Text) (ks : List Text) → has_text k (keep p ks) ≡ (has_text k ks && p k)
unfolding has_text keep
has_text-keep p k [] = refl
has_text-keep p k (x ∷ xs) = elim (Bool-cases (eq_text x k)) [
  | inl e ↦
      let on : p x ≡ p k = ap p (eq_text_eq x k e) in ground (arith, e, on, has_text-keep p k xs)
  | inr e ↦ ground (arith, e, has_text-keep p k xs)
]

Every-has_text :
    (P : Text → Type 0) (k : Text) (ks : List Text) → Every P ks → has_text k ks ≡ true → P k
unfolding has_text
Every-has_text P k [] h e = ground arith
Every-has_text P k (x ∷ xs) h e = elim (Bool-cases (eq_text x k)) [
  | inl b ↦ subst P (eq_text_eq x k b) h.0
  | inr b ↦ Every-has_text P k xs h.1 (ground (arith, e, b))
]

Every-members :
    (ks xs : List Text)
    → ((k : Text) → has_text k ks ≡ true → has_text k xs ≡ true)
    → Every (λ k. has_text k xs ≡ true) ks
unfolding has_text
Every-members [] xs f = tt
Every-members (k ∷ ks) xs f =
    (f k (ground (arith, eq_text_refl k)), Every-members ks xs (λ j e. f j (ground (arith, e))))

module _ (lower : Text → Text) where
  -- A key as the content writes them: lower case, and no space about it.
  abbrev pub IsPlain : Text → Type 0
  IsPlain k = (lower k ≡ k) × (trim_space k ≡ k)

  abbrev pub said : List Text → List Text
  said got = map (λ g. trim_space (lower g)) got

  said-eq_self : (ks : List Text) → Every IsPlain ks → said ks ≡ ks
  said-eq_self [] h = refl
  said-eq_self (k ∷ ks) h = cc (ap trim_space h.0.0, h.0.1, said-eq_self ks h.1)

  said-has :
      (k : Text) (xs : List Text) → IsPlain k → has_text k xs ≡ true → has_text k (said xs) ≡ true
  unfolding has_text
  said-has k [] h e = ground arith
  said-has k (x ∷ xs) h e = elim (Bool-cases (eq_text x k)) [
    | inl b ↦
        let same : trim_space (lower x) ≡ k =
          ap (λ y. trim_space (lower y)) (eq_text_eq x k b) ∙ ap trim_space h.0 ∙ h.1 in
        let on : eq_text (trim_space (lower x)) k ≡ true =
          subst (λ y. eq_text y k ≡ true) (sym same) (eq_text_refl k) in
        ground (arith, on)
    | inr b ↦ ground (arith, e, b, said-has k xs h)
  ]

  said-append : (xs ys : List Text) → said (xs ++ ys) ≡ said xs ++ said ys
  said-append [] ys = refl
  said-append (x ∷ xs) ys = ap (λ zs. trim_space (lower x) ∷ zs) (said-append xs ys)

  -- The keys that `autoMarkThemes` adds.
  abbrev added : Character → (Text → ℕ) → List Text
  added ch eng = keep (λ k. leb theme_auto_done_turns (eng k)) (theme_keys ch)

  added-has :
      (k : Text) (ch : Character) (eng : Text → ℕ)
      → has_text k (added ch eng)
        ≡ (has_text k (theme_keys ch) && leb theme_auto_done_turns (eng k))
  added-has k ch eng = has_text-keep (λ k. leb theme_auto_done_turns (eng k)) k (theme_keys ch)

  auto_mark-how :
      (ch : Character) (done : List Text) (eng : Text → ℕ)
      → ((added ch eng ≡ []) × (auto_mark_themes lower ch done eng ≡ done))
        ⊎ (auto_mark_themes lower ch done eng ≡ merge_themes lower ch done (added ch eng))
  unfolding auto_mark_themes
  auto_mark-how ch done eng = ground arith

  module _ (ch : Character) (plain : Every IsPlain (theme_keys ch)) where
    abbrev IsCut : List Text → Type 0
    IsCut xs = clamp_themes lower ch xs ≡ xs

    clamp-has :
        (k : Text) (got : List Text)
        → has_text k (clamp_themes lower ch got)
          ≡ (has_text k (theme_keys ch) && has_text k (said got))
    unfolding clamp_themes
    clamp-has k got = elim (Bool-cases (has_text k (theme_keys ch))) [
      | inl e ↦
          let low : lower k ≡ k = (Every-has_text IsPlain k (theme_keys ch) plain e).0 in
          let on : has_text (lower k) (said got) ≡ has_text k (said got) =
            ap (λ y. has_text y (said got)) low in
          has_text-keep (λ key. has_text (lower key) (said got)) k (theme_keys ch)
          ∙ ground (arith, on)
      | inr e ↦
          has_text-keep (λ key. has_text (lower key) (said got)) k (theme_keys ch)
          ∙ ground (arith, e)
    ]

    pub clamp-IsPlain : (got : List Text) → Every IsPlain (clamp_themes lower ch got)
    unfolding clamp_themes
    clamp-IsPlain got =
        Every-keep IsPlain (λ key. has_text (lower key) (said got)) (theme_keys ch) plain

    -- What has been cut to the character's themes is not cut again.
    pub clamp-clamp :
        (got : List Text)
        → clamp_themes lower ch (clamp_themes lower ch got) ≡ clamp_themes lower ch got
    unfolding clamp_themes
    clamp-clamp got =
        keep-cong (λ key. has_text (lower key) (said (clamp_themes lower ch got)))
          (λ key. has_text (lower key) (said got)) (theme_keys ch)
          (Every-imp (λ key. has_text key (theme_keys ch) ≡ true)
            (λ key.
              has_text (lower key) (said (clamp_themes lower ch got))
              ≡ has_text (lower key) (said got))
            (theme_keys ch)
            (λ key e.
              let low : lower key ≡ key = (Every-has_text IsPlain key (theme_keys ch) plain e).0 in
              let same : said (clamp_themes lower ch got) ≡ clamp_themes lower ch got =
                said-eq_self (clamp_themes lower ch got) (clamp-IsPlain got) in
              let cut : has_text key (clamp_themes lower ch got) ≡ has_text key (said got) =
                ground (arith, e, clamp-has key got) in
              rw low (rw same cut))
            (Every-members (theme_keys ch) (theme_keys ch) (λ k e. e)))

    added-IsPlain : (eng : Text → ℕ) → Every IsPlain (added ch eng)
    added-IsPlain eng =
        Every-keep IsPlain (λ k. leb theme_auto_done_turns (eng k)) (theme_keys ch) plain

    abbrev backed : List Text → List Text → (Text → ℕ) → List Text
    backed already claimed eng =
        keep (λ c. has_text c already || leb theme_confirm_turns (eng c))
          (clamp_themes lower ch claimed)

    -- A merge has a theme of the character exactly if one of the two lists has it.
    pub merge-has :
        (k : Text) (was now : List Text)
        → Every IsPlain was
        → Every IsPlain now
        → has_text k (merge_themes lower ch was now)
          ≡ (has_text k (theme_keys ch) && (has_text k was || has_text k now))
    unfolding merge_themes
    merge-has k was now h g =
        let split : said (was ++ now) ≡ said was ++ said now = said-append was now in
        clamp-has k (was ++ now)
        ∙ rw split (
            rw (said-eq_self was h) (
              rw (said-eq_self now g)
                (ap (λ b. has_text k (theme_keys ch) && b) (has_text-append k was now))))

    -- The themes that the server opens itself: those open before, and those talked about long enough.
    pub auto_mark-has :
        (k : Text) (got : List Text) (eng : Text → ℕ)
        → has_text k (auto_mark_themes lower ch (clamp_themes lower ch got) eng) ≡ (
            has_text k (clamp_themes lower ch got)
            || has_text k (theme_keys ch) && leb theme_auto_done_turns (eng k))
    unfolding has_text
    auto_mark-has k got eng = elim (auto_mark-how ch (clamp_themes lower ch got) eng) [
      | inl e ↦
          let none : has_text k (added ch eng) ≡ false = ap (has_text k) e.0 in
          ap (has_text k) e.1 ∙ ground (arith, none, added-has k ch eng)
      | inr e ↦
          ap (has_text k) e
          ∙ merge-has k (clamp_themes lower ch got) (added ch eng) (clamp-IsPlain got)
              (added-IsPlain eng)
          ∙ ground (arith, added-has k ch eng, clamp-has k got)
    ]

    -- What the judge's claim leaves open: all that was open, and what it claims with reason.
    pub confirm-has :
        (k : Text) (already claimed : List Text) (eng : Text → ℕ)
        → Every IsPlain already
        → has_text k (confirm_themes lower ch already claimed eng) ≡ (
            has_text k (theme_keys ch)
            && (has_text k already
                || has_text k (clamp_themes lower ch claimed) && leb theme_confirm_turns (eng k)))
    unfolding confirm_themes
    confirm-has k already claimed eng h =
        merge-has k already (backed already claimed eng) h (
          Every-keep IsPlain (λ c. has_text c already || leb theme_confirm_turns (eng c))
            (clamp_themes lower ch claimed) (clamp-IsPlain claimed))
        ∙ ground (
          arith,
          has_text-keep (λ c. has_text c already || leb theme_confirm_turns (eng c)) k
              (clamp_themes lower ch claimed),
        )

    pub confirm-clamp :
        (already claimed : List Text) (eng : Text → ℕ)
        → clamp_themes lower ch (confirm_themes lower ch already claimed eng)
          ≡ confirm_themes lower ch already claimed eng
    unfolding confirm_themes merge_themes
    confirm-clamp already claimed eng = clamp-clamp (already ++ backed already claimed eng)

    pub auto_mark-clamp :
        (got : List Text) (eng : Text → ℕ)
        → clamp_themes lower ch (auto_mark_themes lower ch (clamp_themes lower ch got) eng)
          ≡ auto_mark_themes lower ch (clamp_themes lower ch got) eng
    unfolding merge_themes
    auto_mark-clamp got eng = elim (auto_mark-how ch (clamp_themes lower ch got) eng) [
      | inl e ↦ subst IsCut (sym e.1) (clamp-clamp got)
      | inr e ↦ subst IsCut (sym e) (clamp-clamp (clamp_themes lower ch got ++ added ch eng))
    ]

    -- What is cut to the character's themes has no other.
    pub clamp-own :
        (k : Text) (got : List Text)
        → (not (has_text k (clamp_themes lower ch got)) || has_text k (theme_keys ch)) ≡ true
    clamp-own k got = ground (arith, clamp-has k got)
