-- ===== src/GameKhimki/Verse/Ending.antt =====
-- internal/gamekhimki/llm.go: the loop of normalizeVerse ends.
use psycho_space.Prelude.{
  ℕ, zero, suc, ◌+◌, ◌≤◌, ◌<◌, ◌≡◌, refl, sym, ap, ◌∙◌, subst, inl, inr, Text, trim_space,
  trim_left, trim_right, has_prefix, contains_text, is_space, true, false, [], ◌∷◌, length, arith,
  Bool-cases, ◌⊎◌,
}
use psycho_space.GameKhimki.Verse.{three_lines, collapse, collapse_all, real_lines, normalize_verse}

three-long : (c : ℕ) (cs : Text) → has_prefix three_lines (c ∷ cs) ≡ true → 2 ≤ length cs
unfolding has_prefix
three-long c [] e = ground arith
three-long c (d ∷ []) e = ground arith
three-long c (d ∷ b ∷ cs) e = omega arith

collapse-how :
    (c : ℕ) (cs : Text)
    → ((has_prefix three_lines (c ∷ cs) ≡ true) × (collapse 0 (c ∷ cs) ≡ 10 ∷ 10 ∷ collapse 2 cs))
      ⊎ ((has_prefix three_lines (c ∷ cs) ≡ false) × (collapse 0 (c ∷ cs) ≡ c ∷ collapse 0 cs))
unfolding collapse
collapse-how c cs = ground arith

length-collapse : (k : ℕ) (s : Text) → k ≤ length s → length (collapse k s) + k ≤ length s
unfolding collapse
length-collapse k [] h = omega (arith, h)
length-collapse (suc k) (c ∷ cs) h = omega (arith, length-collapse k cs (omega (arith, h)))
length-collapse zero (c ∷ cs) h = elim (collapse-how c cs) [
  | inl e ↦
      let long : 2 ≤ length cs = three-long c cs e.0 in
      omega (arith, ap length e.1, long, length-collapse 2 cs long)
  | inr e ↦ omega (arith, ap length e.1, length-collapse 0 cs (omega arith))
]

-- A round of the loop shortens the text.
shortens : (s : Text) → contains_text s three_lines ≡ true → length (collapse 0 s) < length s
unfolding contains_text has_prefix
shortens [] e = ground (arith, e)
shortens (c ∷ cs) e = elim (collapse-how c cs) [
  | inl b ↦
      let long : 2 ≤ length cs = three-long c cs b.0 in
      omega (arith, ap length b.1, long, length-collapse 2 cs long)
  | inr b ↦ omega (arith, ap length b.1, shortens cs (ground (arith, e, b.0)))
]

abbrev IsSettled : Text → Type 0
IsSettled s = contains_text s three_lines ≡ false

collapse_all-how :
    (n : ℕ) (s : Text)
    → ((contains_text s three_lines ≡ true)
        × (collapse_all (suc n) s ≡ collapse_all n (collapse 0 s)))
      ⊎ (IsSettled s × (collapse_all (suc n) s ≡ s))
unfolding collapse_all
collapse_all-how n s = ground arith

collapse_all-IsSettled : (n : ℕ) (s : Text) → length s ≤ n → IsSettled (collapse_all n s)
unfolding collapse_all contains_text has_prefix
collapse_all-IsSettled zero [] h = refl
collapse_all-IsSettled zero (c ∷ cs) h = ground (arith, h)
collapse_all-IsSettled (suc n) s h = elim (collapse_all-how n s) [
  | inl e ↦
      subst IsSettled (sym e.1)
        (collapse_all-IsSettled n (collapse 0 s) (omega (arith, h, shortens s e.0)))
  | inr e ↦ subst IsSettled (sym e.1) e.0
]

-- A text without three line feeds in a row is not changed, whatever the fuel.
collapse_all-settled : (n : ℕ) (s : Text) → IsSettled s → collapse_all n s ≡ s
unfolding collapse_all
collapse_all-settled zero s h = refl
collapse_all-settled (suc n) s h = elim (collapse_all-how n s) [
  | inl e ↦ ground (arith, e.0, h)
  | inr e ↦ e.1
]

round :
    (n : ℕ) (s : Text)
    → contains_text s three_lines ≡ true
    → collapse_all (suc n) s ≡ collapse_all n (collapse 0 s)
unfolding collapse_all
round n s e = ground (arith, e)

-- With fuel for the length of the text, more changes nothing.
collapse_all-more : (n k : ℕ) (s : Text) → length s ≤ n → collapse_all (k + n) s ≡ collapse_all n s
unfolding collapse_all contains_text has_prefix
collapse_all-more zero k [] h = collapse_all-settled (k + 0) [] refl
collapse_all-more zero k (c ∷ cs) h = ground (arith, h)
collapse_all-more (suc n) k s h =
    let less : k + suc n ≡ suc (k + n) = omega arith in
    elim (Bool-cases (contains_text s three_lines)) [
      | inl e ↦
          let small : length (collapse 0 s) ≤ n = omega (arith, h, shortens s e) in
          ap (λ m. collapse_all m s) less
          ∙ round (k + n) s e
          ∙ collapse_all-more n k (collapse 0 s) small
          ∙ sym (round n s e)
      | inr e ↦ collapse_all-settled (k + suc n) s e ∙ sym (collapse_all-settled (suc n) s e)
    ]

trim_left-keeps : (s : Text) → IsSettled s → IsSettled (trim_left s)
unfolding trim_left contains_text
trim_left-keeps [] h = h
trim_left-keeps (c ∷ cs) h = elim (Bool-cases (is_space c)) [
  | inl e ↦ rw (e, trim_left) (trim_left-keeps cs (ground (arith, h)))
  | inr e ↦ rw (e, trim_left) h
]

has_prefix-trim_right : (p s : Text) → has_prefix p (trim_right s) ≡ true → has_prefix p s ≡ true
unfolding trim_right has_prefix
has_prefix-trim_right [] s h = refl
has_prefix-trim_right (p ∷ ps) [] h = h
has_prefix-trim_right (p ∷ ps) (c ∷ cs) h = ground (arith, has_prefix-trim_right ps cs)

trim_right-keeps : (s : Text) → IsSettled s → IsSettled (trim_right s)
unfolding trim_right contains_text has_prefix
trim_right-keeps [] h = h
trim_right-keeps (c ∷ cs) h =
    ground (arith, trim_right-keeps cs, has_prefix-trim_right three_lines (c ∷ cs))

-- The loop of the verse ends: with any fuel from the length of the text on it comes to the same text,
-- and the verse has no three line feeds in a row.
pub normalize_verse_lem :
    (k : ℕ) (s : Text)
    → (trim_space (collapse_all (k + length (real_lines 0 s)) (real_lines 0 s)) ≡ normalize_verse s)
      × (contains_text (normalize_verse s) three_lines ≡ false)
unfolding normalize_verse trim_space
normalize_verse_lem k s =
    let t = real_lines 0 s in
    let fits : length t ≤ length t = omega arith in
    (
      ap trim_space (collapse_all-more (length t) k t fits),
      trim_right-keeps (trim_left (collapse_all (length t) t))
          (trim_left-keeps (collapse_all (length t) t) (collapse_all-IsSettled (length t) t fits)),
    )
