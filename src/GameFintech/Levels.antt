-- ===== src/GameFintech/Levels.antt =====
-- The search takes cells in the order of their distance, so a label is the length of a shortest walk.
use psycho_space.Prelude.{
  ℕ, zero, suc, ◌+◌, ◌≤◌, ◌≡◌, refl, sym, subst, ◌∙◌, Bool, true, false, ◌||◌, not, List, [], ◌∷◌,
  ◌++◌, Option, none, some, ◌==◌, arith, inl, inr, Bool-cases, contains, leb,
}
use psycho_space.GameFintech.Grid.{around}
use psycho_space.GameFintech.Navigate.{Search, set_label, spread, spread_all, search}
use psycho_space.GameFintech.Flood.{has, contains-append, contains_self, contains_other, List-cases}
use psycho_space.GameFintech.Labels.{
  spread_keeps, labelled, Walk, no_step, one_more, spread_all-has,
}
use psycho_space.GameFintech.Route.{got_there-spread_all, search_empty, search_next}

-- The labels along a list do not fall, from a first bound on.
abbrev pub Rising : (ℕ → ℕ) → ℕ → List ℕ → Type 0
Rising label low [] = Unit {0}
Rising label low (x ∷ xs) = (low ≤ label x) × Rising label (label x) xs

Rising-append :
    (label : ℕ → ℕ) (low k : ℕ) (xs : List ℕ)
    → ((n : ℕ) → label n ≤ label k)
    → low ≤ label k
    → Rising label low xs
    → Rising label low (xs ++ k ∷ [])
Rising-append label low k [] top b h = (b, tt)
Rising-append label low k (x ∷ xs) top b h =
    (h.0, Rising-append label (label x) k xs top (top x) h.1)

Rising-set_label :
    (label : ℕ → ℕ) (low k v : ℕ) (xs : List ℕ)
    → label k ≡ 0
    → 1 ≤ low
    → Rising label low xs
    → Rising (set_label k v label) low xs
Rising-set_label label low k v [] z b h = tt
Rising-set_label label low k v (x ∷ xs) z b h = elim (Bool-cases (x == k)) [
  | inl here ↦ let same : x ≡ k = ground (arith, here) in absurd (ground (arith, z, b, h.0, same))
  | inr there ↦
      let kept : set_label k v label x ≡ label x = ground (arith, there) in
      let rest = Rising-set_label label (label x) k v xs z (omega (arith, h.0, b)) h.1 in
      (omega (arith, kept, h.0), subst (λ y. Rising (set_label k v label) y xs) (sym kept) rest)
]

Rising-contains :
    (label : ℕ → ℕ) (low n : ℕ) (xs : List ℕ)
    → Rising label low xs
    → contains n xs ≡ true
    → low ≤ label n
unfolding contains
Rising-contains label low n [] h e = cc
Rising-contains label low n (x ∷ xs) h e = elim (Bool-cases (x == n)) [
  | inl here ↦ let same : x ≡ n = ground (arith, here) in ground (arith, h.0, same)
  | inr there ↦
      let inside : contains n xs ≡ true = ground (arith, e, there) in
      let rest = Rising-contains label (label x) n xs h.1 inside in omega (arith, rest, h.0)
]

module _ (free : ℕ → Bool) (start : ℕ) where
  -- While the neighbours of `cur` are looked at.
  abbrev Scan : ℕ → Search → Type 0
  Scan cur s =
      (1 ≤ s.label cur)
      × ((n : ℕ) → s.label n ≤ s.label cur + 1)
      × Rising s.label (s.label cur) s.waiting

  -- What has been taken has its free neighbours labelled, at most one above it.
  abbrev Tight : ℕ → Search → Type 0
  Tight cur s =
      (m n : ℕ)
      → labelled s m ≡ true
      → contains m s.waiting ≡ false
      → m == cur ≡ false
      → has n (around m) ≡ true
      → free n ≡ true
      → (labelled s n ≡ true) × (s.label n ≤ s.label m + 1)

  spread-Scan : (cur : ℕ) (o : Option ℕ) (s : Search) → Scan cur s → Scan cur (spread free cur o s)
  unfolding spread
  spread-Scan cur none s h = h
  spread-Scan cur (some k) s h = elim (Bool-cases (not (s.label k == 0) || not (free k))) [
    | inl skip ↦ rw skip h
    | inr go_ ↦
        let new : s.label k ≡ 0 = ground (arith, go_) in
        let label' = set_label k (s.label cur + 1) s.label in
        let other : cur == k ≡ false = elim (Bool-cases (cur == k)) [
          | inl here ↦
              let same : cur ≡ k = ground (arith, here) in absurd (ground (arith, h.0, new, same))
          | inr there ↦ there
        ] in
        let at_cur : label' cur ≡ s.label cur = ground (arith, other) in
        let at_k : label' k ≡ s.label cur + 1 = ground arith in
        let top : (n : ℕ) → label' n ≤ label' k = λ n. ground (arith, h.1 n) in
        rw go_ (
          omega (arith, at_cur, h.0),
          (λ n. ground (arith, h.1 n, at_cur)),
          subst (λ y. Rising label' y (s.waiting ++ k ∷ [])) (sym at_cur)
              (Rising-append label' (s.label cur) k s.waiting top (omega (arith, at_k))
                (Rising-set_label s.label (s.label cur) k (s.label cur + 1) s.waiting new h.0 h.2)),
        )
  ]

  spread-Tight :
      (cur : ℕ) (o : Option ℕ) (s : Search) → Tight cur s → Tight cur (spread free cur o s)
  unfolding spread
  spread-Tight cur none s h m n a b c d e = h m n a b c d e
  spread-Tight cur (some k) s h m n a b c d e =
      ground (arith, a, b, c, d, e, h m n, contains-append m s.waiting (k ∷ []), contains_self k m)

  spread_all-Scan :
      (cur : ℕ) (os : List (Option ℕ)) (s : Search)
      → Scan cur s
      → Scan cur (spread_all free cur os s)
  unfolding spread_all
  spread_all-Scan cur [] s h = h
  spread_all-Scan cur (o ∷ os) s h =
      spread_all-Scan cur os (spread free cur o s) (spread-Scan cur o s h)

  spread_all-Tight :
      (cur : ℕ) (os : List (Option ℕ)) (s : Search)
      → Tight cur s
      → Tight cur (spread_all free cur os s)
  unfolding spread_all
  spread_all-Tight cur [] s h = h
  spread_all-Tight cur (o ∷ os) s h =
      spread_all-Tight cur os (spread free cur o s) (spread-Tight cur o s h)

  spread_all_keeps :
      (cur : ℕ) (os : List (Option ℕ)) (s : Search) (n d : ℕ)
      → s.label n ≡ suc d
      → (spread_all free cur os s).label n ≡ suc d
  unfolding spread_all
  spread_all_keeps cur [] s n d e = e
  spread_all_keeps cur (o ∷ os) s n d e =
      spread_all_keeps cur os (spread free cur o s) n d (spread_keeps free start cur o s n d e)

  -- Between two rounds.
  abbrev pub Level : Search → Type 0
  Level s =
      ((cur : ℕ) (rest : List ℕ)
        → s.waiting ≡ cur ∷ rest
        → (1 ≤ s.label cur)
          × ((n : ℕ) → s.label n ≤ s.label cur + 1)
          × Rising s.label (s.label cur) rest)
      × ((m n : ℕ)
          → labelled s m ≡ true
          → contains m s.waiting ≡ false
          → has n (around m) ≡ true
          → free n ≡ true
          → (labelled s n ≡ true) × (s.label n ≤ s.label m + 1))
      × (s.label start ≡ 1)

  round-Level :
      (s : Search) (cur : ℕ) (rest : List ℕ)
      → s.waiting ≡ cur ∷ rest
      → Level s
      → Level (spread_all free cur (around cur) (record s { waiting = rest }))
  round-Level s cur rest e h =
      let from : Search = record s { waiting = rest } in
      let next = spread_all free cur (around cur) from in
      let scan = spread_all-Scan cur (around cur) from (h.0 cur rest e) in
      let tight =
        spread_all-Tight cur (around cur) from
          (λ m n a b c d f. h.1 m n a (rw e (contains_other m cur rest b c)) d f) in
      (
        (λ x ys q.
            let rising : Rising next.label (next.label cur) (x ∷ ys) =
              subst (λ l. Rising next.label (next.label cur) l) q scan.2 in
            (omega (arith, scan.0, rising.0), (λ n. omega (arith, scan.1 n, rising.0)), rising.1)),
        (λ m n a b d f. elim (Bool-cases (m == cur)) [
          | inl here ↦
              let same : m ≡ cur = ground (arith, here) in
              (
                spread_all-has free start cur (around cur) from n
                    (subst (λ x. has n (around x) ≡ true) same d) f,
                subst (λ x. next.label n ≤ next.label x + 1) (sym same) (scan.1 n),
              )
          | inr there ↦ tight m n a b there d f
        ]),
        spread_all_keeps cur (around cur) from start 0 h.2,
      )

  -- Whatever is nearer than the cell at the head has its label, and one that is no more than its distance.
  nearer_done :
      (s : Search) (cur : ℕ) (rest : List ℕ)
      → s.waiting ≡ cur ∷ rest
      → Level s
      → (d n : ℕ) → Walk free start d n
      → suc d ≤ s.label cur
      → (labelled s n ≡ true) × (s.label n ≤ suc d)
  unfolding contains
  nearer_done s cur rest e h _ _ no_step b = ground (arith, h.2)
  nearer_done s cur rest e h _ _ (one_more d m n w near f) b =
      let before = nearer_done s cur rest e h d m w (omega (arith, b)) in
      let gone : contains m (cur ∷ rest) ≡ false = elim (Bool-cases (contains m (cur ∷ rest))) [
        | inr no_ ↦ no_
        | inl inside ↦
            let low =
              Rising-contains s.label (s.label cur) m (cur ∷ rest) (omega arith, (h.0 cur rest e).2)
                inside in
            absurd (omega (arith, low, before.1, b))
      ] in
      let after = h.1 m n before.0 (rw e gone) near f in (after.0, omega (arith, after.1, before.1))

  -- A search that gets to its goal has labelled it with the length of a shortest walk, plus one.
  pub search_shortest :
      (goal fuel : ℕ) (s : Search) (d : ℕ)
      → s.got_there ≡ false
      → Level s
      → (search free goal fuel s).got_there ≡ true
      → Walk free start d goal
      → (search free goal fuel s).label goal ≤ suc d
  unfolding search
  search_shortest goal zero s d got h e w = absurd (ground (arith, got, e))
  search_shortest goal (suc fuel) s d got h e w = elim (List-cases s.waiting) [
    | inl q ↦ absurd (ground (arith, got, e, search_empty free start goal fuel s q))
    | inr (cur, rest, q) ↦
        let step_ = search_next free start goal fuel s cur rest q in
        elim (Bool-cases (cur == goal)) [
          | inl here ↦
              let same : cur ≡ goal = ground (arith, here) in
              let low : s.label goal ≤ suc d = elim (Bool-cases (leb (suc d) (s.label cur))) [
                | inl near ↦ (nearer_done s cur rest q h d goal w (ground (arith, near))).1
                | inr far ↦ subst (λ x. s.label x ≤ suc d) same (ground (arith, far))
              ] in
              let stop : search free goal (suc fuel) s
                  ≡ record s { waiting = rest; got_there = true } =
                step_ ∙ rw here refl in
              subst (λ r. r.label goal ≤ suc d) (sym stop) low
          | inr there ↦
              let from : Search = record s { waiting = rest } in
              let next = spread_all free cur (around cur) from in
              let on : search free goal (suc fuel) s ≡ search free goal fuel next =
                step_ ∙ rw there refl in
              subst (λ r. r.label goal ≤ suc d) (sym on)
                (search_shortest goal fuel next d
                  (got_there-spread_all free start goal cur (around cur) from ∙ got)
                  (round-Level s cur rest q h) (subst (λ r. r.got_there ≡ true) on e) w)
        ]
  ]
