-- ===== src/GameFintech/Route.antt =====
-- The whole search, and the step that it gives.
use psycho_space.Prelude.{
  ℕ, zero, suc, ◌+◌, ◌≤◌, ◌≡◌, ◌≢◌, refl, sym, subst, ◌∙◌, ◌⊎◌, Bool, true, false, List, [], ◌∷◌,
  Option, none, some, if◌then◌else◌, ◌==◌, arith, inl, inr, Bool-cases, length, contains,
}
use psycho_space.GameFintech.Grid.{nav_cells, around, count_to}
use psycho_space.GameFintech.Navigate.{Search, spread, spread_all, search}
use psycho_space.GameFintech.Counting.{count_to_mono}
use psycho_space.GameFintech.Flood.{has, contains_other, List-cases, empty_of}
use psycho_space.GameFintech.Labels.{
  labelled, pred-cases, Good, Waits, spread_all-has, spread_all-Closed, spread_all-Waits,
  spread_all-Good,
}

pub nothing_there : (n : ℕ) (xs : List ℕ) → xs ≡ [] → contains n xs ≢ true
unfolding contains
nothing_there n [] e h = cc
nothing_there n (x ∷ xs) e h = cc

module _ (free : ℕ → Bool) (start goal : ℕ) where
  abbrev pub Settled : Search → Type 0
  Settled s =
      (m n : ℕ)
      → labelled s m ≡ true
      → contains m s.waiting ≡ false
      → has n (around m) ≡ true
      → free n ≡ true
      → labelled s n ≡ true

  -- How a search ends: at the goal, or with nothing left to look at and the goal without a label.
  abbrev pub Ended : Search → Type 0
  Ended s =
      Good free start s
      × (((s.got_there ≡ true) × (labelled s goal ≡ true))
          ⊎ ((s.got_there ≡ false) × (labelled s goal ≡ false) × Settled s × (s.waiting ≡ [])))

  pub got_there-spread_all :
      (cur : ℕ) (os : List (Option ℕ)) (s : Search)
      → (spread_all free cur os s).got_there ≡ s.got_there
  unfolding spread_all spread
  got_there-spread_all cur [] s = refl
  got_there-spread_all cur (none ∷ os) s = got_there-spread_all cur os s
  got_there-spread_all cur (some k ∷ os) s =
      ground (arith, got_there-spread_all cur os (spread free cur (some k) s))

  pub search_empty : (fuel : ℕ) (s : Search) → s.waiting ≡ [] → search free goal (suc fuel) s ≡ s
  unfolding search
  search_empty fuel s e = ground (arith, e)

  pub search_next :
      (fuel : ℕ) (s : Search) (cur : ℕ) (rest : List ℕ)
      → s.waiting ≡ cur ∷ rest
      → search free goal (suc fuel) s ≡ (
          if cur == goal
          then record s { waiting = rest; got_there = true }
          else search free goal fuel
              (spread_all free cur (around cur) (record s { waiting = rest })))
  unfolding search
  search_next fuel s cur rest e = ground (arith, e)

  shorter-Good :
      (s : Search) (cur : ℕ) (rest : List ℕ) (got : Bool)
      → s.waiting ≡ cur ∷ rest
      → Good free start s
      → Good free start (record s { waiting = rest; got_there = got })
  unfolding contains
  shorter-Good s cur rest got e g = record {
    walks = g.walks;
    parent = g.parent;
    waits = λ n h. g.waits n (rw e (ground (arith, h)));
  }

  round-Settled :
      (s : Search) (cur : ℕ) (rest : List ℕ)
      → s.waiting ≡ cur ∷ rest
      → Settled s
      → Settled (spread_all free cur (around cur) (record s { waiting = rest }))
  round-Settled s cur rest e h m n a b near f = elim (Bool-cases (m == cur)) [
    | inl here ↦
        let same : m ≡ cur = ground (arith, here) in
        spread_all-has free start cur (around cur) (record s { waiting = rest }) n
          (ground (arith, near, same)) f
    | inr there ↦
        spread_all-Closed free start cur (around cur) (record s { waiting = rest })
          (λ i j p q r t u. h i j p (rw e (contains_other i cur rest q r)) t u) m n a b there near f
  ]

  waiting_goal :
      (cur : ℕ) (rest : List ℕ)
      → contains goal (cur ∷ rest) ≡ true
      → cur == goal ≡ false
      → contains goal rest ≡ true
  unfolding contains
  waiting_goal cur rest h other = ground (arith, h, other)

  head_waits : (cur : ℕ) (rest : List ℕ) → contains cur (cur ∷ rest) ≡ true
  unfolding contains
  head_waits cur rest = ground arith

  no_goal : (s : Search) → Waits free start goal s → s.waiting ≡ [] → labelled s goal ≡ false
  unfolding contains
  no_goal s w e = elim (Bool-cases (labelled s goal)) [
    | inl l ↦ absurd (nothing_there goal s.waiting e (w l))
    | inr l ↦ l
  ]

  labelled-free : (s : Search) → Good free start s → (n : ℕ) → labelled s n ≡ true → free n ≡ true
  labelled-free s g n e = let (d, at) = pred-cases (s.label n) e in (g.walks n d at).0

  pub search_ends :
      (fuel : ℕ) (s : Search)
      → s.got_there ≡ false
      → Good free start s
      → Waits free start goal s
      → Settled s
      → length s.waiting + count_to free nav_cells ≤ fuel + count_to (labelled s) nav_cells
      → Ended (search free goal fuel s)
  unfolding search
  search_ends zero s got g w settled enough =
      let empty = empty_of s.waiting (
        ground (
          arith,
          enough,
          count_to_mono (labelled s) free nav_cells (λ n e. labelled-free s g n e),
        )) in
      (g, inr (got, no_goal s w empty, settled, empty))
  search_ends (suc fuel) s got g w settled enough = elim (List-cases s.waiting) [
    | inl e ↦ subst Ended (sym (search_empty fuel s e)) (g, inr (got, no_goal s w e, settled, e))
    | inr (cur, rest, e) ↦ elim (Bool-cases (cur == goal)) [
      | inl here ↦
          let same : cur ≡ goal = ground (arith, here) in
          subst Ended (sym (search_next fuel s cur rest e ∙ rw here refl)) (
            shorter-Good s cur rest true e g,
            inl (
              refl,
              subst (λ x. labelled s x ≡ true) same (g.waits cur (rw e (head_waits cur rest))),
            ),
          )
      | inr there ↦
          let next = spread_all free cur (around cur) (record s { waiting = rest }) in
          let kept =
            spread_all-Good free start cur (around cur) (record s { waiting = rest })
              (g.waits cur (rw e (head_waits cur rest))) (λ n h. h)
              (shorter-Good s cur rest s.got_there e g) in
          subst Ended (sym (search_next fuel s cur rest e ∙ rw there refl)) (
            search_ends fuel next
              (got_there-spread_all cur (around cur) (record s { waiting = rest }) ∙ got) kept.0
              (spread_all-Waits free start goal cur (around cur) (record s { waiting = rest })
                (λ l. waiting_goal cur rest (subst (λ q. contains goal q ≡ true) e (w l)) there))
              (round-Settled s cur rest e settled) (ground (arith, kept.1, enough, e)))
    ]
  ]
