-- ===== src/GameFintech/Chase.antt =====
-- Where a pursuer heads brings it closer, and it heads there whenever there is a way.
use psycho_space.Prelude.{
  ℕ, zero, suc, ◌+◌, ◌<◌, ◌≤◌, ◌≡◌, ◌≢◌, refl, subst, ◌⊎◌, Bool, true, false, List, [], ◌∷◌, none,
  some, arith, inl, inr, contains,
}
use psycho_space.GameFintech.Grid.{nav_cells, around}
use psycho_space.GameFintech.Navigate.{
  Search, set_label, spread_all, search, search_from, best_of, next_cell,
}
use psycho_space.GameFintech.Counting.{count_to_bound}
use psycho_space.GameFintech.Flood.{has, around_bound, List-cases}
use psycho_space.GameFintech.Labels.{
  labelled, pred-cases, Walk, no_step, one_more, Good, spread_all-labelled,
}
use psycho_space.GameFintech.Beside.{around_sym}
use psycho_space.GameFintech.Step.{best_of_picks, best_of_finds}
use psycho_space.GameFintech.Route.{Settled, Ended, search_ends}
use psycho_space.GameFintech.Levels.{Rising, Level, search_shortest}

-- No walk of no steps but at the start.
pub stays : (free : ℕ → Bool) (start n : ℕ) → Walk free start 0 n → n ≡ start
stays free start _ no_step = refl

pub Walk-free : (free : ℕ → Bool) (start d n : ℕ) → Walk free start (suc d) n → free n ≡ true
Walk-free free start _ _ (one_more d m n w near f) = f

not_there : (n : ℕ) (xs : List ℕ) → xs ≡ [] → contains n xs ≡ false
unfolding contains
not_there n [] e = refl
not_there n (x ∷ xs) e = cc

pub Nat-cases : (n : ℕ) → (n ≡ 0) ⊎ ((m : ℕ) × (n ≡ suc m))
Nat-cases zero = inl refl
Nat-cases (suc m) = inr (m, refl)

module _ (free : ℕ → Bool) (start goal : ℕ) where
  abbrev first_state : Search
  first_state = record {
    label = set_label start 1 (λ n. 0);
    waiting = start ∷ [];
    got_there = false;
  }

  first-Good : free start ≡ true → Good free start first_state
  unfolding contains
  first-Good f = record {
    walks = λ n d e.
        let same : start ≡ n = ground (arith, e) in
        let none_yet : 0 ≡ d = ground (arith, e) in
        (
          subst (λ x. free x ≡ true) same f,
          subst (λ x. Walk free start x n) none_yet (subst (λ x. Walk free start 0 x) same no_step),
        );
    parent = λ n d e. absurd (ground (arith, e));
    waits = λ n h. ground (arith, h);
  }

  first_ends :
      start < nav_cells → free start ≡ true → Ended free start goal (search_from free start goal)
  unfolding search_from contains
  first_ends b f =
      search_ends free start goal (nav_cells + 1) first_state refl (first-Good f)
        (λ l. ground (arith, l)) (λ m n l away near g. absurd (ground (arith, l, away)))
        (ground (arith, count_to_bound free nav_cells))

  search-labelled :
      (fuel : ℕ) (s : Search) (n : ℕ)
      → labelled s n ≡ true
      → labelled (search free goal fuel s) n ≡ true
  unfolding search
  search-labelled zero s n e = e
  search-labelled (suc fuel) s n e = elim (List-cases s.waiting) [
    | inl q ↦ ground (arith, q, e)
    | inr (cur, rest, q) ↦ ground (
      arith,
      q,
      e,
      spread_all-labelled free start cur (around cur) (record s { waiting = rest }) n e,
      search-labelled fuel (spread_all free cur (around cur) (record s { waiting = rest })) n,
    )
  ]

  Walk-labelled :
      (s : Search) (d n : ℕ)
      → Settled free start goal s
      → s.waiting ≡ []
      → labelled s start ≡ true
      → Walk free start d n
      → labelled s n ≡ true
  Walk-labelled s _ _ h e l no_step = l
  Walk-labelled s _ _ h e l (one_more d m n w near f) =
      h m n (Walk-labelled s d m h e l w) (not_there m s.waiting e) near f

  Walk-bound : (d n : ℕ) → start < nav_cells → Walk free start d n → n < nav_cells
  Walk-bound _ _ b no_step = b
  Walk-bound _ _ b (one_more d m n w near f) = around_bound m n near

  -- The next cell is a free neighbour with a walk to the target shorter than any from the goal's cell.
  abbrev pub Closer : ℕ → Type 0
  Closer n =
      (has n (around goal) ≡ true)
      × (free n ≡ true)
      × ((e : ℕ) × Walk free start e n × ((d : ℕ) → Walk free start d goal → e < d))

  first-Level : Level free start first_state
  unfolding contains
  first-Level = (
    (λ cur rest q.
        let same : start ≡ cur = ground (arith, q) in
        let nothing : [] ≡ rest = ground (arith, q) in
        subst
          (λ x.
            (1 ≤ first_state.label x)
            × ((n : ℕ) → first_state.label n ≤ first_state.label x + 1)
            × Rising first_state.label (first_state.label x) rest)
          same
          (
            ground arith,
            (λ n. ground arith),
            subst (λ l. Rising first_state.label (first_state.label start) l) nothing tt,
          )),
    (λ m n l away near g. absurd (ground (arith, l, away))),
    ground arith,
  )

  label_shortest :
      (d : ℕ)
      → (search_from free start goal).got_there ≡ true
      → Walk free start d goal
      → (search_from free start goal).label goal ≤ suc d
  unfolding search_from
  label_shortest d got w =
      search_shortest free start goal (nav_cells + 1) first_state d refl first-Level got w

  pub next_cell-Closer :
      (n : ℕ)
      → start < nav_cells
      → free start ≡ true
      → next_cell free start goal ≡ some n
      → Closer n
  unfolding next_cell
  next_cell-Closer n b f e =
      let s = search_from free start goal in
      let ended = first_ends b f in
      elim ended.1 [
        | inr (got, no_label, settled, empty) ↦ absurd (ground (arith, got, e))
        | inl (got, at_goal) ↦
            let pick : (best_of free s.label (around goal) (none, s.label goal)).0 ≡ some n =
              ground (arith, got, e) in
            elim (best_of_picks free s.label (around goal) (none, s.label goal) n pick) [
              | inl none_ ↦ absurd (ground (arith, none_))
              | inr (near, clear, l, less) ↦
                  let (d, at_d) = pred-cases (s.label goal) at_goal in
                  let (e', at_e) = pred-cases (s.label n) (ground (arith, l)) in
                  (
                    near,
                    clear,
                    (
                      e',
                      (ended.0.walks n e' at_e).1,
                      (λ k w. ground (arith, less, at_d, at_e, label_shortest k got w)),
                    ),
                  )
            ]
      ]

  start_labelled : labelled (search_from free start goal) start ≡ true
  unfolding search_from
  start_labelled = search-labelled (nav_cells + 1) first_state start (ground arith)

  pub next_cell-none :
      (d : ℕ)
      → start < nav_cells
      → free start ≡ true
      → goal ≢ start
      → next_cell free start goal ≡ none
      → Walk free start d goal
      → ⊥
  unfolding next_cell
  next_cell-none d b f apart e w =
      let s = search_from free start goal in
      let ended = first_ends b f in
      let at_start : labelled s start ≡ true = start_labelled in
      elim ended.1 [
        | inr (got, no_label, settled, empty) ↦
            ground (arith, no_label, Walk-labelled s d goal settled empty at_start w)
        | inl (got, at_goal) ↦
            let (d', at_d) = pred-cases (s.label goal) at_goal in
            elim (Nat-cases d') [
              | inl z ↦ apart (
                  stays free start goal
                    (subst (λ x. Walk free start x goal) z (ended.0.walks goal d' at_d).1))
              | inr (d'', z) ↦
                  let (m, at_m, near) = ended.0.parent goal d'' (ground (arith, at_d, z)) in
                  let found_m = ended.0.walks m d'' at_m in
                  best_of_finds free s.label (around goal) (s.label goal) m
                    (around_sym m goal (Walk-bound d'' m b found_m.1) near) found_m.0
                    (ground (arith, at_m)) (ground (arith, at_m, at_d, z)) (ground (arith, got, e))
            ]
      ]
