-- ===== src/GameFintech/Spread.antt =====
-- The whole flood fill reaches the cells that can be reached, and no others, before its fuel is spent.
use psycho_space.Prelude.{
  ℕ, zero, suc, ◌+◌, ◌≤◌, ◌<◌, ◌≡◌, refl, sym, subst, ◌∙◌, ◌↔◌, Bool, true, List, [], ◌∷◌, ◌==◌,
  arith, inl, inr, Bool-cases, length, contains,
}
use psycho_space.GameFintech.Grid.{nav_cells, around, Fill, count_to, look_all, fill, fill_from}
use psycho_space.GameFintech.Counting.{
  count_to_mono, count_to_full, count_to_one, count_to_bound, count_to-cong,
}
use psycho_space.GameFintech.Flood.{
  Reach, at_start, onward, Ok, Settled, empty_of, List-cases, look_all_seen, look_all_size,
  round-Ok, round-Settled,
}

module _ (free : ℕ → Bool) (start : ℕ) where
  abbrev Done : Fill → Type 0
  Done s = Ok free start s × Settled free start s × (s.queue ≡ [])

  fill_empty : (fuel : ℕ) (s : Fill) → s.queue ≡ [] → fill free (suc fuel) s ≡ s
  unfolding fill
  fill_empty fuel s e = ground (arith, e)

  fill_next :
      (fuel : ℕ) (s : Fill) (cur : ℕ) (rest : List ℕ)
      → s.queue ≡ cur ∷ rest
      → fill free (suc fuel) s
        ≡ fill free fuel (look_all free (around cur) (record s { queue = rest }))
  unfolding fill
  fill_next fuel s cur rest e = ground (arith, e)

  -- A fill with enough fuel ends with an empty queue, and with its facts.
  fill_ends :
      (fuel : ℕ) (s : Fill)
      → Ok free start s
      → Settled free start s
      → length s.queue + count_to free nav_cells ≤ fuel + s.reached
      → Done (fill free fuel s)
  unfolding fill
  fill_ends zero s ok settled enough = (
    ok,
    settled,
    empty_of s.queue (
        ground (
          arith,
          enough,
          ok.counted,
          count_to_mono s.seen free nav_cells (λ n e. (ok.seen_ok n e).0),
        )),
  )
  fill_ends (suc fuel) s ok settled enough = elim (List-cases s.queue) [
    | inl e ↦ subst Done (sym (fill_empty fuel s e)) (ok, settled, e)
    | inr (cur, rest, e) ↦ subst Done (sym (fill_next fuel s cur rest e)) (
        fill_ends fuel (look_all free (around cur) (record s { queue = rest }))
          (round-Ok free start s cur rest e ok) (round-Settled free start s cur rest e settled)
          (ground
            (arith, look_all_size free start (around cur) (record s { queue = rest }), enough, e)))
  ]

  fill_from-Done : start < nav_cells → free start ≡ true → Done (fill_from free start)
  unfolding fill_from contains
  fill_from-Done b f =
      fill_ends (nav_cells + 1) (record { seen = λ n. n == start; queue = start ∷ []; reached = 1 })
        (record {
          seen_ok = λ n e. let same : n ≡ start = ground (arith, e) in rw same (f, b, at_start);
          queued_ok = λ n e. ground (arith, e);
          counted = sym (count_to_one start nav_cells b);
        })
        (λ m n e queued near g. absurd (ground (arith, e, queued)))
        (omega (arith, count_to_bound free nav_cells))

  -- Whatever can be walked to is seen.
  Reach-seen :
      (s : Fill) → Done s → s.seen start ≡ true → (n : ℕ) → Reach free start n → s.seen n ≡ true
  unfolding contains
  Reach-seen s d e _ at_start = e
  Reach-seen s d e _ (onward m n r near f) = d.1 m n (Reach-seen s d e m r) (rw d.2 refl) near f

  fill_seen : (fuel : ℕ) (s : Fill) (n : ℕ) → s.seen n ≡ true → (fill free fuel s).seen n ≡ true
  unfolding fill
  fill_seen zero s n e = e
  fill_seen (suc fuel) s n e = elim (List-cases s.queue) [
    | inl q ↦ ground (arith, q, e)
    | inr (cur, rest, q) ↦ ground (
      arith,
      q,
      look_all_seen free start (around cur) (record s { queue = rest }) n e,
      fill_seen fuel (look_all free (around cur) (record s { queue = rest })) n,
    )
  ]

  -- A fill from a free cell of the grid sees exactly the cells that can be walked to, and counts them.
  pub seen_iff :
      (n : ℕ)
      → start < nav_cells
      → free start ≡ true
      → ((fill_from free start).seen n ≡ true) ↔ Reach free start n
  unfolding fill_from
  seen_iff n b f =
      let done = fill_from-Done b f in
      let from : Fill = record { seen = λ k. k == start; queue = start ∷ []; reached = 1 } in
      (
        (λ e. (done.0.seen_ok n e).2),
        Reach-seen (fill_from free start) done (fill_seen (nav_cells + 1) from start (ground arith))
            n,
      )

  -- It counts every free cell exactly if every free cell can be walked to.
  pub covers_iff :
      start < nav_cells
      → free start ≡ true
      → ((fill_from free start).reached == count_to free nav_cells ≡ true)
        ↔ ((n : ℕ) → n < nav_cells → free n ≡ true → Reach free start n)
  covers_iff b f =
      let done = fill_from-Done b f in
      let s = fill_from free start in
      (
        (λ e n below clear. (seen_iff n b f).0 (
            count_to_full s.seen free nav_cells n (λ m q. (done.0.seen_ok m q).0)
              (ground (arith, e, done.0.counted)) below clear)),
        (λ all. ground (
          arith,
          done.0.counted,
          count_to-cong s.seen free nav_cells (λ n below. elim (Bool-cases (free n)) [
            | inl clear ↦ (seen_iff n b f).1 (all n below clear) ∙ sym clear
            | inr shut ↦ elim (Bool-cases (s.seen n)) [
              | inl q ↦ ground (arith, (done.0.seen_ok n q).0, shut)
              | inr q ↦ q ∙ sym shut
            ]
          ]),
        )),
      )
