-- ===== src/GameVanyadum/Past.antt =====
-- internal/gamevanyadum/history.go: what the ring answers for an instant, against the log.
use native.Mathlib.Nat.{mod-eq_of_lt, add-mod_right}
use psycho_space.Prelude.{
  ℤ, pos, negsuc, ℕ, zero, suc, ◌+◌, ◌-◌, ◌%◌, ◌≤◌, ◌<◌, ◌≡◌, refl, sym, ap, ◌∙◌, ◌⊎◌, inl, inr,
  true, false, not, List, [], ◌∷◌, map, ltb, ◌==◌, if◌then◌else◌, length, arith, Bool-cases,
}
use psycho_space.Prelude.Dict.{Dict}
use psycho_space.GameVanyadum.History.{
  rewind_to, rewind_of, history_capacity, Spot, Frame, History, nth, new_history, record_frame,
  without, forget, frame_at, past_at, bracket, between, at,
}
use psycho_space.GameVanyadum.Ring.{
  length-set_nth, length-map, length-blanks, Holds, place_in, new_history-Holds, record_frame-Holds,
  forget-Holds,
}

-- A use of the ring: a frame is recorded, or an entity is taken out of every frame.
pub data Use (N : Type 0) : Type 0 where
  recorded : Frame N → Use N
  forgotten : ℕ → Use N

ring_index :
    (next len count i : ℕ)
    → next < len
    → count ≤ len
    → (ltb count len ≡ false) ⊎ (next ≡ count)
    → i < count
    → ((if count == len then next else 0) + (count - 1 - i)) % len ≡ place_in i next len
ring_index next len count i low many full b = elim (Bool-cases (ltb count len)) [
  | inl short ↦
      let sum : (if count == len then next else 0) + (count - 1 - i) ≡ count - 1 - i =
        ground (arith, short) in
      let small : count - 1 - i < len = ground (arith, short) in
      ap (λ n. n % len) sum ∙ mod-eq_of_lt small ∙ ground (arith, short, full, b)
  | inr wrapped ↦ elim (Bool-cases (ltb i next)) [
    | inl newer ↦
        let sum : (if count == len then next else 0) + (count - 1 - i) ≡ next - 1 - i + len =
          ground (arith, wrapped, newer, many, b) in
        let small : next - 1 - i < len = ground (arith, low) in
        ap (λ n. n % len) sum
        ∙ add-mod_right (next - 1 - i) len
        ∙ mod-eq_of_lt small
        ∙ ground (arith, newer)
    | inr older ↦
        let sum : (if count == len then next else 0) + (count - 1 - i) ≡ next + len - 1 - i =
          ground (arith, wrapped, older, many, b) in
        let small : next + len - 1 - i < len = ground (arith, low, older, b, many) in
        ap (λ n. n % len) sum ∙ mod-eq_of_lt small ∙ ground (arith, older)
  ]
]

rewind_of-between : (rtt : ℤ) → (120000000 ≤ rewind_of rtt) × (rewind_of rtt ≤ 500000000)
unfolding rewind_of
rewind_of-between (pos n) = ground arith
rewind_of-between (negsuc n) = ground arith

module _ (N : Type 0) where
  -- The ring after some uses, and the log of what was recorded, the newest first.
  unfoldable pub run : List (Use N) → History N → History N
  run [] h = h
  run (recorded f ∷ us) h = run us (record_frame N f h)
  run (forgotten r ∷ us) h = run us (forget N r h)

  unfoldable pub log_of : List (Use N) → List (Frame N) → List (Frame N)
  log_of [] log = log
  log_of (recorded f ∷ us) log = log_of us (f ∷ log)
  log_of (forgotten r ∷ us) log = log_of us (map (without N r) log)

  run-Holds :
      (us : List (Use N)) (h : History N) (log : List (Frame N))
      → Holds N h log
      → Holds N (run us h) (log_of us log)
  unfolding run log_of
  run-Holds [] h log e = e
  run-Holds (recorded f ∷ us) h log e =
      run-Holds us (record_frame N f h) (f ∷ log) (record_frame-Holds N f h log e)
  run-Holds (forgotten r ∷ us) h log e =
      run-Holds us (forget N r h) (map (without N r) log) (forget-Holds N r h log e)

  frame_at-Holds :
      (h : History N) (log : List (Frame N)) (j : ℕ)
      → Holds N h log
      → j < h.count
      → frame_at N h j ≡ nth N (h.count - 1 - j) log
  unfolding frame_at
  frame_at-Holds h log j (low, many, full, same) b =
      let i : ℕ = h.count - 1 - j in
      let back : h.count - 1 - i ≡ j = omega (arith, b) in
      let low_i : i < h.count = omega (arith, b) in
      ap
        (λ k.
          nth N (((if h.count == length h.frames then h.next else 0) + k) % length h.frames)
            h.frames)
        (sym back)
      ∙ ap (λ k. nth N k h.frames)
          (ring_index h.next (length h.frames) h.count i low (ground (arith, many)) full low_i)
      ∙ same i low_i

  length-run : (us : List (Use N)) (h : History N) → length (run us h).frames ≡ length h.frames
  unfolding run record_frame forget
  length-run [] h = refl
  length-run (recorded f ∷ us) h =
      length-run us (record_frame N f h) ∙ length-set_nth N h.next f h.frames
  length-run (forgotten r ∷ us) h = length-run us (forget N r h) ∙ length-map N r h.frames

  length-new_history : (n : ℕ) → length (new_history N n).frames ≡ n
  unfolding new_history
  length-new_history n = length-blanks N n

  module _ (mix : N → N → ℕ → ℕ → N) where
    abbrev step : ℕ → Frame N → Frame N → Dict (Spot N) → Dict (Spot N)
    step instant a b rest = elim (ltb b.at instant) [
      | true ↦ rest
      | false ↦ between N mix instant a b
    ]

    abbrev look : ℕ → Frame N → Frame N → Dict (Spot N) → Dict (Spot N)
    look instant oldest newest rest =
        if not (ltb oldest.at instant)
        then oldest.spots
        else if not (ltb instant newest.at)
        then newest.spots
        else rest

    bracket-cong :
        (instant : ℕ) (f g : ℕ → Frame N) (i n : ℕ) (newest : Dict (Spot N))
        → ((j : ℕ) → j < suc (i + n) → f j ≡ g j)
        → bracket N mix instant f i n newest ≡ bracket N mix instant g i n newest
    unfolding bracket
    bracket-cong instant f g i zero newest e = refl
    bracket-cong instant f g i (suc n) newest e =
        ap (λ a. step instant a (f (suc i)) (bracket N mix instant f (suc i) n newest))
          (e i (omega arith))
        ∙ ap (λ b. step instant (g i) b (bracket N mix instant f (suc i) n newest))
            (e (suc i) (omega arith))
        ∙ ap (step instant (g i) (g (suc i)))
            (bracket-cong instant f g (suc i) n newest (λ j b. e j (omega (arith, b))))

    past_at-cong :
        (instant : ℕ) (f g : ℕ → Frame N) (n : ℕ)
        → ((j : ℕ) → j < n → f j ≡ g j)
        → past_at N mix instant f n ≡ past_at N mix instant g n
    unfolding past_at
    past_at-cong instant f g zero e = refl
    past_at-cong instant f g (suc n) e =
        ap (λ a. look instant a (f n) (bracket N mix instant f 0 n (f n).spots)) (e 0 (omega arith))
        ∙ ap (λ b. look instant (g 0) b (bracket N mix instant f 0 n b.spots)) (e n (omega arith))
        ∙ ap (look instant (g 0) (g n))
            (bracket-cong instant f g 0 n (g n).spots (λ j b. e j (omega (arith, b))))

    -- How many frames of a log a ring of a capacity still has.
    abbrev pub still : ℕ → List (Frame N) → ℕ
    still capacity log = if ltb (length log) capacity then length log else capacity

    -- A ring of a capacity above nought answers for an instant as the log of all that was recorded does
    -- when only its newest frames count, as many as the capacity, and what was forgotten since is left
    -- out.
    pub at_lem :
        (capacity instant : ℕ) (us : List (Use N))
        → 0 < capacity
        → at N mix instant (run us (new_history N capacity))
          ≡ past_at N mix instant
              (λ j. nth N (still capacity (log_of us []) - 1 - j) (log_of us []))
              (still capacity (log_of us []))
    unfolding at
    at_lem capacity instant us h =
        let ring : History N = run us (new_history N capacity) in
        let log : List (Frame N) = log_of us [] in
        let holds : Holds N ring log =
          run-Holds us (new_history N capacity) [] (new_history-Holds N capacity h) in
        let size : length ring.frames ≡ capacity =
          length-run us (new_history N capacity) ∙ length-new_history capacity in
        let many : ring.count ≡ still capacity log = ground (arith, holds.1, size) in
        past_at-cong instant (frame_at N ring) (λ j. nth N (ring.count - 1 - j) log) ring.count
          (λ j b. frame_at-Holds ring log j holds b)
        ∙ ap (λ n. past_at N mix instant (λ j. nth N (n - 1 - j) log) n) many

    -- The world that a shot is judged against is the one of the log's twelve newest frames, less what was
    -- forgotten, as it was between 120 and 500 milliseconds ago, whatever round trip is claimed.
    pub rewind_to_lem :
        (now : ℕ) (rtt : ℤ) (us : List (Use N))
        → (rewind_to N mix now rtt (run us (new_history N history_capacity))
            ≡ past_at N mix
                (now - rewind_of rtt)
                (λ j. nth N (still 12 (log_of us []) - 1 - j) (log_of us []))
                (still 12 (log_of us [])))
          × (120000000 ≤ rewind_of rtt)
          × (rewind_of rtt ≤ 500000000)
    unfolding rewind_to
    rewind_to_lem now rtt us = (
      at_lem 12 (now - rewind_of rtt) us (omega arith),
      (rewind_of-between rtt).0,
      (rewind_of-between rtt).1,
    )
