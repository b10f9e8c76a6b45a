-- ===== src/GameVanyadum/Ring.antt =====
-- internal/gamevanyadum/history.go: the ring against the whole log of what was recorded.
use native.Mathlib.Nat.{mod_self, mod-eq_of_lt}
use psycho_space.Prelude.{
  ℕ, zero, suc, ◌+◌, ◌-◌, ◌%◌, ◌<◌, ◌≡◌, ◌≢◌, refl, sym, subst, ap, ◌∙◌, ◌⊎◌, inl, inr, false, List,
  [], ◌∷◌, map, ltb, if◌then◌else◌, length, arith, Bool-cases,
}
use psycho_space.Prelude.Dict.{del}
use psycho_space.GameVanyadum.History.{
  Frame, History, nth, set_nth, blanks, new_history, record_frame, without, forget,
}

-- Where the frame stands that was recorded `i` frames before the newest.
abbrev pub place_in : ℕ → ℕ → ℕ → ℕ
place_in i next len = if ltb i next then next - 1 - i else next + len - 1 - i

module _ (N : Type 0) where
  pub length-set_nth :
      (i : ℕ) (f : Frame N) (fs : List (Frame N)) → length (set_nth N i f fs) ≡ length fs
  unfolding set_nth
  length-set_nth i f [] = refl
  length-set_nth zero f (g ∷ fs) = refl
  length-set_nth (suc i) f (g ∷ fs) = ap suc (length-set_nth i f fs)

  nth-set_nth :
      (i : ℕ) (f : Frame N) (fs : List (Frame N)) → i < length fs → nth N i (set_nth N i f fs) ≡ f
  unfolding nth set_nth
  nth-set_nth i f [] h = ground (arith, h)
  nth-set_nth zero f (g ∷ fs) h = refl
  nth-set_nth (suc i) f (g ∷ fs) h = nth-set_nth i f fs (omega (arith, h))

  nth-set_nth_other :
      (i j : ℕ) (f : Frame N) (fs : List (Frame N))
      → i ≢ j
      → nth N j (set_nth N i f fs) ≡ nth N j fs
  unfolding nth set_nth
  nth-set_nth_other i j f [] h = refl
  nth-set_nth_other zero zero f (g ∷ fs) h = elim (h refl) [ ]
  nth-set_nth_other zero (suc j) f (g ∷ fs) h = refl
  nth-set_nth_other (suc i) zero f (g ∷ fs) h = refl
  nth-set_nth_other (suc i) (suc j) f (g ∷ fs) h = nth-set_nth_other i j f fs (λ e. h (ap suc e))

  nth-map :
      (r i : ℕ) (fs : List (Frame N)) → nth N i (map (without N r) fs) ≡ without N r (nth N i fs)
  unfolding nth del
  nth-map r i [] = refl
  nth-map r zero (f ∷ fs) = refl
  nth-map r (suc i) (f ∷ fs) = nth-map r i fs

  pub length-map : (r : ℕ) (fs : List (Frame N)) → length (map (without N r) fs) ≡ length fs
  length-map r [] = refl
  length-map r (f ∷ fs) = ap suc (length-map r fs)

  pub length-blanks : (n : ℕ) → length (blanks N n) ≡ n
  unfolding blanks
  length-blanks zero = refl
  length-blanks (suc n) = ap suc (length-blanks n)

  abbrev pub place : ℕ → History N → ℕ
  place i h = place_in i h.next (length h.frames)

  abbrev IsNext : ℕ → ℕ → ℕ → Type 0
  IsNext next len next' = ((next + 1 ≡ len) × (next' ≡ 0)) ⊎ ((next + 1 < len) × (next' ≡ next + 1))

  place-newest : (next len next' : ℕ) → IsNext next len next' → place_in 0 next' len ≡ next
  place-newest next len next' h = ground (arith, h)

  place-older :
      (i next len next' : ℕ)
      → next < len
      → suc i < len
      → IsNext next len next'
      → (place_in (suc i) next' len ≡ place_in i next len) × (next ≢ place_in i next len)
  place-older i next len next' low b h = ground (arith, low, b, h)

  -- The ring holds the newest frames of a log, the newest first there.
  abbrev pub Holds : History N → List (Frame N) → Type 0
  Holds h log =
      (h.next < length h.frames)
      × (h.count ≡ (if ltb (length log) (length h.frames) then length log else length h.frames))
      × ((ltb h.count (length h.frames) ≡ false) ⊎ (h.next ≡ h.count))
      × ((i : ℕ) → i < h.count → nth N (place i h) h.frames ≡ nth N i log)

  next-how :
      (h : History N)
      → h.next < length h.frames
      → ((h.next + 1 ≡ length h.frames) × ((h.next + 1) % length h.frames ≡ 0))
        ⊎ ((h.next + 1 < length h.frames) × ((h.next + 1) % length h.frames ≡ h.next + 1))
  next-how h b = elim (Bool-cases (ltb (h.next + 1) (length h.frames))) [
    | inl e ↦
        let small : h.next + 1 < length h.frames = ground (arith, e) in
        inr (small, mod-eq_of_lt small)
    | inr e ↦
        let full : h.next + 1 ≡ length h.frames = ground (arith, e, b) in
        inl (full, ap (λ n. n % length h.frames) full ∙ mod_self (length h.frames))
  ]

  pub new_history-Holds : (n : ℕ) → 0 < n → Holds (new_history N n) []
  unfolding new_history
  new_history-Holds n h = (
    omega (arith, h, length-blanks n),
    ground (arith, h, length-blanks n),
    inr refl,
    λ i b. ground (arith, b),
  )

  same_after :
      (f : Frame N) (h : History N) (log : List (Frame N))
      → Holds h log
      → (i : ℕ) → i < (if ltb h.count (length h.frames) then h.count + 1 else h.count)
      → nth N
          (place_in i ((h.next + 1) % length h.frames) (length h.frames))
          (set_nth N h.next f h.frames)
        ≡ nth N i (f ∷ log)
  unfolding nth
  same_after f h log (low, many, full, same) zero b =
      ap (λ k. nth N k (set_nth N h.next f h.frames))
        (place-newest h.next (length h.frames) ((h.next + 1) % length h.frames) (next-how h low))
      ∙ nth-set_nth h.next f h.frames low
  same_after f h log (low, many, full, same) (suc i) b =
      let within : suc i < length h.frames = ground (arith, b, many) in
      let older =
        place-older i h.next (length h.frames) ((h.next + 1) % length h.frames) low within
          (next-how h low) in
      ap (λ k. nth N k (set_nth N h.next f h.frames)) older.0
      ∙ nth-set_nth_other h.next (place i h) f h.frames older.1
      ∙ same i (ground (arith, b))

  pub record_frame-Holds :
      (f : Frame N) (h : History N) (log : List (Frame N))
      → Holds h log
      → Holds (record_frame N f h) (f ∷ log)
  unfolding record_frame nth
  record_frame-Holds f h log (low, many, full, same) = (
    ground (arith, next-how h low, length-set_nth h.next f h.frames),
    ground (arith, many, length-set_nth h.next f h.frames),
    ground (arith, low, full, next-how h low, length-set_nth h.next f h.frames),
    λ i b.
        subst
          (λ len.
            nth N (place_in i ((h.next + 1) % length h.frames) len) (set_nth N h.next f h.frames)
            ≡ nth N i (f ∷ log))
          (sym (length-set_nth h.next f h.frames))
          (same_after f h log (low, many, full, same) i (ground (arith, b))),
  )

  pub forget-Holds :
      (r : ℕ) (h : History N) (log : List (Frame N))
      → Holds h log
      → Holds (forget N r h) (map (without N r) log)
  unfolding forget
  forget-Holds r h log (low, many, full, same) = (
    ground (arith, low, length-map r h.frames),
    ground (arith, many, length-map r h.frames, length-map r log),
    ground (arith, full, length-map r h.frames),
    λ i b.
        ap (λ len. nth N (place_in i h.next len) (map (without N r) h.frames))
          (length-map r h.frames)
        ∙ nth-map r (place i h) h.frames
        ∙ ap (without N r) (same i b)
        ∙ sym (nth-map r i log),
  )
