-- ===== src/GameVanyagotchi/Events/Stamps.antt =====
-- internal/gamevanyagotchi/event.go: an event stamps every stat at its own instant, within its bounds.
use psycho_space.Prelude.{
  ℕ, ◌≡◌, refl, sym, subst, ap, ◌∙◌, ◌⊎◌, inl, inr, List, [], ◌∷◌, Option, none, some, ◌==◌, arith,
  Every, Bool-cases, Option-cases,
}
use psycho_space.Prelude.Dict.{Dict, get, put, get-put}
use psycho_space.GameVanyagotchi.Numbers.{Floats, Order}
use psycho_space.GameVanyagotchi.Catalogue.{
  Stat, StatRow, StatDelta, Action, Catalogue, Event, Snapshot, stat_in, stat_by_key,
}
use psycho_space.GameVanyagotchi.Decay.{clamp, at_with, steps}
use psycho_space.GameVanyagotchi.Decay.Bounds.{InRange, IsSound, clamp-InRange, value_at-InRange}
use psycho_space.GameVanyagotchi.Events.Passing.{OnNext, apply-OnNext}
use psycho_space.GameVanyagotchi.Events.{
  advance_row, advance_rows, advance, reset_row, reset_rows, moved_rows, perform, apply,
}

abbrev pub lift : {A B : Type 0} → (A → B) → Option A → Option B
lift f none = none
lift f (some a) = some (f a)

module _ (F : Floats) (order : Order F) (c : Catalogue F) (sound : Every (IsSound F) c.stats) where
  -- A row after the event, of the stat that its key defines (if any) and the row before.
  abbrev pub IsMade : F.Instant → Option (Stat F) → Option (StatRow F) → Option (StatRow F) → Type 0
  IsMade at none old new = new ≡ old
  IsMade at (some def) none new = new ≡ none
  IsMade at (some def) (some row) none = ⊥
  IsMade at (some def) (some row) (some now) = InRange F def now.value × (now.as_of ≡ at)

  stat_in-IsSound :
      (stats : List (Stat F)) (k : ℕ) (def : Stat F)
      → Every (IsSound F) stats
      → stat_in F stats k ≡ some def
      → IsSound F def
  unfolding stat_in
  stat_in-IsSound [] k def h e = ground (arith, e)
  stat_in-IsSound (s ∷ ss) k def h e = elim (Bool-cases (s.key == k)) [
    | inl b ↦ let same : s ≡ def = ground (arith, e, b) in subst (IsSound F) same h.0
    | inr b ↦ stat_in-IsSound ss k def h.1 (ground (arith, e, b))
  ]

  get-advance_rows :
      (to : F.Instant) (drivers m : Dict (StatRow F)) (k : ℕ)
      → get k (advance_rows F c to drivers m) ≡ lift (advance_row F c to drivers k) (get k m)
  unfolding get advance_rows
  get-advance_rows to drivers [] k = refl
  get-advance_rows to drivers ((j, row) ∷ m) k = elim (Bool-cases (j == k)) [
    | inl e ↦
        let same : j ≡ k = ground (arith, e) in
        rw e (ap (λ x. some (advance_row F c to drivers x row)) same)
    | inr e ↦ rw e (get-advance_rows to drivers m k)
  ]

  get-reset_rows :
      (at : F.Instant) (m : Dict (StatRow F)) (k : ℕ)
      → get k (reset_rows F c at m) ≡ lift (reset_row F c at k) (get k m)
  unfolding get reset_rows
  get-reset_rows at [] k = refl
  get-reset_rows at ((j, row) ∷ m) k = elim (Bool-cases (j == k)) [
    | inl e ↦
        let same : j ≡ k = ground (arith, e) in rw e (ap (λ x. some (reset_row F c at x row)) same)
    | inr e ↦ rw e (get-reset_rows at m k)
  ]

  known-IsSound : (k : ℕ) (def : Stat F) → stat_by_key F c k ≡ some def → IsSound F def
  known-IsSound k def e = stat_in-IsSound c.stats k def sound e

  advance_row-IsMade :
      (to : F.Instant) (drivers : Dict (StatRow F)) (k : ℕ) (old : Option (StatRow F))
      → IsMade to (stat_by_key F c k) old (lift (advance_row F c to drivers k) old)
  unfolding advance_row at_with
  advance_row-IsMade to drivers k old = elim (Option-cases (stat_by_key F c k)) [
    | inl e ↦ rw e (unknown old e)
    | inr (def, e) ↦ rw e (known old def e)
  ]
    where
      unknown :
          (old : Option (StatRow F))
          → stat_by_key F c k ≡ none
          → lift (advance_row F c to drivers k) old ≡ old
      unknown none e = refl
      unknown (some row) e = rw (e, advance_row) refl

      known :
          (old : Option (StatRow F)) (def : Stat F)
          → stat_by_key F c k ≡ some def
          → IsMade to (some def) old (lift (advance_row F c to drivers k) old)
      known none def e = refl
      known (some row) def e =
          rw (e, advance_row)
            (
              value_at-InRange F order def row.value row.as_of to
                  (steps F c def.penalties row.as_of drivers) (known-IsSound k def e),
              refl,
            )

  advance-IsMade :
      (s : Snapshot F) (to : F.Instant) (k : ℕ)
      → IsMade to (stat_by_key F c k) (get k s.rows) (get k (advance F c s to).rows)
  unfolding advance
  advance-IsMade s to k =
      subst (IsMade to (stat_by_key F c k) (get k s.rows))
        (sym (get-advance_rows to s.rows s.rows k)) (advance_row-IsMade to s.rows k (get k s.rows))

  -- A row that has been made may be made anew, in range and at the same instant.
  remade :
      (at : F.Instant) (k : ℕ) (def : Stat F) (old : Option (StatRow F)) (row now : StatRow F)
      → stat_by_key F c k ≡ some def
      → InRange F def now.value
      → now.as_of ≡ at
      → IsMade at (stat_by_key F c k) old (some row)
      → IsMade at (stat_by_key F c k) old (some now)
  remade at k def old row now e fits stamp h =
      subst (λ d. IsMade at d old (some now)) (sym e)
        (again old (subst (λ d. IsMade at d old (some row)) e h))
    where
      again :
          (old : Option (StatRow F))
          → IsMade at (some def) old (some row)
          → IsMade at (some def) old (some now)
      again none h = ground (arith, h)
      again (some before) h = (fits, stamp)

  reset_row-how :
      (at : F.Instant) (k : ℕ) (row : StatRow F)
      → (reset_row F c at k row ≡ row)
        ⊎ ((def : Stat F) × (stat_by_key F c k ≡ some def)
            × (reset_row F c at k row
                ≡ record { key = k; value = clamp F def def.start; as_of = at }))
  unfolding reset_row
  reset_row-how at k row = elim (Option-cases (stat_by_key F c k)) [
    | inl e ↦ inl (rw (e, reset_row) refl)
    | inr (def, e) ↦ elim (Bool-cases def.counter) [
      | inl b ↦ inl (rw (e, b, reset_row) refl)
      | inr b ↦ inr (def, e, rw (e, b, reset_row) refl)
    ]
  ]

  reset_row-IsMade :
      (at : F.Instant) (k : ℕ) (old now : Option (StatRow F))
      → IsMade at (stat_by_key F c k) old now
      → IsMade at (stat_by_key F c k) old (lift (reset_row F c at k) now)
  reset_row-IsMade at k old none h = h
  reset_row-IsMade at k old (some row) h = elim (reset_row-how at k row) [
    | inl e ↦ subst (λ x. IsMade at (stat_by_key F c k) old (some x)) (sym e) h
    | inr (def, e, is) ↦
        subst (λ x. IsMade at (stat_by_key F c k) old (some x)) (sym is)
          (remade at k def old row (record { key = k; value = clamp F def def.start; as_of = at }) e
            (clamp-InRange F order def def.start (known-IsSound k def e)) refl h)
  ]

  reset_rows-IsMade :
      (at : F.Instant) (k : ℕ) (old : Option (StatRow F)) (m : Dict (StatRow F))
      → IsMade at (stat_by_key F c k) old (get k m)
      → IsMade at (stat_by_key F c k) old (get k (reset_rows F c at m))
  reset_rows-IsMade at k old m h =
      subst (IsMade at (stat_by_key F c k) old) (sym (get-reset_rows at m k))
        (reset_row-IsMade at k old (get k m) h)

  abbrev moved_row : F.Instant → StatDelta F → StatRow F → Stat F → StatRow F
  moved_row at d row def = record {
    key = d.stat_key;
    value = clamp F def (F.add row.value d.delta);
    as_of = at;
  }

  moved_rows-how :
      (at : F.Instant) (d : StatDelta F) (ds : List (StatDelta F)) (m : Dict (StatRow F))
      → (moved_rows F c at (d ∷ ds) m ≡ moved_rows F c at ds m)
        ⊎ ((row : StatRow F) × (def : Stat F) × (get d.stat_key m ≡ some row)
            × (stat_by_key F c d.stat_key ≡ some def)
            × (moved_rows F c at (d ∷ ds) m
                ≡ moved_rows F c at ds (put d.stat_key (moved_row at d row def) m)))
  unfolding moved_rows
  moved_rows-how at d ds m = elim (Option-cases (get d.stat_key m)) [
    | inl e ↦ inl (rw (e, moved_rows) refl)
    | inr (row, e) ↦ elim (Option-cases (stat_by_key F c d.stat_key)) [
      | inl b ↦ inl (rw (e, b, moved_rows) refl)
      | inr (def, b) ↦ inr (row, def, e, b, rw (e, b, moved_rows) refl)
    ]
  ]

  put-IsMade :
      (at : F.Instant) (k : ℕ) (old : Option (StatRow F)) (d : StatDelta F) (m : Dict (StatRow F))
      (row : StatRow F) (def : Stat F)
      → get d.stat_key m ≡ some row
      → stat_by_key F c d.stat_key ≡ some def
      → IsMade at (stat_by_key F c k) old (get k m)
      → IsMade at (stat_by_key F c k) old (get k (put d.stat_key (moved_row at d row def) m))
  put-IsMade at k old d m row def e b h = elim (Bool-cases (d.stat_key == k)) [
    | inr other ↦
        let there : get k (put d.stat_key (moved_row at d row def) m) ≡ get k m =
          get-put d.stat_key k (moved_row at d row def) m ∙ ground (arith, other) in
        subst (IsMade at (stat_by_key F c k) old) (sym there) h
    | inl same ↦
        let on : d.stat_key ≡ k = ground (arith, same) in
        let there : get k (put d.stat_key (moved_row at d row def) m)
            ≡ some (moved_row at d row def) =
          get-put d.stat_key k (moved_row at d row def) m ∙ ground (arith, same) in
        let was : get k m ≡ some row = subst (λ j. get j m ≡ some row) on e in
        let is : stat_by_key F c k ≡ some def = subst (λ j. stat_by_key F c j ≡ some def) on b in
        subst (IsMade at (stat_by_key F c k) old) (sym there) (
          remade at k def old row (moved_row at d row def) is
            (clamp-InRange F order def (F.add row.value d.delta) (known-IsSound k def is)) refl
            (subst (IsMade at (stat_by_key F c k) old) was h))
  ]

  moved_rows-IsMade :
      (at : F.Instant) (k : ℕ) (old : Option (StatRow F)) (ds : List (StatDelta F))
      (m : Dict (StatRow F))
      → IsMade at (stat_by_key F c k) old (get k m)
      → IsMade at (stat_by_key F c k) old (get k (moved_rows F c at ds m))
  unfolding moved_rows
  moved_rows-IsMade at k old [] m h = h
  moved_rows-IsMade at k old (d ∷ ds) m h = elim (moved_rows-how at d ds m) [
    | inl e ↦
        subst (λ x. IsMade at (stat_by_key F c k) old (get k x)) (sym e)
          (moved_rows-IsMade at k old ds m h)
    | inr (row, def, e, b, is) ↦
        subst (λ x. IsMade at (stat_by_key F c k) old (get k x)) (sym is)
          (moved_rows-IsMade at k old ds (put d.stat_key (moved_row at d row def) m)
            (put-IsMade at k old d m row def e b h))
  ]

  perform-IsMade :
      (a : Action F) (at : F.Instant) (k : ℕ) (old : Option (StatRow F)) (s : Snapshot F)
      → IsMade at (stat_by_key F c k) old (get k s.rows)
      → IsMade at (stat_by_key F c k) old (get k (perform F c a at s).rows)
  unfolding perform
  perform-IsMade a at k old s h = elim (Bool-cases a.starts_over) [
    | inl e ↦ rw (e, perform) (reset_rows-IsMade at k old s.rows h)
    | inr e ↦ rw (e, perform) (moved_rows-IsMade at k old a.effects s.rows h)
  ]

  -- An event that can be applied stamps the row of every stat of the catalogue at its own instant, with
  -- a value within the stat's bounds; it makes no row and loses none, and leaves a row whose key is not
  -- in the catalogue as it is. The catalogue's bounds are finite and in order, with the start between.
  pub apply-IsMade :
      (s : Snapshot F) (e : Event F) (k : ℕ)
      → OnNext F c
          (λ next. IsMade e.at (stat_by_key F c k) (get k s.rows) (get k next.rows))
          (apply F c s e)
  apply-IsMade s e k =
      apply-OnNext F c (λ next. IsMade e.at (stat_by_key F c k) (get k s.rows) (get k next.rows)) s
        e
        (λ a b h.
          perform-IsMade a e.at k (get k s.rows) (advance F c s e.at) (advance-IsMade s e.at k))
