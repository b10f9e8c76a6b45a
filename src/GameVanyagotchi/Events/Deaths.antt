-- ===== src/GameVanyagotchi/Events/Deaths.antt =====
-- internal/gamevanyagotchi/event.go: who is dead, and who comes round.
use psycho_space.Prelude.{
  ◌≡◌, refl, sym, subst, ap, ◌∙◌, ◌⊎◌, inl, inr, Bool, true, false, ◌||◌, ◌&&◌, if◌then◌else◌, not,
  List, [], ◌∷◌, Option, none, some, arith, Every, Bool-cases, Option-cases,
}
use psycho_space.GameVanyagotchi.Numbers.{Floats}
use psycho_space.GameVanyagotchi.Catalogue.{
  Action, Catalogue, Event, Snapshot, PetError, action_by_key,
}
use psycho_space.GameVanyagotchi.Events.{
  is_known, advance, died, perform, apply, all_above, is_alive, kept, fold,
}
use psycho_space.GameVanyagotchi.Events.Passing.{OnNext, apply-OnNext}

module _ (F : Floats) (c : Catalogue F) where
  abbrev pub revives : Option (Action F) → Bool
  revives none = false
  revives (some a) = a.revives_fatal

  abbrev pub restarts : Option (Action F) → Bool
  restarts none = false
  restarts (some a) = a.starts_over

  -- The pet may be acted on: he is alive at the instant of the event, or the verb revives. He is dead
  -- afterwards since the instant at which the advance finds him dead, unless the verb begins anew, or
  -- revives and leaves every fatal stat off its floor.
  abbrev pub IsFate : Snapshot F → Event F → Snapshot F → Type 0
  IsFate s e next =
      let verb = action_by_key F c e.verb in
      (not (is_known (died F c s e.at)) || revives verb ≡ true)
      × (next.died_at ≡ (
          if restarts verb || revives verb && all_above F c next.rows
          then none
          else died F c s e.at))

  perform-IsFate :
      (a : Action F) (s : Snapshot F) (at : F.Instant)
      → (perform F c a at s).died_at ≡ (
          if a.starts_over || a.revives_fatal && all_above F c (perform F c a at s).rows
          then none
          else s.died_at)
  unfolding perform
  perform-IsFate a s at = elim (Bool-cases a.starts_over) [
    | inl e ↦ rw (e, perform) refl
    | inr e ↦ elim (Option-cases s.died_at) [
      | inl b ↦ ground (arith, e, b)
      | inr (t, b) ↦ ground (arith, e, b)
    ]
  ]

  -- An event is applied only if the pet is alive at its instant, or the verb revives. Afterwards he is
  -- alive if the verb begins anew, or if it revives and every fatal stat has been left off its floor;
  -- and else he is dead exactly if the advance to that instant finds him dead, since when it says.
  pub apply-IsFate : (s : Snapshot F) (e : Event F) → OnNext F c (IsFate s e) (apply F c s e)
  unfolding advance
  apply-IsFate s e = apply-OnNext F c (IsFate s e) s e (λ a b h.
      let done = perform F c a e.at (advance F c s e.at) in
      subst
        (λ (o : Option (Action F)).
          (not (is_known (died F c s e.at)) || revives o ≡ true)
          × (done.died_at ≡ (
              if restarts o || revives o && all_above F c done.rows
              then none
              else died F c s e.at)))
        (sym b) (h.1, perform-IsFate a (advance F c s e.at) e.at))

  died-some : (s : Snapshot F) (t to : F.Instant) → s.died_at ≡ some t → died F c s to ≡ some t
  unfolding died
  died-some s t to h = rw (h, died) refl

  kept-refused :
      (s : Snapshot F) (r : PetError ⊎ Snapshot F) → OnNext F c (λ next. ⊥) r → kept F c s r ≡ s
  kept-refused s (inl err) h = refl
  kept-refused s (inr next) h = elim h [ ]

  -- A verb that does not revive leaves a dead pet exactly as he was.
  kept-dead :
      (s : Snapshot F) (t : F.Instant) (e : Event F)
      → s.died_at ≡ some t
      → revives (action_by_key F c e.verb) ≡ false
      → kept F c s (apply F c s e) ≡ s
  unfolding advance
  kept-dead s t e h b = kept-refused s (apply F c s e) (
      apply-OnNext F c (λ next. ⊥) s e
        (λ a known passes.
          let same : revives (action_by_key F c e.verb) ≡ a.revives_fatal = ap revives known in
          let dead : is_alive F c (advance F c s e.at) ≡ false =
            ap (λ o. not (is_known o)) (died-some s t e.at h) in
          ground (arith, b, same, dead, passes.1)))

  -- A dead pet is left exactly as he is by a history of verbs of which none revives.
  pub fold-dead :
      (s : Snapshot F) (t : F.Instant) (es : List (Event F))
      → s.died_at ≡ some t
      → Every (λ (e : Event F). revives (action_by_key F c e.verb) ≡ false) es
      → fold F c s es ≡ s
  unfolding fold
  fold-dead s t [] h b = refl
  fold-dead s t (e ∷ es) h b =
      ap (λ x. fold F c x es) (kept-dead s t e h b.0) ∙ fold-dead s t es h b.1
