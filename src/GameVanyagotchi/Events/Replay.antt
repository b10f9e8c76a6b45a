-- ===== src/GameVanyagotchi/Events/Replay.antt =====
-- internal/gamevanyagotchi/event.go, service.go: the live batch and the replay of a history.
use psycho_space.Prelude.{
  ℕ, ◌≡◌, ◌≤◌, refl, sym, subst, ap, ◌∙◌, ◌⊎◌, inl, inr, Bool, false, List, [], ◌∷◌, Option, none,
  some, if◌then◌else◌, arith, Bool-cases, Option-cases, Sum-cases, length, ltb, map,
}
use psycho_space.GameVanyagotchi.Numbers.{Floats}
use psycho_space.GameVanyagotchi.Catalogue.{
  Catalogue, Event, Snapshot, PetError, action_by_key, unknown_action, unknown_stat,
}
use psycho_space.GameVanyagotchi.Events.{advance, apply, all_known, kept, fold, genesis}

abbrev pub max_batch : ℕ
max_batch = 8

-- Why a batch is refused: its length, an event that cannot be applied, or a rule about the world as it
-- is, of which `E` says which.
pub data Refusal (E : Type 0) : Type 0 where
  batch_too_long : Refusal E
  cannot : PetError → Refusal E
  world : E → Refusal E

module _ (F : Floats) (c : Catalogue F) where
  -- The catalogue checks of `Do`, before any storage is touched.
  unfoldable pub check_verb : ℕ → Option PetError
  check_verb verb = elim (action_by_key F c verb) [
    | none ↦ some unknown_action
    | some a ↦ if all_known F c a.effects then none else some unknown_stat
  ]

  unfoldable pub check_verbs : List ℕ → Option PetError
  unfolding check_verb
  check_verbs [] = none
  check_verbs (v ∷ vs) = elim (check_verb v) [ none ↦ check_verbs vs | some err ↦ some err ]

  -- The loop of `Do`. The gates of the world, about the flag of the search and the verb, are `gate`.
  unfoldable pub run_verbs :
      {E : Type 0}
      → (Bool → ℕ → E ⊎ Bool)
      → Bool
      → Snapshot F
      → F.Instant
      → List ℕ
      → Refusal E ⊎ Snapshot F
  run_verbs gate searched s at [] = inr s
  run_verbs gate searched s at (v ∷ vs) = elim (apply F c s (record { verb = v; at = at })) [
    | inl err ↦ inl (cannot err)
    | inr next ↦ elim (gate searched v) [
      | inl why ↦ inl (world why)
      | inr searched' ↦ run_verbs gate searched' next at vs
    ]
  ]

  -- `Do`, up to what it writes: the snapshot read for the batch and the snapshot after it.
  unfoldable pub do_batch :
      {E : Type 0}
      → (Bool → ℕ → E ⊎ Bool)
      → Snapshot F
      → F.Instant
      → List ℕ
      → Refusal E ⊎ Snapshot F
  unfolding check_verbs run_verbs
  do_batch gate s at verbs =
      if ltb max_batch (length verbs) then inl batch_too_long else elim (check_verbs verbs) [
        | some err ↦ inl (cannot err)
        | none ↦ run_verbs gate false s at verbs
      ]

  -- `Replay`, of a pet created at `born`.
  unfoldable pub replay : F.Instant → List (Event F) → F.Instant → Snapshot F
  unfolding genesis fold advance
  replay born events to = advance F c (fold F c (genesis F c born) events) to

  abbrev pub events_at : F.Instant → List ℕ → List (Event F)
  events_at at verbs = map (λ v. record { verb = v; at = at }) verbs

  -- A batch that is taken is one whose every verb could be applied, in order.
  abbrev pub AllApply : Snapshot F → List (Event F) → Type 0
  AllApply s [] = Unit {0}
  AllApply s (e ∷ es) =
      (apply F c s e ≡ inr (kept F c s (apply F c s e))) × AllApply (kept F c s (apply F c s e)) es

  abbrev pub OnTaken : {E : Type 0} → (Snapshot F → Type 0) → Refusal E ⊎ Snapshot F → Type 0
  OnTaken P (inl why) = Unit {0}
  OnTaken P (inr after) = P after

  OnTaken-imp :
      {E : Type 0} (P Q : Snapshot F → Type 0) (r : Refusal E ⊎ Snapshot F)
      → ((after : Snapshot F) → P after → Q after)
      → OnTaken P r
      → OnTaken Q r
  OnTaken-imp P Q (inl why) f h = tt
  OnTaken-imp P Q (inr after) f h = f after h

  abbrev pub IsReplayed : Snapshot F → List (Event F) → Snapshot F → Type 0
  IsReplayed s es after = (after ≡ fold F c s es) × AllApply s es

  run_verbs-how :
      {E : Type 0} (gate : Bool → ℕ → E ⊎ Bool) (searched : Bool) (s : Snapshot F) (at : F.Instant)
      (v : ℕ) (vs : List ℕ)
      → ((why : Refusal E) × (run_verbs gate searched s at (v ∷ vs) ≡ inl why))
        ⊎ ((next : Snapshot F) × (found : Bool) × (apply F c s (record { verb = v; at = at })
              ≡ inr next)
            × (run_verbs gate searched s at (v ∷ vs) ≡ run_verbs gate found next at vs))
  unfolding run_verbs
  run_verbs-how gate searched s at v vs =
      elim (Sum-cases (apply F c s (record { verb = v; at = at }))) [
        | inl (err, e) ↦ inl (cannot err, rw (e, run_verbs) refl)
        | inr (next, e) ↦ elim (Sum-cases (gate searched v)) [
          | inl (why, b) ↦ inl (world why, rw (e, b, run_verbs) refl)
          | inr (found, b) ↦ inr (next, found, e, rw (e, b, run_verbs) refl)
        ]
      ]

  IsReplayed-add :
      (s next after : Snapshot F) (e : Event F) (es : List (Event F))
      → apply F c s e ≡ inr next
      → IsReplayed next es after
      → IsReplayed s (e ∷ es) after
  unfolding fold
  IsReplayed-add s next after e es b h =
      let on : next ≡ kept F c s (apply F c s e) = sym (ap (kept F c s) b) in
      (h.0 ∙ ap (λ x. fold F c x es) on, (b ∙ ap inr on, subst (λ x. AllApply x es) on h.1))

  run_verbs-IsReplayed :
      {E : Type 0} (gate : Bool → ℕ → E ⊎ Bool) (searched : Bool) (s : Snapshot F) (at : F.Instant)
      (verbs : List ℕ)
      → OnTaken (IsReplayed s (events_at at verbs)) (run_verbs gate searched s at verbs)
  unfolding run_verbs fold
  run_verbs-IsReplayed gate searched s at [] = (refl, tt)
  run_verbs-IsReplayed gate searched s at (v ∷ vs) = elim (run_verbs-how gate searched s at v vs) [
    | inl (why, e) ↦ subst (OnTaken (IsReplayed s (events_at at (v ∷ vs)))) (sym e) tt
    | inr (next, found, b, e) ↦ subst (OnTaken (IsReplayed s (events_at at (v ∷ vs)))) (sym e) (
        OnTaken-imp (IsReplayed next (events_at at vs)) (IsReplayed s (events_at at (v ∷ vs)))
          (run_verbs gate found next at vs)
          (λ after h.
            IsReplayed-add s next after (record { verb = v; at = at }) (events_at at vs) b h)
          (run_verbs-IsReplayed gate found next at vs))
  ]

  -- A batch that is not refused leaves the snapshot that a fold over its verbs makes of the one read for
  -- it, whatever the gates of the world; it has eight verbs at most, and every one could be applied.
  pub do_batch_lem :
      {E : Type 0} (gate : Bool → ℕ → E ⊎ Bool) (s : Snapshot F) (at : F.Instant) (verbs : List ℕ)
      → OnTaken
          (λ after. IsReplayed s (events_at at verbs) after × (length verbs ≤ max_batch))
          (do_batch gate s at verbs)
  unfolding do_batch
  do_batch_lem gate s at verbs = elim (Bool-cases (ltb max_batch (length verbs))) [
    | inl e ↦ rw (e, do_batch) tt
    | inr e ↦ elim (Option-cases (check_verbs verbs)) [
      | inr (err, b) ↦ rw (e, b, do_batch) tt
      | inl b ↦
          rw (e, b, do_batch)
            (OnTaken-imp (IsReplayed s (events_at at verbs))
              (λ after. IsReplayed s (events_at at verbs) after × (length verbs ≤ max_batch))
              (run_verbs gate false s at verbs) (λ after h. (h, ground (arith, e)))
              (run_verbs-IsReplayed gate false s at verbs))
    ]
  ]
