-- ===== src/GameVanyagotchi/Events/Passing.antt =====
-- internal/gamevanyagotchi/event.go: the guards that an event has passed when apply leaves a snapshot.
use psycho_space.Prelude.{
  ◌≡◌, ◌⊎◌, inl, inr, true, ◌&&◌, ◌||◌, not, some, arith, Bool-cases, Option-cases,
}
use psycho_space.GameVanyagotchi.Numbers.{Floats}
use psycho_space.GameVanyagotchi.Catalogue.{
  Action, Catalogue, Event, Snapshot, PetError, action_by_key,
}
use psycho_space.GameVanyagotchi.Events.{
  advance, perform, apply, apply_action, all_known, is_alive, is_ready,
}

module _ (F : Floats) (c : Catalogue F) where
  -- What is so of every snapshot that an event leaves.
  abbrev pub OnNext : (Snapshot F → Type 0) → PetError ⊎ Snapshot F → Type 0
  OnNext P (inl err) = Unit {0}
  OnNext P (inr next) = P next

  -- The action's stats are all defined, the pet is alive or the action revives, and he is ready.
  abbrev pub Passes : Action F → Snapshot F → F.Instant → Type 0
  Passes a s at =
      (all_known F c a.effects ≡ true)
      × (is_alive F c (advance F c s at) || a.revives_fatal ≡ true)
      × (is_ready F c a (advance F c s at) ≡ true)

  apply_action-OnNext :
      (P : Snapshot F → Type 0) (a : Action F) (s : Snapshot F) (at : F.Instant)
      → (Passes a s at → P (perform F c a at (advance F c s at)))
      → OnNext P (apply_action F c a s at)
  unfolding apply_action
  apply_action-OnNext P a s at f = elim (Bool-cases (all_known F c a.effects)) [
    | inr e ↦ rw (e, apply_action) tt
    | inl e ↦ elim (Bool-cases (not (is_alive F c (advance F c s at)) && not a.revives_fatal)) [
      | inl b ↦ rw (e, b, apply_action) tt
      | inr b ↦ elim (Bool-cases (is_ready F c a (advance F c s at))) [
        | inr d ↦ rw (e, b, d, apply_action) tt
        | inl d ↦ rw (e, b, d, apply_action) (f (e, ground (arith, b), d))
      ]
    ]
  ]

  pub apply-OnNext :
      (P : Snapshot F → Type 0) (s : Snapshot F) (e : Event F)
      → ((a : Action F)
          → action_by_key F c e.verb ≡ some a
          → Passes a s e.at
          → P (perform F c a e.at (advance F c s e.at)))
      → OnNext P (apply F c s e)
  unfolding apply
  apply-OnNext P s e f = elim (Option-cases (action_by_key F c e.verb)) [
    | inl b ↦ rw (b, apply) tt
    | inr (a, b) ↦ rw (b, apply) (apply_action-OnNext P a s e.at (f a b))
  ]
