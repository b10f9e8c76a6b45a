-- ===== src/GameVanyagotchi/Events.antt =====
-- internal/gamevanyagotchi/event.go: the one function that interprets an event, and its fold.
pub mod Passing
pub mod Stamps
pub mod Deaths
pub mod Replay
pub mod Storage
use psycho_space.Prelude.{
  ℕ, ◌⊎◌, inl, inr, Bool, true, false, ◌&&◌, ◌||◌, not, List, [], ◌∷◌, ◌++◌, Option, none, some,
  if◌then◌else◌,
}
use psycho_space.Prelude.Dict.{Dict, get, put}
use psycho_space.GameVanyagotchi.Numbers.{Floats}
use psycho_space.GameVanyagotchi.Catalogue.{
  Stat, StatRow, StatDelta, Action, Catalogue, Event, Snapshot, PetError, unknown_action,
  unknown_stat, pet_dead, not_yet, stat_by_key, action_by_key,
}
use psycho_space.GameVanyagotchi.Decay.{clamp, at_with, dead_at_with, dead}

abbrev pub is_known {ℓ} : {A : Type ℓ} → Option A → Bool
is_known none = false
is_known (some a) = true

module _ (F : Floats) where
  unfoldable pub start_rows : F.Instant → List (Stat F) → Dict (StatRow F)
  start_rows at [] = []
  start_rows at (def ∷ defs) =
      (def.key, record { key = def.key; value = def.start; as_of = at }) ∷ start_rows at defs

  unfoldable pub defined_rows : List (Stat F) → Dict (StatRow F) → List (StatRow F)
  defined_rows [] rows = []
  defined_rows (def ∷ defs) rows = elim (get def.key rows) [
    | none ↦ defined_rows defs rows
    | some row ↦ row ∷ defined_rows defs rows
  ]

module _ (F : Floats) (c : Catalogue F) where
  -- `Alive`
  abbrev pub is_alive : Snapshot F → Bool
  is_alive s = not (is_known s.died_at)

  -- One row of `advance`.
  unfoldable pub advance_row : F.Instant → Dict (StatRow F) → ℕ → StatRow F → StatRow F
  unfolding at_with
  advance_row to drivers key row = elim (stat_by_key F c key) [
    | none ↦ row
    | some def ↦ record {
      key = key;
      value = at_with F c def row.value row.as_of to drivers;
      as_of = to;
    }
  ]

  unfoldable pub advance_rows : F.Instant → Dict (StatRow F) → Dict (StatRow F) → Dict (StatRow F)
  unfolding advance_row
  advance_rows to drivers [] = []
  advance_rows to drivers ((k, row) ∷ m) =
      (k, advance_row to drivers k row) ∷ advance_rows to drivers m

  abbrev pub sooner : F.Instant → Option F.Instant → Option F.Instant
  sooner at none = some at
  sooner at (some t) = if F.before at t then some at else some t

  -- The first death on the way, of one more row.
  unfoldable pub death_of :
      F.Instant → Dict (StatRow F) → Option F.Instant → ℕ → StatRow F → Option F.Instant
  unfolding dead dead_at_with
  death_of to drivers first key row = elim (stat_by_key F c key) [
    | none ↦ first
    | some def ↦
        if not (dead F c def row.value row.as_of to drivers)
        then first
        else elim (dead_at_with F c def row.value row.as_of drivers) [
          | none ↦ first
          | some at ↦ sooner at first
        ]
  ]

  unfoldable pub death :
      F.Instant → Dict (StatRow F) → Option F.Instant → Dict (StatRow F) → Option F.Instant
  unfolding death_of
  death to drivers first [] = first
  death to drivers first ((k, row) ∷ m) = death to drivers (death_of to drivers first k row) m

  unfoldable pub died : Snapshot F → F.Instant → Option F.Instant
  unfolding death
  died s to = elim s.died_at [ some at ↦ some at | none ↦ death to s.rows none s.rows ]

  -- `advance`
  unfoldable pub advance : Snapshot F → F.Instant → Snapshot F
  unfolding advance_rows died
  advance s to = record { rows = advance_rows to s.rows s.rows; died_at = died s to }

  unfoldable pub all_known : List (StatDelta F) → Bool
  all_known [] = true
  all_known (e ∷ es) = is_known (stat_by_key F c e.stat_key) && all_known es

  -- The catalogue's own precondition.
  unfoldable pub is_ready : Action F → Snapshot F → Bool
  is_ready a s = elim a.needs_stat [
    | none ↦ true
    | some key ↦ elim (get key s.rows) [
      | none ↦ false
      | some row ↦ not (F.lt row.value a.needs_at_least)
    ]
  ]

  unfoldable pub reset_row : F.Instant → ℕ → StatRow F → StatRow F
  reset_row at key row = elim (stat_by_key F c key) [
    | none ↦ row
    | some def ↦
        if def.counter then row else record { key = key; value = clamp F def def.start; as_of = at }
  ]

  unfoldable pub reset_rows : F.Instant → Dict (StatRow F) → Dict (StatRow F)
  unfolding reset_row
  reset_rows at [] = []
  reset_rows at ((k, row) ∷ m) = (k, reset_row at k row) ∷ reset_rows at m

  unfoldable pub moved_rows : F.Instant → List (StatDelta F) → Dict (StatRow F) → Dict (StatRow F)
  moved_rows at [] rows = rows
  moved_rows at (e ∷ es) rows = elim (get e.stat_key rows) [
    | none ↦ moved_rows at es rows
    | some row ↦ elim (stat_by_key F c e.stat_key) [
      | none ↦ moved_rows at es rows
      | some def ↦ moved_rows at es (
          put e.stat_key
            (record { key = e.stat_key; value = clamp F def (F.add row.value e.delta); as_of = at })
            rows)
    ]
  ]

  -- `alive`
  unfoldable pub all_above : Dict (StatRow F) → Bool
  all_above [] = true
  all_above ((k, row) ∷ m) = elim (stat_by_key F c k) [
    | none ↦ all_above m
    | some def ↦ not (def.fatal && F.leq row.value def.min) && all_above m
  ]

  -- What the verb does to the advanced snapshot.
  unfoldable pub perform : Action F → F.Instant → Snapshot F → Snapshot F
  unfolding reset_rows moved_rows all_above
  perform a at s =
      if a.starts_over
      then record { rows = reset_rows at s.rows; died_at = none }
      else let rows : Dict (StatRow F) = moved_rows at a.effects s.rows in
        record {
          rows = rows;
          died_at =
              if not (is_alive s) && a.revives_fatal && all_above rows then none else s.died_at;
        }

  unfoldable pub apply_action : Action F → Snapshot F → F.Instant → PetError ⊎ Snapshot F
  unfolding all_known advance is_ready perform
  apply_action a s at =
      if not (all_known a.effects)
      then inl unknown_stat
      else if not (is_alive (advance s at)) && not a.revives_fatal
      then inl pet_dead
      else if not (is_ready a (advance s at))
      then inl not_yet
      else inr (perform a at (advance s at))

  -- `apply`; the source returns the snapshot it was given beside an error.
  unfoldable pub apply : Snapshot F → Event F → PetError ⊎ Snapshot F
  unfolding apply_action
  apply s e = elim (action_by_key F c e.verb) [
    | none ↦ inl unknown_action
    | some a ↦ apply_action a s e.at
  ]

  abbrev pub kept : Snapshot F → PetError ⊎ Snapshot F → Snapshot F
  kept s (inl err) = s
  kept s (inr next) = next

  -- `fold`
  unfoldable pub fold : Snapshot F → List (Event F) → Snapshot F
  unfolding apply
  fold s [] = s
  fold s (e ∷ es) = fold (kept s (apply s e)) es

  -- `genesis`; the keys of the catalogue are different.
  unfoldable pub genesis : F.Instant → Snapshot F
  unfolding start_rows
  genesis at = record { rows = start_rows F at c.stats; died_at = none }

  unfoldable pub other_rows : Dict (StatRow F) → List (StatRow F)
  other_rows [] = []
  other_rows ((k, row) ∷ m) =
      let rest : List (StatRow F) = other_rows m in
      if is_known (stat_by_key F c k) then rest else row ∷ rest

  -- `rowsAt`
  unfoldable pub rows_at : Snapshot F → List (StatRow F)
  unfolding defined_rows other_rows
  rows_at s = defined_rows F c.stats s.rows ++ other_rows s.rows
