-- ===== src/GameVanyagotchi/Examples.antt =====
-- The theorems of the pet at whole numbers, with hours as instants.
use psycho_space.Prelude.{
  List, ℕ, ◌≡◌, ◌⊎◌, ◌≤◌, inr, refl, Bool, true, false, [], ◌∷◌, none, some, length, Every,
}
use psycho_space.Prelude.Dict.{Dict, get}
use psycho_space.GameVanyagotchi.Numbers.{whole, whole-Order}
use psycho_space.GameVanyagotchi.Catalogue.{
  Stat, StatRow, Action, Catalogue, Event, Snapshot, stat_by_key, action_in,
}
use psycho_space.GameVanyagotchi.Decay.Bounds.{IsSound}
use psycho_space.GameVanyagotchi.Events.{apply, fold, rows_at}
use psycho_space.GameVanyagotchi.Events.Passing.{OnNext}
use psycho_space.GameVanyagotchi.Events.Stamps.{IsMade, apply-IsMade}
use psycho_space.GameVanyagotchi.Events.Deaths.{IsFate, apply-IsFate, fold-dead}
use psycho_space.GameVanyagotchi.Events.Replay.{
  OnTaken, IsReplayed, events_at, do_batch, do_batch_lem, max_batch,
}
use psycho_space.GameVanyagotchi.Events.Storage.{stats_by_key, stats_by_key-rows_at}

-- Beer, which drains, and health, which drains faster without beer and kills at nought.
abbrev beer : Stat whole
beer = record {
  key = 1;
  min = 0;
  max = 100;
  start = 60;
  decay_per_hour = 4;
  good_high = true;
  warn_at = 20;
  counter = false;
  fatal = false;
  penalties = [];
}

abbrev health : Stat whole
health = record {
  key = 2;
  min = 0;
  max = 100;
  start = 100;
  decay_per_hour = 1;
  good_high = true;
  warn_at = 30;
  counter = false;
  fatal = true;
  penalties = record { when_key = 1; threshold = 10; above = false; rate_per_hour = 5 } ∷ [];
}

abbrev drink : Action whole
drink = record {
  key = 1;
  effects = record { stat_key = 1; delta = 30 } ∷ [];
  revives_fatal = false;
  starts_over = false;
  needs_stat = none;
  needs_at_least = 0;
}

abbrev yard : Catalogue whole
yard = record { stats = beer ∷ health ∷ []; actions = drink ∷ [] }

yard-IsSound : Every (IsSound whole) yard.stats
yard-IsSound = ((refl, refl, refl, (refl, refl)), ((refl, refl, refl, (refl, refl)), tt))

abbrev rows : Dict (StatRow whole)
rows =
    (1, record { key = 1; value = 60; as_of = 0 })
    ∷ (2, record { key = 2; value = 90; as_of = 0 })
    ∷ []

abbrev pet : Snapshot whole
pet = record { rows = rows; died_at = none }

abbrev corpse : Snapshot whole
corpse = record { rows = rows; died_at = some 3 }

abbrev press : Event whole
press = record { verb = 1; at = 5 }

apply-IsMade_example :
    OnNext whole yard
      (λ next.
        IsMade whole whole-Order yard yard-IsSound 5
          (stat_by_key whole yard 1)
          (get 1 pet.rows)
          (get 1 next.rows))
      (apply whole yard pet press)
apply-IsMade_example = apply-IsMade whole whole-Order yard yard-IsSound pet press 1

apply-IsFate_example : OnNext whole yard (IsFate whole yard pet press) (apply whole yard pet press)
apply-IsFate_example = apply-IsFate whole yard pet press

fold-dead_example : fold whole yard corpse (press ∷ press ∷ []) ≡ corpse
unfolding action_in
fold-dead_example = fold-dead whole yard corpse 3 (press ∷ press ∷ []) refl (refl, (refl, tt))

abbrev open_gate : Bool → ℕ → Bool ⊎ Bool
open_gate searched verb = inr searched

abbrev two_drinks : List ℕ
two_drinks = 1 ∷ 1 ∷ []

do_batch_lem_example :
    OnTaken whole yard
      (λ after.
        IsReplayed whole yard pet (events_at whole yard 5 two_drinks) after
        × (length two_drinks ≤ max_batch))
      (do_batch whole yard open_gate pet 5 two_drinks)
do_batch_lem_example = do_batch_lem whole yard open_gate pet 5 two_drinks

stats_by_key-rows_at_example : get 2 (stats_by_key whole (rows_at whole yard pet)) ≡ get 2 pet.rows
unfolding get
stats_by_key-rows_at_example =
    stats_by_key-rows_at whole yard pet 2 (refl, (refl, tt)) (refl, (refl, tt))
