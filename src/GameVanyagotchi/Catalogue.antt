-- ===== src/GameVanyagotchi/Catalogue.antt =====
-- internal/gamevanyagotchi/content.go, decay.go, event.go: the types, and the catalogue's lookups.
use psycho_space.Prelude.{ℕ, Bool, List, [], ◌∷◌, Option, none, some, ◌==◌, if◌then◌else◌}
use psycho_space.Prelude.Dict.{Dict}
use psycho_space.GameVanyagotchi.Numbers.{Floats}

pub data PetError : Type 0 where
  unknown_action unknown_stat pet_dead not_yet : PetError

module _ (F : Floats) where
  pub record Penalty : Type 0 where
    pub when_key : ℕ
    pub threshold : F.Num
    pub above : Bool
    pub rate_per_hour : F.Num

  pub record Stat : Type 0 where
    pub key : ℕ
    pub min : F.Num
    pub max : F.Num
    pub start : F.Num
    pub decay_per_hour : F.Num
    pub good_high : Bool
    pub warn_at : F.Num
    pub counter : Bool
    pub fatal : Bool
    pub penalties : List Penalty

  pub record StatDelta : Type 0 where
    pub stat_key : ℕ
    pub delta : F.Num

  -- The stat that an action needs is none where the source has the empty text.
  pub record Action : Type 0 where
    pub key : ℕ
    pub effects : List StatDelta
    pub revives_fatal : Bool
    pub starts_over : Bool
    pub needs_stat : Option ℕ
    pub needs_at_least : F.Num

  pub record Catalogue : Type 0 where
    pub stats : List Stat
    pub actions : List Action

  pub record StatRow : Type 0 where
    pub key : ℕ
    pub value : F.Num
    pub as_of : F.Instant

  pub record Event : Type 0 where
    pub verb : ℕ
    pub at : F.Instant

  pub record Snapshot : Type 0 where
    pub rows : Dict StatRow
    pub died_at : Option F.Instant

  unfoldable pub stat_in : List Stat → ℕ → Option Stat
  stat_in [] key = none
  stat_in (s ∷ ss) key = if s.key == key then some s else stat_in ss key

  -- `StatByKey`
  abbrev pub stat_by_key : Catalogue → ℕ → Option Stat
  stat_by_key c key = stat_in c.stats key

  unfoldable pub action_in : List Action → ℕ → Option Action
  action_in [] key = none
  action_in (a ∷ as_) key = if a.key == key then some a else action_in as_ key

  -- `ActionByKey`
  abbrev pub action_by_key : Catalogue → ℕ → Option Action
  action_by_key c key = action_in c.actions key
