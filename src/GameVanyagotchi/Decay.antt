-- ===== src/GameVanyagotchi/Decay.antt =====
-- internal/gamevanyagotchi/decay.go: what a stat is worth at an instant, and when it kills.
pub mod Bounds
use psycho_space.Prelude.{
  ℕ, Bool, true, false, ◌&&◌, ◌||◌, not, List, [], ◌∷◌, Option, none, some, if◌then◌else◌, order_by,
}
use psycho_space.Prelude.Dict.{Dict, get}
use psycho_space.GameVanyagotchi.Numbers.{Floats}
use psycho_space.GameVanyagotchi.Catalogue.{Penalty, Stat, StatRow, Catalogue, stat_by_key}

-- An onset of a penalty: since when, and how much more is drained in an hour.
pub record Step (F : Floats) : Type 0 where
  pub since : F.Instant
  pub rate : F.Num

module _ (F : Floats) where
  -- `math.Min` and `math.Max` of finite numbers.
  abbrev pub math_min : F.Num → F.Num → F.Num
  math_min a b = if F.leq a b then a else b

  abbrev pub math_max : F.Num → F.Num → F.Num
  math_max a b = if F.leq a b then b else a

  -- `Clamp`
  unfoldable pub clamp : Stat F → F.Num → F.Num
  clamp s v = if not (F.is_finite v) then s.start else math_min s.max (math_max s.min v)

  -- `Penalty.holds`
  unfoldable pub holds : Penalty F → F.Num → Bool
  holds p v = if p.above then F.leq p.threshold v else F.leq v p.threshold

  abbrev pub is_zero : F.Num → Bool
  is_zero x = F.leq x F.nought && F.leq F.nought x

  -- `crossesAt`
  unfoldable pub crosses_at : Stat F → F.Num → F.Instant → F.Num → Option F.Instant
  unfolding clamp
  crosses_at s value as_of threshold =
      if is_zero s.decay_per_hour
      then none
      else F.add_hours as_of (F.div (F.sub (clamp s value) threshold) s.decay_per_hour)

  -- The drain of the penalties that have set in.
  unfoldable pub drop_all : F.Num → F.Instant → List (Step F) → F.Num
  drop_all drop now [] = drop
  drop_all drop now (st ∷ sts) =
      drop_all
        (if F.before st.since now
          then F.add drop (F.mul st.rate (F.hours_between st.since now))
          else drop)
        now sts

  unfoldable pub value_at : Stat F → F.Num → F.Instant → F.Instant → List (Step F) → F.Num
  unfolding clamp drop_all
  value_at s value as_of now steps =
      if not (F.before as_of now)
      then clamp s value
      else clamp s
          (F.sub value (drop_all (F.mul s.decay_per_hour (F.hours_between as_of now)) now steps))

  -- `At`: no driver, so no penalty sets in.
  abbrev pub at_ : Stat F → F.Num → F.Instant → F.Instant → F.Num
  at_ s value as_of now = value_at s value as_of now []

  module _ (c : Catalogue F) where
    -- `onset`, of a driver that is defined.
    unfoldable pub onset_of : Penalty F → F.Instant → StatRow F → Stat F → Option F.Instant
    unfolding holds value_at crosses_at
    onset_of p as_of row def =
        if holds p (at_ def row.value row.as_of as_of)
        then some as_of
        else if p.above && F.leq F.nought def.decay_per_hour
        then none
        else if not p.above && F.leq def.decay_per_hour F.nought
        then none
        else elim (crosses_at def row.value row.as_of p.threshold) [
          | none ↦ none
          | some t ↦ if F.before t as_of then none else some t
        ]

    -- `onset`
    unfoldable pub onset : Penalty F → F.Instant → Dict (StatRow F) → Option F.Instant
    unfolding onset_of
    onset p as_of drivers = elim (get p.when_key drivers) [
      | none ↦ none
      | some row ↦ elim (stat_by_key F c p.when_key) [
        | none ↦ none
        | some def ↦ onset_of p as_of row def
      ]
    ]

    unfoldable pub steps : List (Penalty F) → F.Instant → Dict (StatRow F) → List (Step F)
    unfolding onset
    steps [] as_of drivers = []
    steps (p ∷ ps) as_of drivers = elim (onset p as_of drivers) [
      | none ↦ steps ps as_of drivers
      | some t ↦ record { since = t; rate = p.rate_per_hour } ∷ steps ps as_of drivers
    ]

    -- `AtWith`
    unfoldable pub at_with : Stat F → F.Num → F.Instant → F.Instant → Dict (StatRow F) → F.Num
    unfolding value_at steps
    at_with s value as_of now drivers = value_at s value as_of now (steps s.penalties as_of drivers)

    unfoldable pub add_rates : F.Num → F.Instant → List (Step F) → F.Num
    add_rates rate now [] = rate
    add_rates rate now (st ∷ sts) =
        add_rates (if not (F.before now st.since) then F.add rate st.rate else rate) now sts

    -- `RateAt`
    unfoldable pub rate_at : Stat F → F.Instant → F.Instant → Dict (StatRow F) → F.Num
    unfolding steps add_rates
    rate_at s as_of now drivers = add_rates s.decay_per_hour now (steps s.penalties as_of drivers)

    -- The walk over the segments of constant rate.
    unfoldable pub walk : F.Instant → F.Num → F.Num → List (Step F) → Option F.Instant
    walk cur rate left [] = if F.leq rate F.nought then none else F.add_hours cur (F.div left rate)
    walk cur rate left (st ∷ sts) = elim (F.before cur st.since) [
      | false ↦ walk cur (F.add rate st.rate) left sts
      | true ↦ elim (F.lt F.nought rate) [
        | false ↦ walk st.since (F.add rate st.rate) left sts
        | true ↦ elim (F.leq (F.div left rate) (F.hours_between cur st.since)) [
          | true ↦ F.add_hours cur (F.div left rate)
          | false ↦
              walk st.since (F.add rate st.rate)
                (F.sub left (F.mul rate (F.hours_between cur st.since))) sts
        ]
      ]
    ]

    abbrev pub later_step : Step F → Step F → Bool
    later_step x y = F.before y.since x.since

    -- `DeadAtWith`
    unfoldable pub dead_at_with : Stat F → F.Num → F.Instant → Dict (StatRow F) → Option F.Instant
    unfolding clamp steps walk
    dead_at_with s value as_of drivers =
        if not s.fatal
        then none
        else if F.leq (clamp s value) s.min
        then some as_of
        else walk as_of s.decay_per_hour (F.sub (clamp s value) s.min)
            (order_by later_step (steps s.penalties as_of drivers))

    -- `Dead`
    unfoldable pub dead : Stat F → F.Num → F.Instant → F.Instant → Dict (StatRow F) → Bool
    unfolding at_with
    dead s value as_of now drivers = s.fatal && F.leq (at_with s value as_of now drivers) s.min

  -- `Troubled`
  unfoldable pub troubled : Stat F → F.Num → Bool
  troubled s v =
      if s.counter then false else if s.good_high then F.lt v s.warn_at else F.lt s.warn_at v
