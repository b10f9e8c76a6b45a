-- ===== src/GameVanyagotchi/Decay/Bounds.antt =====
-- internal/gamevanyagotchi/decay.go: a stat keeps within its bounds.
use psycho_space.Prelude.{◌≡◌, true, List, arith, Bool-cases, inl, inr}
use psycho_space.GameVanyagotchi.Numbers.{Floats, Order}
use psycho_space.GameVanyagotchi.Catalogue.{Stat}
use psycho_space.GameVanyagotchi.Decay.{clamp, drop_all, value_at, Step}

module _ (F : Floats) where
  abbrev pub InRange : Stat F → F.Num → Type 0
  InRange s v = (F.leq s.min v ≡ true) × (F.leq v s.max ≡ true)

  -- A stat of the catalogue has finite bounds, in order, and starts within them.
  abbrev pub IsSound : Stat F → Type 0
  IsSound s =
      (F.is_finite s.min ≡ true)
      × (F.is_finite s.max ≡ true)
      × (F.leq s.min s.max ≡ true)
      × InRange s s.start

  module _ (order : Order F) where
    pub clamp-InRange : (s : Stat F) (v : F.Num) → IsSound s → InRange s (clamp F s v)
    unfolding clamp
    clamp-InRange s v h = ground (
      arith,
      h,
      order.leq_refl s.min h.0,
      order.leq_refl s.max h.1,
      order.leq_total s.min v h.0,
      order.leq_total s.max v h.1,
      order.leq_total s.max s.min h.1 h.0,
    )

    pub value_at-InRange :
        (s : Stat F) (v : F.Num) (as_of now : F.Instant) (steps : List (Step F))
        → IsSound s
        → InRange s (value_at F s v as_of now steps)
    unfolding value_at
    value_at-InRange s v as_of now steps h = elim (Bool-cases (F.before as_of now)) [
      | inl e ↦
          rw (e, value_at)
            (clamp-InRange s
              (F.sub v (drop_all F (F.mul s.decay_per_hour (F.hours_between as_of now)) now steps))
              h)
      | inr e ↦ rw (e, value_at) (clamp-InRange s v h)
    ]
