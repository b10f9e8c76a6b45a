-- ===== src/GameVanyadum/History.antt =====
-- internal/gamevanyadum/history.go: the ring of recent frames.
use psycho_space.Prelude.{
  ℕ, ℤ, pos, negsuc, ◌*◌, ◌/◌, zero, suc, ◌+◌, ◌-◌, ◌%◌, Bool, true, false, ◌&&◌, not, List, [],
  ◌∷◌, none, some, map, ltb, ◌==◌, if◌then◌else◌, length,
}
use psycho_space.Prelude.Dict.{Dict, get, del}

pub record Spot (N : Type 0) : Type 0 where
  pub x : N
  pub y : N
  pub sector : ℕ
  pub alive : Bool

pub record Frame (N : Type 0) : Type 0 where
  pub tick : ℕ
  pub at : ℕ
  pub spots : Dict (Spot N)

pub record History (N : Type 0) : Type 0 where
  pub frames : List (Frame N)
  pub next : ℕ
  pub count : ℕ

-- In nanoseconds.
abbrev pub sim_step : ℕ
sim_step = 50000000

abbrev pub interpolation_delay : ℕ
interpolation_delay = 120000000

abbrev pub rewind_max : ℕ
rewind_max = 500000000

abbrev pub history_window : ℕ
history_window = rewind_max + 2 * sim_step

-- `historyCapacity`
abbrev pub history_capacity : ℕ
history_capacity = if ltb (history_window / sim_step) 2 then 2 else history_window / sim_step

-- How far `RewindTo` goes back.
unfoldable pub rewind_of : ℤ → ℕ
rewind_of (negsuc n) = interpolation_delay
rewind_of (pos rtt) =
    if ltb rewind_max (rtt + interpolation_delay) then rewind_max else rtt + interpolation_delay

module _ (N : Type 0) where
  -- A frame that the ring has not reached.
  abbrev pub blank : Frame N
  blank = record { tick = 0; at = 0; spots = [] }

  unfoldable pub nth : ℕ → List (Frame N) → Frame N
  nth i [] = blank
  nth zero (f ∷ fs) = f
  nth (suc i) (f ∷ fs) = nth i fs

  unfoldable pub set_nth : ℕ → Frame N → List (Frame N) → List (Frame N)
  set_nth i f [] = []
  set_nth zero f (g ∷ fs) = f ∷ fs
  set_nth (suc i) f (g ∷ fs) = g ∷ set_nth i f fs

  unfoldable pub blanks : ℕ → List (Frame N)
  blanks zero = []
  blanks (suc n) = blank ∷ blanks n

  -- `newHistory`, of a capacity.
  unfoldable pub new_history : ℕ → History N
  unfolding blanks
  new_history capacity = record { frames = blanks capacity; next = 0; count = 0 }

  -- `record`
  unfoldable pub record_frame : Frame N → History N → History N
  unfolding set_nth
  record_frame f h = record {
    frames = set_nth h.next f h.frames;
    next = (h.next + 1) % length h.frames;
    count = if ltb h.count (length h.frames) then h.count + 1 else h.count;
  }

  abbrev pub without : ℕ → Frame N → Frame N
  without r f = record f { spots = del r f.spots }

  -- `forget`
  unfoldable pub forget : ℕ → History N → History N
  forget r h = record h { frames = map (without r) h.frames }

  -- The frame at a place in ring order, the oldest first.
  unfoldable pub frame_at : History N → ℕ → Frame N
  unfolding nth
  frame_at h i =
      nth (((if h.count == length h.frames then h.next else 0) + i) % length h.frames) h.frames

  module _ (mix : N → N → ℕ → ℕ → N) where
    -- One spot, `t` of `span` nanoseconds after the earlier frame.
    unfoldable pub mix_spot : ℕ → ℕ → Dict (Spot N) → ℕ → Spot N → Spot N
    mix_spot t span earlier id bs = elim (get id earlier) [
      | none ↦ bs
      | some as_ ↦ record {
        x = mix as_.x bs.x t span;
        y = mix as_.y bs.y t span;
        sector = bs.sector;
        alive = as_.alive && bs.alive;
      }
    ]

    unfoldable pub mix_spots : ℕ → ℕ → Dict (Spot N) → Dict (Spot N) → Dict (Spot N)
    unfolding mix_spot
    mix_spots t span earlier [] = []
    mix_spots t span earlier ((id, bs) ∷ m) =
        (id, mix_spot t span earlier id bs) ∷ mix_spots t span earlier m

    unfoldable pub between : ℕ → Frame N → Frame N → Dict (Spot N)
    unfolding mix_spots
    between instant a b =
        if not (ltb a.at b.at)
        then b.spots
        else mix_spots (instant - a.at) (b.at - a.at) a.spots b.spots

    -- The loop of `at`, over the frames from the `i`-th on, of which `n` are left.
    unfoldable pub bracket : ℕ → (ℕ → Frame N) → ℕ → ℕ → Dict (Spot N) → Dict (Spot N)
    unfolding between
    bracket instant f i zero newest = newest
    bracket instant f i (suc n) newest = elim (ltb (f (suc i)).at instant) [
      | true ↦ bracket instant f (suc i) n newest
      | false ↦ between instant (f i) (f (suc i))
    ]

    -- `at`, over `n` frames of a past, the oldest first.
    unfoldable pub past_at : ℕ → (ℕ → Frame N) → ℕ → Dict (Spot N)
    unfolding bracket
    past_at instant f zero = []
    past_at instant f (suc n) =
        if not (ltb (f 0).at instant)
        then (f 0).spots
        else if not (ltb instant (f n).at)
        then (f n).spots
        else bracket instant f 0 n (f n).spots

    -- `at`
    unfoldable pub at : ℕ → History N → Dict (Spot N)
    unfolding frame_at past_at
    at instant h = past_at instant (frame_at h) h.count

    -- `RewindTo`. The caller's `rtt` is a sample cut at RewindMax, so the sum does not wrap round, and
    -- `now` is long after the instant that is counted from.
    unfoldable pub rewind_to : ℕ → ℤ → History N → Dict (Spot N)
    unfolding rewind_of at
    rewind_to now rtt h = at (now - rewind_of rtt) h
