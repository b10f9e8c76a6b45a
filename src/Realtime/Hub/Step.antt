-- ===== src/Realtime/Hub/Step.antt =====
-- internal/realtime/hub.go, the loop of `Hub.Run`: one command at a time until the context ends.
use psycho_space.Prelude.{ℕ, Bool, List, [], ◌∷◌, ◌++◌}
use psycho_space.Realtime.Hub.Defs.{
  Sink, Reason, Hub, Effect, remove, register, publish, publish_to, kick, close_set, live, members,
  room_of, members_are, live_are, farewells,
}

pub data Cmd : Type 0 where
  registers : Sink → ℕ → Cmd
  unregisters : ℕ → Cmd
  publishes : (ℕ → Bool) → ℕ → ℕ → Cmd
  publishes_to : (ℕ → Bool) → ℕ → ℕ → Cmd
  kicks : ℕ → ℕ → Reason → Cmd
  asks_live : Cmd
  closes : List ℕ → ℕ → Reason → Cmd
  asks_members : ℕ → Cmd

unfoldable pub step : Hub → Cmd → Hub × List Effect
step h (registers s room) = register s room h
step h (unregisters k) = (remove k h, [])
step h (publishes takes room msg) = publish takes room msg h
step h (publishes_to takes conn_id msg) = publish_to takes conn_id msg h
step h (kicks a code reason) = kick a code reason h
step h asks_live = (h, live_are (live h.clients) ∷ [])
step h (closes ids code reason) = close_set ids code reason h
step h (asks_members room) = (h, members_are (members (room_of room h.rooms) h.clients) ∷ [])

-- The commands received before the context ends, and then the farewell.
unfoldable pub run : Hub → List Cmd → Hub × List Effect
run h [] = (h, farewells h.clients)
run h (c ∷ cs) =
    let (h', effects) = step h c in let (h'', more) = run h' cs in (h'', effects ++ more)
