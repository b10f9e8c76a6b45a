-- ===== src/Realtime/Revalidate.antt =====
-- internal/realtime/revalidate.go: the sweep that closes the sockets whose session has ended.
-- An id is a number, and 0 is the empty text. The session check belongs to another package and is a
-- parameter; its answer `none` is an error.
pub mod Sweep
use psycho_space.Prelude.{
  ℕ, true, false, List, [], ◌∷◌, Option, none, some, if◌then◌else◌, ◌==◌, contains,
}
use psycho_space.Realtime.Hub.Defs.{
  Credential, Hub, Effect, Reason, live, close_set, close_unauthorized,
}

abbrev pub SessionCheck : Type 0
SessionCheck = List ℕ → Option (List ℕ)

-- The first loop of `Revoked`: every session once, and no question about a socket without one.
unfoldable pub sessions_of : List ℕ → List Credential → List ℕ
sessions_of seen [] = []
sessions_of seen (cr ∷ rest) = elim (cr.session_id == 0) [
  | true ↦ sessions_of seen rest
  | false ↦ elim (contains cr.session_id seen) [
    | true ↦ sessions_of seen rest
    | false ↦ cr.session_id ∷ sessions_of (cr.session_id ∷ seen) rest
  ]
]

-- The last loop: from dead sessions back to the sockets that hold them.
unfoldable pub losers : List ℕ → List Credential → List ℕ
losers dead [] = []
losers dead (cr ∷ rest) =
    let others = losers dead rest in
    if cr.session_id == 0
    then others
    else if contains cr.session_id dead
    then cr.conn_id ∷ others
    else others

abbrev pub none_dead : List ℕ → List Credential → List ℕ
none_dead [] creds = []
none_dead (d ∷ dead) creds = losers (d ∷ dead) creds

abbrev pub ask : SessionCheck → List ℕ → List Credential → Option (List ℕ)
ask check [] creds = some []
ask check (s ∷ ids) creds = elim (check (s ∷ ids)) [
  | none ↦ none
  | some dead ↦ some (none_dead dead creds)
]

-- `SessionCheck.Revoked`
unfoldable pub revoked : SessionCheck → List Credential → Option (List ℕ)
unfolding sessions_of losers
revoked check creds = ask check (sessions_of [] creds) creds

abbrev pub close_all : List ℕ → Hub → Hub × List Effect
close_all [] now = (now, [])
close_all (id ∷ ids) now = close_set (id ∷ ids) close_unauthorized Reason.unauthorized now

abbrev pub sweep_over : SessionCheck → List Credential → Hub → Hub × List Effect
sweep_over check [] now = (now, [])
sweep_over check (cr ∷ creds) now = elim (revoked check (cr ∷ creds)) [
  | none ↦ (now, [])
  | some ids ↦ close_all ids now
]

-- `sweep`: the snapshot is taken from one state of the hub, and the verdict meets another, `now`,
-- since the hub goes on while the question is asked.
unfoldable pub sweep : SessionCheck → Hub → Hub → Hub × List Effect
sweep check snapshot now = sweep_over check (live snapshot.clients) now
