-- ===== src/Realtime/Revalidate/Sweep.antt =====
-- What a sweep asks and whom it cuts.
use psycho_space.Prelude.{
  ℕ, ◌≡◌, refl, Bool, false, not, ◌&&◌, ◌||◌, List, [], ◌∷◌, Option, none, some, arith,
  if◌then◌else◌, ◌==◌, count, contains, count_by,
}
use psycho_space.Prelude.Dict.{get}
use psycho_space.Realtime.Hub.Defs.{
  Client, Credential, Hub, Reason, live, close_unauthorized, named,
}
use psycho_space.Realtime.Hub.Invariant.{Inv}
use psycho_space.Realtime.Hub.Fanout.{is_closed}
use psycho_space.Realtime.Hub.Cutting.{unless, hit, get-close_set}
use psycho_space.Realtime.Revalidate.{
  SessionCheck, sessions_of, losers, none_dead, ask, revoked, close_all, sweep_over, sweep,
}

-- Whether some socket holds the session `s`.
abbrev pub is_held : ℕ → List Credential → Bool
is_held s [] = false
is_held s (cr ∷ rest) = cr.session_id == s || is_held s rest

count-sessions_of_any :
    (s : ℕ) (seen : List ℕ) (creds : List Credential)
    → count s (sessions_of seen creds)
      ≡ (if not (s == 0) && not (contains s seen) && is_held s creds then 1 else 0)
unfolding sessions_of count contains
count-sessions_of_any s seen [] = ground arith
count-sessions_of_any s seen (cr ∷ rest) =
    ground (
      arith,
      count-sessions_of_any s seen rest,
      count-sessions_of_any s (cr.session_id ∷ seen) rest,
    )

-- The session check is asked about every session that a live socket holds, once, and about no other;
-- a socket without a session is not asked about.
pub count-sessions_of :
    (s : ℕ) (creds : List Credential)
    → count s (sessions_of [] creds) ≡ (if not (s == 0) && is_held s creds then 1 else 0)
unfolding contains
count-sessions_of s creds = ground (arith, count-sessions_of_any s [] creds)

-- Whether the snapshot lists a connection.
abbrev pub is_listed : ℕ → List Credential → Bool
is_listed id [] = false
is_listed id (cr ∷ rest) = cr.conn_id == id || is_listed id rest

-- Whether a client's session is among the dead ones.
abbrev pub is_lapsed : List ℕ → Client → Bool
is_lapsed dead c = not (c.sink.session_id == 0) && contains c.sink.session_id dead

-- A connection id stands for one socket: where the snapshot has the id of a client, it has that
-- client's session.
abbrev pub Agrees : Client → List Credential → Type 0
Agrees c [] = Unit {0}
Agrees c (cr ∷ rest) = (cr.conn_id ≡ c.sink.id → cr.session_id ≡ c.sink.session_id) × Agrees c rest

contains-losers :
    (dead : List ℕ) (c : Client) (creds : List Credential)
    → Agrees c creds
    → contains c.sink.id (losers dead creds) ≡ (is_listed c.sink.id creds && is_lapsed dead c)
unfolding losers contains
contains-losers dead c [] a = refl
contains-losers dead c (cr ∷ rest) a = ground (arith, contains-losers dead c rest a.1, a.0)

losers-nil_dead : (creds : List Credential) → losers [] creds ≡ []
unfolding losers contains
losers-nil_dead [] = refl
losers-nil_dead (cr ∷ rest) = ground (arith, losers-nil_dead rest)

losers-nil_asked :
    (dead : List ℕ) (creds : List Credential) → sessions_of [] creds ≡ [] → losers dead creds ≡ []
unfolding losers sessions_of contains
losers-nil_asked dead [] e = refl
losers-nil_asked dead (cr ∷ rest) e = ground (arith, losers-nil_asked dead rest)

none_dead_lem : (dead : List ℕ) (creds : List Credential) → none_dead dead creds ≡ losers dead creds
none_dead_lem [] creds = sym-nil
  where
    sym-nil : [] ≡ losers [] creds
    sym-nil = ground (arith, losers-nil_dead creds)
none_dead_lem (d ∷ dead) creds = refl

ask_lem :
    (check : SessionCheck) (dead ids : List ℕ) (creds : List Credential)
    → sessions_of [] creds ≡ ids
    → check ids ≡ some dead
    → ask check ids creds ≡ some (losers dead creds)
ask_lem check dead [] creds e answer = ground (arith, losers-nil_asked dead creds)
ask_lem check dead (s ∷ ids) creds e answer =
    rw (answer, ask) (ground (arith, none_dead_lem dead creds))

revoked_lem :
    (check : SessionCheck) (dead : List ℕ) (creds : List Credential)
    → check (sessions_of [] creds) ≡ some dead
    → revoked check creds ≡ some (losers dead creds)
unfolding revoked
revoked_lem check dead creds answer = ask_lem check dead (sessions_of [] creds) creds refl answer

close_all_lem :
    (ids : List ℕ) (k : ℕ) (now : Hub)
    → Inv now
    → (get k (close_all ids now).0.clients ≡ unless (named ids) (get k now.clients))
      × (count_by (is_closed k) (close_all ids now).1
          ≡ (if hit (named ids) (get k now.clients) then 1 else 0))
unfolding contains count_by
close_all_lem [] k now v = (ground arith, ground arith)
close_all_lem (id ∷ ids) k now v =
    get-close_set (id ∷ ids) close_unauthorized k Reason.unauthorized now v

sweep_over_lem :
    (check : SessionCheck) (dead : List ℕ) (creds : List Credential) (k : ℕ) (now : Hub)
    → Inv now
    → check (sessions_of [] creds) ≡ some dead
    → (get k (sweep_over check creds now).0.clients
        ≡ unless (named (losers dead creds)) (get k now.clients))
      × (count_by (is_closed k) (sweep_over check creds now).1
          ≡ (if hit (named (losers dead creds)) (get k now.clients) then 1 else 0))
unfolding losers
sweep_over_lem check dead [] k now v answer = close_all_lem [] k now v
sweep_over_lem check dead (cr ∷ creds) k now v answer =
    rw (revoked_lem check dead (cr ∷ creds) answer, sweep_over)
      (close_all_lem (losers dead (cr ∷ creds)) k now v)

unless_cong :
    (p q : Client → Bool) (o : Option Client)
    → ((c : Client) → o ≡ some c → p c ≡ q c)
    → (unless p o ≡ unless q o) × (hit p o ≡ hit q o)
unless_cong p q none h = (refl, refl)
unless_cong p q (some c) h = (ground (arith, h c refl), h c refl)

-- A sweep cuts a connection exactly when the snapshot listed it and the check found its session dead,
-- and tells it so once. What connected since, and what the check did not name, stays, also when the
-- hub has gone on from the snapshot to another state; a connection id is never given to two sockets.
pub sweep_lem :
    (check : SessionCheck) (snapshot now : Hub) (dead : List ℕ) (k : ℕ)
    → Inv now
    → check (sessions_of [] (live snapshot.clients)) ≡ some dead
    → ((c : Client) → get k now.clients ≡ some c → Agrees c (live snapshot.clients))
    → (get k (sweep check snapshot now).0.clients
        ≡ unless
            (λ c. is_listed c.sink.id (live snapshot.clients) && is_lapsed dead c)
            (get k now.clients))
      × (count_by (is_closed k) (sweep check snapshot now).1 ≡ (
          if hit
            (λ c. is_listed c.sink.id (live snapshot.clients) && is_lapsed dead c)
            (get k now.clients)
          then 1
          else 0))
unfolding sweep
sweep_lem check snapshot now dead k v answer agrees =
    let creds = live snapshot.clients in
    let cuts = sweep_over_lem check dead creds k now v answer in
    let same =
      unless_cong (named (losers dead creds)) (λ c. is_listed c.sink.id creds && is_lapsed dead c)
        (get k now.clients) (λ c e. contains-losers dead c creds (agrees c e)) in
    (ground (arith, cuts.0, same.0), ground (arith, cuts.1, same.1))

sweep_over_error :
    (check : SessionCheck) (creds : List Credential) (now : Hub)
    → check (sessions_of [] creds) ≡ none
    → sweep_over check creds now ≡ (now, [])
unfolding revoked
sweep_over_error check [] now e = refl
sweep_over_error check (cr ∷ creds) now e = go (sessions_of [] (cr ∷ creds)) refl
  where
    go :
        (ids : List ℕ)
        → sessions_of [] (cr ∷ creds) ≡ ids
        → sweep_over check (cr ∷ creds) now ≡ (now, [])
    go [] q = ground (arith, q)
    go (s ∷ ids) q = ground (arith, q, e)

-- When the check cannot tell, nobody is cut and nobody is told anything.
pub sweep_error :
    (check : SessionCheck) (snapshot now : Hub)
    → check (sessions_of [] (live snapshot.clients)) ≡ none
    → sweep check snapshot now ≡ (now, [])
unfolding sweep
sweep_error check snapshot now e = sweep_over_error check (live snapshot.clients) now e
