-- ===== src/Realtime/Hub/Fanout.antt =====
-- What a broadcast does to each client and who receives it.
use psycho_space.Prelude.{
  ℕ, suc, zero, ◌+◌, ◌≤◌, ◌≡◌, refl, inl, inr, Bool, true, false, ◌&&◌, List, [], ◌∷◌, Option, none,
  some, arith, if◌then◌else◌, ◌==◌, leb, ltb, count, contains, contains-count_zero, count_by,
  count_by-append, contains-count_pos, Option-cases,
}
use psycho_space.Prelude.Dict.{get, put, get-put, get-del}
use psycho_space.Realtime.Hub.Defs.{
  Client, Hub, Effect, sent, closed, registered, members_are, live_are, room_of, remove, deliver_to,
  deliver, deliver_all, publish, max_overflows_before_evict,
}
use psycho_space.Realtime.Hub.Index.{sits_in}
use psycho_space.Realtime.Hub.Invariant.{Inv}
use psycho_space.Realtime.Hub.Preservation.{deliver_all-Inv}

-- The effects that reach one sink.
abbrev pub is_sent : ℕ → ℕ → Effect → Bool
is_sent k msg (sent j m) = j == k && m == msg
is_sent k msg (closed j code reason) = false
is_sent k msg (registered e) = false
is_sent k msg (members_are l) = false
is_sent k msg (live_are l) = false

abbrev pub is_closed : ℕ → Effect → Bool
is_closed k (sent j m) = false
is_closed k (closed j code reason) = j == k
is_closed k (registered e) = false
is_closed k (members_are l) = false
is_closed k (live_are l) = false

-- A client after it was offered one message: caught up, one step further behind, or gone.
abbrev pub served : Bool → Option Client → Option Client
served takes none = none
served true (some c) = some (record c { overflows = 0 })
served false (some c) =
    if leb max_overflows_before_evict (c.overflows + 1)
    then none
    else some (record c { overflows = c.overflows + 1 })

abbrev pub is_some : Option Client → Bool
is_some none = false
is_some (some c) = true

pub get-remove :
    (j k : ℕ) (h : Hub) → get k (remove j h).clients ≡ (if j == k then none else get k h.clients)
unfolding remove
get-remove j k h = ground (arith, get-del j k h.clients)

get-deliver_to :
    (takes : ℕ → Bool) (msg j k : ℕ) (c : Client) (h : Hub)
    → get j h.clients ≡ some c
    → get k (deliver_to takes msg j c h).0.clients
      ≡ (if j == k then served (takes k) (get k h.clients) else get k h.clients)
unfolding deliver_to
get-deliver_to takes msg j k c h found =
    let behind = record h {
      clients = put j (record c { overflows = c.overflows + 1 }) h.clients;
    } in
    ground (
      arith,
      get-put j k (record c { overflows = 0 }) h.clients,
      get-put j k (record c { overflows = c.overflows + 1 }) h.clients,
      get-remove j k behind,
    )

pub get-deliver :
    (takes : ℕ → Bool) (msg j k : ℕ) (h : Hub)
    → get k (deliver takes msg j h).0.clients
      ≡ (if j == k then served (takes k) (get k h.clients) else get k h.clients)
unfolding deliver
get-deliver takes msg j k h = elim (Option-cases (get j h.clients)) [
  | inl e ↦ rw (e, deliver) (ground arith)
  | inr (c, e) ↦ rw (e, deliver) (get-deliver_to takes msg j k c h e)
]

pub sent-deliver :
    (takes : ℕ → Bool) (msg j k : ℕ) (h : Hub)
    → count_by (is_sent k msg) (deliver takes msg j h).1
      ≡ (if j == k then (if is_some (get k h.clients) && takes k then 1 else 0) else 0)
unfolding deliver deliver_to count_by
sent-deliver takes msg j k h = ground arith

get-deliver_all :
    (takes : ℕ → Bool) (msg k : ℕ) (ks : List ℕ) (h : Hub)
    → count k ks ≤ 1
    → get k (deliver_all takes msg ks h).0.clients
      ≡ (if contains k ks then served (takes k) (get k h.clients) else get k h.clients)
unfolding deliver_all count contains
get-deliver_all takes msg k [] h once = refl
get-deliver_all takes msg k (j ∷ ks) h once = ground (
  arith,
  get-deliver takes msg j k h,
  get-deliver_all takes msg k ks (deliver takes msg j h).0,
  contains-count_pos k ks,
)

sent-deliver_all :
    (takes : ℕ → Bool) (msg k : ℕ) (ks : List ℕ) (h : Hub)
    → count k ks ≤ 1
    → count_by (is_sent k msg) (deliver_all takes msg ks h).1
      ≡ (if contains k ks then (if is_some (get k h.clients) && takes k then 1 else 0) else 0)
unfolding deliver_all count contains count_by
sent-deliver_all takes msg k [] h once = refl
sent-deliver_all takes msg k (j ∷ ks) h once = ground (
  arith,
  count_by-append (is_sent k msg) (deliver takes msg j h).1
      (deliver_all takes msg ks (deliver takes msg j h).0).1,
  sent-deliver takes msg j k h,
  get-deliver takes msg j k h,
  sent-deliver_all takes msg k ks (deliver takes msg j h).0,
  contains-count_pos k ks,
)

module _ (takes : ℕ → Bool) (room msg : ℕ) (h : Hub) (v : Inv h) where
  contains-room_of : (k : ℕ) → contains k (room_of room h.rooms) ≡ sits_in k room h.clients
  contains-room_of k = ground (
    arith,
    v.indexed k room,
    contains-count_pos k (room_of room h.rooms),
    contains-count_zero k (room_of room h.rooms),
  )

  -- A broadcast serves the clients of its room, and no other client notices it: a client of the
  -- room that takes the message has caught up, one that does not has overflowed once more and is
  -- gone after the third time in a row, and the client of another room is what it was.
  pub get-publish :
      (k : ℕ)
      → get k (publish takes room msg h).0.clients
        ≡ (if sits_in k room h.clients then served (takes k) (get k h.clients) else get k h.clients)
  unfolding publish
  get-publish k =
      rw (← contains-room_of k)
        (get-deliver_all takes msg k (room_of room h.rooms) h (ground (arith, v.indexed k room)))

  -- The message is queued once for each client of the room that takes it, and for nobody else.
  pub sent-publish :
      (k : ℕ)
      → count_by (is_sent k msg) (publish takes room msg h).1
        ≡ (if sits_in k room h.clients && takes k then 1 else 0)
  unfolding publish
  sent-publish k = ground (
    arith,
    contains-room_of k,
    sent-deliver_all takes msg k (room_of room h.rooms) h (ground (arith, v.indexed k room)),
  )

-- The broadcasts of a room, `n` of them, none of which one client takes.
pub refused : ℕ → (ℕ → Bool) → ℕ → ℕ → Hub → Hub
refused zero takes room msg h = h
refused (suc n) takes room msg h = (publish takes room msg (refused n takes room msg h)).0

refused-Inv :
    (n : ℕ) (takes : ℕ → Bool) (room msg : ℕ) (h : Hub) → Inv h → Inv (refused n takes room msg h)
unfolding refused publish
refused-Inv zero takes room msg h v = v
refused-Inv (suc n) takes room msg h v =
    deliver_all-Inv takes msg _ (refused n takes room msg h) (refused-Inv n takes room msg h v)

-- A client that has caught up and then takes none of `n` broadcasts of its room is still there, with
-- its overflows counted, as long as `n` is below three, and is gone from the third on.
pub refused_evicts :
    (n : ℕ) (takes : ℕ → Bool) (room msg k : ℕ) (c : Client) (h : Hub)
    → Inv h
    → get k h.clients ≡ some c
    → c.room ≡ room
    → c.overflows ≡ 0
    → takes k ≡ false
    → get k (refused n takes room msg h).clients
      ≡ (if ltb n 3 then some (record c { overflows = n }) else none)
unfolding refused
refused_evicts zero takes room msg k c h v found here fine slow = ground arith
refused_evicts (suc n) takes room msg k c h v found here fine slow = ground (
  arith,
  get-publish takes room msg (refused n takes room msg h) (refused-Inv n takes room msg h v) k,
  refused_evicts n takes room msg k c h v found here fine slow,
)
