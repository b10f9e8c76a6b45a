-- ===== src/Realtime/Hub/Defs.antt =====
-- internal/realtime/hub.go, the types and the branches of the loop in `Hub.Run`.
use psycho_space.Prelude.{
  ℕ, ◌+◌, ◌-◌, Bool, List, [], ◌∷◌, ◌++◌, Option, none, some, if◌then◌else◌, ltb, leb, ◌==◌, length,
  contains,
}
use psycho_space.Prelude.Dict.{Dict, get, put, del}

-- What the code sends as a close reason.
pub data Reason : Type 0 where
  slow_consumer rate_limited too_many_connections unauthorized restart peer_closed : Reason

abbrev pub close_going_away : ℕ
close_going_away = 1001

abbrev pub close_try_again_later : ℕ
close_try_again_later = 1013

abbrev pub close_unauthorized : ℕ
close_unauthorized = 4001

abbrev pub max_overflows_before_evict : ℕ
max_overflows_before_evict = 3

abbrev pub default_max_per_account : ℕ
default_max_per_account = 3

abbrev pub default_max_total : ℕ
default_max_total = 200

-- What the hub reads of a connection; `key` is the pointer that the maps are keyed by.
pub record Sink : Type 0 where
  pub key : ℕ
  pub id : ℕ
  pub account_id : ℕ
  pub session_id : ℕ

pub record Member : Type 0 where
  pub conn_id : ℕ
  pub account_id : ℕ

pub record Credential : Type 0 where
  pub conn_id : ℕ
  pub session_id : ℕ
  pub account_id : ℕ

pub record Client : Type 0 where
  pub sink : Sink
  pub room : ℕ
  pub overflows : ℕ

pub data HubError : Type 0 where
  too_many : HubError

pub record Hub : Type 0 where
  pub clients : Dict Client
  pub rooms : Dict (List ℕ)
  pub per_account : Dict ℕ
  pub max_per_account : ℕ
  pub max_total : ℕ

-- What a command does to the world outside the hub.
pub data Effect : Type 0 where
  sent : ℕ → ℕ → Effect
  closed : ℕ → ℕ → Reason → Effect
  registered : Option HubError → Effect
  members_are : List Member → Effect
  live_are : List Credential → Effect

unfoldable pub new_hub : Hub
new_hub = record {
  clients = [];
  rooms = [];
  per_account = [];
  max_per_account = default_max_per_account;
  max_total = default_max_total;
}

abbrev pub or_zero : Option ℕ → ℕ
or_zero none = 0
or_zero (some n) = n

abbrev pub or_empty : Option (List ℕ) → List ℕ
or_empty none = []
or_empty (some l) = l

-- `rooms[room]`, a nil map where the room has nobody.
abbrev pub room_of : ℕ → Dict (List ℕ) → List ℕ
room_of r rooms = or_empty (get r rooms)

-- `delete(r, s)` on a room's set of sinks.
unfoldable pub without : ℕ → List ℕ → List ℕ
without k [] = []
without k (x ∷ xs) = let rest = without k xs in if x == k then rest else x ∷ rest

abbrev pub or_delete : ℕ → List ℕ → Dict (List ℕ) → Dict (List ℕ)
or_delete r [] rooms = del r rooms
or_delete r (x ∷ xs) rooms = put r (x ∷ xs) rooms

unfoldable pub leave_room : ℕ → ℕ → Dict (List ℕ) → Dict (List ℕ)
leave_room r k rooms = elim (get r rooms) [
  | none ↦ rooms
  | some sinks ↦ or_delete r (without k sinks) rooms
]

-- `rooms[room][sink] = c`, making the room where it is missing.
unfoldable pub join_room : ℕ → ℕ → Dict (List ℕ) → Dict (List ℕ)
join_room r k rooms =
    let sinks = room_of r rooms in put r (if contains k sinks then sinks else k ∷ sinks) rooms

-- The counter of an account falls by one, and goes when nothing is left.
unfoldable pub release_account : ℕ → Dict ℕ → Dict ℕ
release_account a counts =
    let n = or_zero (get a counts) - 1 in if ltb 0 n then put a n counts else del a counts

-- The closure `remove`: an unknown sink changes nothing.
unfoldable pub remove : ℕ → Hub → Hub
remove k h = elim (get k h.clients) [
  | none ↦ h
  | some c ↦ record h {
    clients = del k h.clients;
    rooms = leave_room c.room k h.rooms;
    per_account = release_account c.sink.account_id h.per_account;
  }
]

-- The closure `deliver` for a client that the hub knows: never blocks, and evicts after the third
-- overflow in a row.
unfoldable pub deliver_to : (ℕ → Bool) → ℕ → ℕ → Client → Hub → Hub × List Effect
deliver_to takes msg k c h =
    if takes k
    then (record h { clients = put k (record c { overflows = 0 }) h.clients }, sent k msg ∷ [])
    else let behind = record h {
      clients = put k (record c { overflows = c.overflows + 1 }) h.clients;
    } in
      if leb max_overflows_before_evict (c.overflows + 1)
      then (remove k behind, closed k close_try_again_later Reason.slow_consumer ∷ [])
      else (behind, [])

unfoldable pub deliver : (ℕ → Bool) → ℕ → ℕ → Hub → Hub × List Effect
deliver takes msg k h = elim (get k h.clients) [
  | none ↦ (h, [])
  | some c ↦ deliver_to takes msg k c h
]

-- `for s, c := range rooms[room] { deliver(s, c, msg) }`
unfoldable pub deliver_all : (ℕ → Bool) → ℕ → List ℕ → Hub → Hub × List Effect
deliver_all takes msg [] h = (h, [])
deliver_all takes msg (k ∷ ks) h =
    let (h', effects) = deliver takes msg k h in
    let (h'', more) = deliver_all takes msg ks h' in (h'', effects ++ more)

-- The first client with a connection id.
unfoldable pub find_conn : ℕ → Dict Client → Option ℕ
find_conn id [] = none
find_conn id ((k, c) ∷ m) = if c.sink.id == id then some k else find_conn id m

-- `for s := range clients { if test { remove(s); s.Close(code, reason) } }`, over the clients as the
-- loop finds them: it removes no client but the one it stands at.
unfoldable pub cut : (Client → Bool) → ℕ → Reason → Dict Client → Hub → Hub × List Effect
cut test code reason [] h = (h, [])
cut test code reason ((k, c) ∷ rest) h =
    let (h', effects) = cut test code reason rest (if test c then remove k h else h) in
    (h', (if test c then closed k code reason ∷ effects else effects))

unfoldable pub register : Sink → ℕ → Hub → Hub × List Effect
register s room h =
    if leb h.max_total (length h.clients)
    then (h, registered (some too_many) ∷ [])
    else if leb h.max_per_account (or_zero (get s.account_id h.per_account))
    then (h, registered (some too_many) ∷ [])
    else (
      record h {
        clients = put s.key (record { sink = s; room = room; overflows = 0 }) h.clients;
        rooms = join_room room s.key h.rooms;
        per_account = put s.account_id (or_zero (get s.account_id h.per_account) + 1) h.per_account;
      },
      registered none ∷ [],
    )

unfoldable pub publish : (ℕ → Bool) → ℕ → ℕ → Hub → Hub × List Effect
publish takes room msg h = deliver_all takes msg (room_of room h.rooms) h

unfoldable pub publish_to : (ℕ → Bool) → ℕ → ℕ → Hub → Hub × List Effect
publish_to takes conn_id msg h = elim (find_conn conn_id h.clients) [
  | none ↦ (h, [])
  | some k ↦ deliver takes msg k h
]

abbrev pub of_account : ℕ → Client → Bool
of_account a c = c.sink.account_id == a

abbrev pub named : List ℕ → Client → Bool
named ids c = contains c.sink.id ids

unfoldable pub kick : ℕ → ℕ → Reason → Hub → Hub × List Effect
kick a code reason h = cut (of_account a) code reason h.clients h

unfoldable pub close_set : List ℕ → ℕ → Reason → Hub → Hub × List Effect
close_set ids code reason h = cut (named ids) code reason h.clients h

abbrev pub credential_of : Client → Credential
credential_of c = record {
  conn_id = c.sink.id;
  session_id = c.sink.session_id;
  account_id = c.sink.account_id;
}

unfoldable pub live : Dict Client → List Credential
live [] = []
live ((k, c) ∷ m) = credential_of c ∷ live m

-- The members of a room, each read through the hub's own record of the sink.
unfoldable pub members : List ℕ → Dict Client → List Member
members [] clients = []
members (k ∷ ks) clients =
    let rest = members ks clients in
    elim (get k clients) [
      | none ↦ rest
      | some c ↦ record { conn_id = c.sink.id; account_id = c.sink.account_id } ∷ rest
    ]

-- `ctx.Done()`: every client is told to go, and the loop returns.
unfoldable pub farewells : Dict Client → List Effect
farewells [] = []
farewells ((k, c) ∷ m) = closed k close_going_away Reason.restart ∷ farewells m
