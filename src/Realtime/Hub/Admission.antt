-- ===== src/Realtime/Hub/Admission.antt =====
-- When a connection is let in, and what a room's member list says.
use psycho_space.Prelude.{
  ℕ, ◌+◌, ◌≤◌, ◌≡◌, refl, Bool, true, ◌&&◌, ◌||◌, List, [], ◌∷◌, Option, none, some, arith, inl,
  inr, not, Bool-cases, if◌then◌else◌, ◌==◌, leb, length, count, contains, contains-count_zero,
  count_by, contains-count_pos,
}
use psycho_space.Prelude.Dict.{Dict, get, get-put, IsMap, tally}
use psycho_space.Realtime.Hub.Defs.{
  Sink, Client, Member, Hub, registered, too_many, room_of, join_room, or_zero, register,
  of_account, members, without,
}
use psycho_space.Realtime.Hub.Index.{sits_in, count-without}
use psycho_space.Realtime.Hub.Invariant.{Inv}

-- The caps as they are meant: over the live connections, in all and of the account.
abbrev pub is_full : Sink → Hub → Bool
is_full s h =
    leb h.max_total (length h.clients)
    || leb h.max_per_account (tally (of_account s.account_id) h.clients)

contains-join_room :
    (room r j k : ℕ) (rooms : Dict (List ℕ))
    → contains k (room_of r (join_room room j rooms))
      ≡ (contains k (room_of r rooms) || (j == k && room == r))
unfolding join_room contains
contains-join_room room r j k rooms = elim (Bool-cases (contains j (room_of room rooms))) [
  | inl e ↦ ground (arith, e, get-put room r (room_of room rooms) rooms, Bool-cases (room == r))
  | inr e ↦ ground (arith, e, get-put room r (j ∷ room_of room rooms) rooms, Bool-cases (room == r))
]

-- A registration is refused exactly when the process or the account holds as many live connections
-- as it may. A refusal changes nothing; an admission adds the client with no overflows, to the set of
-- its room and to no other, raises the counter of its account by one and no other, and leaves every
-- other client, room and account alone.
pub register_lem :
    (s : Sink) (room k r a : ℕ) (h : Hub)
    → Inv h
    → ((register s room h).1 ≡ registered (if is_full s h then some too_many else none) ∷ [])
      × (get k (register s room h).0.clients ≡ (
          if is_full s h
          then get k h.clients
          else if s.key == k
          then some (record { sink = s; room = room; overflows = 0 })
          else get k h.clients))
      × (contains k (room_of r (register s room h).0.rooms)
          ≡ (contains k (room_of r h.rooms) || (not (is_full s h) && s.key == k && room == r)))
      × (or_zero (get a (register s room h).0.per_account)
          ≡ or_zero (get a h.per_account)
            + (if not (is_full s h) && s.account_id == a then 1 else 0))
      × (is_full s h ≡ true → (register s room h).0 ≡ h)
unfolding register
register_lem s room k r a h v = (
  ground (arith, v.counted s.account_id),
  ground (
    arith,
    v.counted s.account_id,
    get-put s.key k (record { sink = s; room = room; overflows = 0 }) h.clients,
  ),
  ground (arith, v.counted s.account_id, contains-join_room room r s.key k h.rooms),
  ground (
    arith,
    v.counted s.account_id,
    get-put s.account_id a (or_zero (get s.account_id h.per_account) + 1) h.per_account,
  ),
  λ full. ground (arith, v.counted s.account_id, full),
)

-- The members of a room, counted by a test: each key in the list counts what its client gives.
abbrev pub member_of : Client → Member
member_of c = record { conn_id = c.sink.id; account_id = c.sink.account_id }

abbrev weight : (Member → Bool) → Option Client → ℕ
weight p none = 0
weight p (some c) = if p (member_of c) then 1 else 0

weigh : (Member → Bool) → List ℕ → Dict Client → ℕ
weigh p [] m = 0
weigh p (k ∷ ks) m = weight p (get k m) + weigh p ks m

members-weigh :
    (p : Member → Bool) (ks : List ℕ) (m : Dict Client) → count_by p (members ks m) ≡ weigh p ks m
unfolding members weigh count_by
members-weigh p [] m = refl
members-weigh p (k ∷ ks) m = ground (arith, members-weigh p ks m)

weigh-nil : (p : Member → Bool) (ks : List ℕ) → weigh p ks [] ≡ 0
unfolding weigh get
weigh-nil p [] = refl
weigh-nil p (k ∷ ks) = ground (arith, weigh-nil p ks)

-- One key is taken out of the list and its client off the map.
weigh-cons :
    (p : Member → Bool) (ks : List ℕ) (j : ℕ) (c : Client) (m : Dict Client)
    → get j m ≡ none
    → count j ks ≤ 1
    → weigh p ks ((j, c) ∷ m)
      ≡ weigh p (without j ks) m + (if contains j ks then weight p (some c) else 0)
unfolding weigh get without count contains
weigh-cons p [] j c m absent once = ground arith
weigh-cons p (k ∷ ks) j c m absent once =
    ground (arith, weigh-cons p ks j c m absent, contains-count_pos j ks)

abbrev in_room : ℕ → (Member → Bool) → Client → Bool
in_room r p c = c.room == r && p (member_of c)

weigh-tally :
    (p : Member → Bool) (r : ℕ) (ks : List ℕ) (m : Dict Client)
    → IsMap m
    → ((k : ℕ) → count k ks ≡ (if sits_in k r m then 1 else 0))
    → weigh p ks m ≡ tally (in_room r p) m
unfolding get tally
weigh-tally p r ks [] d h = weigh-nil p ks
weigh-tally p r ks ((j, c) ∷ m) d h = ground (
  arith,
  h j,
  weigh-cons p ks j c m d.0,
  contains-count_pos j ks,
  contains-count_zero j ks,
  weigh-tally p r (without j ks) m d.1 (λ k. ground (arith, h k, count-without k j ks, d.0)),
)

-- The member list of a room is the clients of that room, each once: any test on members passes in
-- the list as often as on the clients of the room.
pub members_lem :
    (p : Member → Bool) (r : ℕ) (h : Hub)
    → Inv h
    → count_by p (members (room_of r h.rooms) h.clients)
      ≡ tally (λ c. c.room == r && p (member_of c)) h.clients
members_lem p r h v = ground (
  arith,
  members-weigh p (room_of r h.rooms) h.clients,
  weigh-tally p r (room_of r h.rooms) h.clients v.distinct (λ k. v.indexed k r),
)
