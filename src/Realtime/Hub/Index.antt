-- ===== src/Realtime/Hub/Index.antt =====
-- The three maps of the hub agree: the room sets and the account counters are what the clients say.
-- Here the laws of the operations on the room sets and on the counters.
use psycho_space.Prelude.{
  ℕ, ◌-◌, ◌≡◌, ◌≢◌, inl, inr, Bool, false, List, [], ◌∷◌, none, some, arith, if◌then◌else◌, ◌==◌,
  count, contains, Option-cases,
}
use psycho_space.Prelude.Dict.{Dict, get, get-put, get-del}
use psycho_space.Realtime.Hub.Defs.{
  Client, or_zero, room_of, without, or_delete, leave_room, join_room, release_account,
}

pub count-without :
    (j k : ℕ) (l : List ℕ) → count j (without k l) ≡ (if k == j then 0 else count j l)
unfolding count without
count-without j k [] = ground arith
count-without j k (x ∷ xs) = ground (arith, count-without j k xs)

-- Whether the clients have the sink `k` in room `r`.
abbrev pub sits_in : ℕ → ℕ → Dict Client → Bool
sits_in k r clients = elim (get k clients) [ none ↦ false | some c ↦ c.room == r ]

room_of-or_delete :
    (q r : ℕ) (l : List ℕ) (rooms : Dict (List ℕ))
    → room_of r (or_delete q l rooms) ≡ (if q == r then l else room_of r rooms)
room_of-or_delete q r [] rooms = ground (arith, get-del q r rooms)
room_of-or_delete q r (x ∷ xs) rooms = ground (arith, get-put q r (x ∷ xs) rooms)

pub room_of-leave_room :
    (q r k : ℕ) (rooms : Dict (List ℕ))
    → room_of r (leave_room q k rooms)
      ≡ (if q == r then without k (room_of r rooms) else room_of r rooms)
unfolding leave_room without
room_of-leave_room q r k rooms = elim (Option-cases (get q rooms)) [
  | inl e ↦ ground arith
  | inr (l, e) ↦ ground (arith, room_of-or_delete q r (without k l) rooms)
]

pub room_of-join_room :
    (q r k : ℕ) (rooms : Dict (List ℕ))
    → room_of r (join_room q k rooms) ≡ (
        if q == r
        then (if contains k (room_of q rooms) then room_of q rooms else k ∷ room_of q rooms)
        else room_of r rooms)
unfolding join_room
room_of-join_room q r k rooms =
    ground (arith, get-put q r (room_of q rooms) rooms, get-put q r (k ∷ room_of q rooms) rooms)

-- No room is kept for nobody.
abbrev pub HasNoEmpty : Dict (List ℕ) → Type 0
HasNoEmpty rooms = (r : ℕ) → get r rooms ≢ some []

pub join_room-HasNoEmpty :
    (q k : ℕ) (rooms : Dict (List ℕ)) → HasNoEmpty rooms → HasNoEmpty (join_room q k rooms)
unfolding join_room contains
join_room-HasNoEmpty q k rooms h r = elim (Option-cases (get q rooms)) [
  | inl e ↦ ground (arith, h r, h q, get-put q r (k ∷ []) rooms)
  | inr (l, e) ↦ go l e
]
  where
    go : (l : List ℕ) → get q rooms ≡ some l → get r (join_room q k rooms) ≢ some []
    go [] e = absurd (h q e)
    go (x ∷ xs) e = ground (arith, h r, get-put q r (x ∷ xs) rooms, get-put q r (k ∷ x ∷ xs) rooms)

or_delete-HasNoEmpty :
    (q : ℕ) (l : List ℕ) (rooms : Dict (List ℕ))
    → HasNoEmpty rooms
    → HasNoEmpty (or_delete q l rooms)
or_delete-HasNoEmpty q [] rooms h r = ground (arith, h r, get-del q r rooms)
or_delete-HasNoEmpty q (x ∷ xs) rooms h r = ground (arith, h r, get-put q r (x ∷ xs) rooms)

pub leave_room-HasNoEmpty :
    (q k : ℕ) (rooms : Dict (List ℕ)) → HasNoEmpty rooms → HasNoEmpty (leave_room q k rooms)
unfolding leave_room
leave_room-HasNoEmpty q k rooms h = elim (Option-cases (get q rooms)) [
  | inl e ↦ rw (e, leave_room) h
  | inr (l, e) ↦ rw (e, leave_room) (or_delete-HasNoEmpty q (without k l) rooms h)
]

-- The counter of an account, and that no counter stands at nought.
abbrev pub HasNoZero : Dict ℕ → Type 0
HasNoZero counts = (a : ℕ) → get a counts ≢ some 0

pub count-release_account :
    (a b : ℕ) (counts : Dict ℕ)
    → or_zero (get b (release_account a counts))
      ≡ (if a == b then or_zero (get b counts) - 1 else or_zero (get b counts))
unfolding release_account
count-release_account a b counts =
    ground (arith, get-put a b (or_zero (get a counts) - 1) counts, get-del a b counts)

pub release_account-HasNoZero :
    (a : ℕ) (counts : Dict ℕ) → HasNoZero counts → HasNoZero (release_account a counts)
unfolding release_account
release_account-HasNoZero a counts h b =
    ground (arith, h b, get-put a b (or_zero (get a counts) - 1) counts, get-del a b counts)
