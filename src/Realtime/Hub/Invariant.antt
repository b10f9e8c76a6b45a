-- ===== src/Realtime/Hub/Invariant.antt =====
-- What holds of the hub between two commands, and that each command keeps it.
use psycho_space.Prelude.{
  ℕ, ◌≤◌, ◌<◌, ◌≡◌, inl, inr, Bool, true, List, some, arith, if◌then◌else◌, length, count,
  Option-cases,
}
use psycho_space.Prelude.Dict.{
  Dict, IsMap, get, del, tally, get-del, del-IsMap, tally-del, length-tally,
}
use psycho_space.Realtime.Hub.Defs.{
  Client, Hub, or_zero, room_of, remove, of_account, max_overflows_before_evict, leave_room,
  release_account,
}
use psycho_space.Realtime.Hub.Index.{
  sits_in, HasNoEmpty, HasNoZero, count-without, room_of-leave_room, leave_room-HasNoEmpty,
  count-release_account, release_account-HasNoZero,
}

-- The room sets hold each sink once, in the room of its client and nowhere else.
abbrev pub IsIndexed : Dict Client → Dict (List ℕ) → Type 0
IsIndexed clients rooms =
    (k r : ℕ) → count k (room_of r rooms) ≡ (if sits_in k r clients then 1 else 0)

-- The counters count the clients of each account.
abbrev pub IsCounted : Dict Client → Dict ℕ → Type 0
IsCounted clients counts = (a : ℕ) → or_zero (get a counts) ≡ tally (of_account a) clients

-- A client stands under its own key, and has not overflowed often enough to go.
abbrev pub IsPatient : Dict Client → Type 0
IsPatient clients =
    (k : ℕ) (c : Client)
    → get k clients ≡ some c
    → (c.sink.key ≡ k) × (c.overflows < max_overflows_before_evict)

pub record Inv (h : Hub) : Type 0 where
  pub distinct : IsMap h.clients
  pub indexed : IsIndexed h.clients h.rooms
  pub no_empty : HasNoEmpty h.rooms
  pub counted : IsCounted h.clients h.per_account
  pub no_zero : HasNoZero h.per_account
  pub within_total : length h.clients ≤ h.max_total
  pub within_account : (a : ℕ) → tally (of_account a) h.clients ≤ h.max_per_account
  pub patient : IsPatient h.clients

-- Removing a sink that the hub knows.
module _ (k : ℕ) (h : Hub) (c : Client) (found : get k h.clients ≡ some c) (v : Inv h) where
  remove-IsIndexed : IsIndexed (del k h.clients) (leave_room c.room k h.rooms)
  remove-IsIndexed j r = ground (
    arith,
    v.indexed j r,
    room_of-leave_room c.room r k h.rooms,
    count-without j k (room_of r h.rooms),
    get-del k j h.clients,
  )

  remove-IsCounted : IsCounted (del k h.clients) (release_account c.sink.account_id h.per_account)
  remove-IsCounted a = ground (
    arith,
    v.counted a,
    count-release_account c.sink.account_id a h.per_account,
    tally-del (of_account a) k c h.clients v.distinct found,
  )

  remove-tally-le : (p : Client → Bool) → tally p (del k h.clients) ≤ tally p h.clients
  remove-tally-le p = omega (arith, tally-del p k c h.clients v.distinct found)

  remove_known : Inv (record h {
    clients = del k h.clients;
    rooms = leave_room c.room k h.rooms;
    per_account = release_account c.sink.account_id h.per_account;
  })
  remove_known = record {
    distinct = del-IsMap k h.clients v.distinct;
    indexed = remove-IsIndexed;
    no_empty = leave_room-HasNoEmpty c.room k h.rooms v.no_empty;
    counted = remove-IsCounted;
    no_zero = release_account-HasNoZero c.sink.account_id h.per_account v.no_zero;
    within_total = omega (
      arith,
      v.within_total,
      length-tally h.clients,
      length-tally (del k h.clients),
      remove-tally-le (λ _. true),
    );
    within_account = λ a. omega (arith, v.within_account a, remove-tally-le (of_account a));
    patient = λ j d e. ground (arith, v.patient j d, get-del k j h.clients);
  }

pub remove-Inv : (k : ℕ) (h : Hub) → Inv h → Inv (remove k h)
unfolding remove
remove-Inv k h v = elim (Option-cases (get k h.clients)) [
  | inl e ↦ rw (e, remove) v
  | inr (c, e) ↦ rw (e, remove) (remove_known k h c e v)
]
