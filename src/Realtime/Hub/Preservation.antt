-- ===== src/Realtime/Hub/Preservation.antt =====
-- Each command of the hub's loop keeps the invariant.
use psycho_space.Prelude.{
  ℕ, ◌+◌, ◌<◌, ◌≡◌, refl, inl, inr, Bool, true, List, [], ◌∷◌, none, some, arith, leb, length,
  count, contains-count_pos, Option-cases, Bool-cases,
}
use psycho_space.Prelude.Dict.{
  Dict, get, put, tally, get-put, put-IsMap, tally-put_new, tally-put_over, length-tally, del-put,
}
use psycho_space.Realtime.Hub.Defs.{
  Sink, Client, Hub, Reason, or_zero, room_of, remove, deliver_to, deliver, deliver_all, cut,
  of_account, register, publish, publish_to, kick, close_set, find_conn, new_hub, join_room,
  max_overflows_before_evict,
}
use psycho_space.Realtime.Hub.Step.{
  Cmd, registers, unregisters, publishes, publishes_to, kicks, asks_live, closes, asks_members,
  step, run,
}
use psycho_space.Realtime.Hub.Index.{room_of-join_room, join_room-HasNoEmpty}
use psycho_space.Realtime.Hub.Invariant.{Inv, IsIndexed, remove-Inv}

pub new_hub-Inv : Inv new_hub
unfolding new_hub get tally count
new_hub-Inv = record {
  distinct = tt;
  indexed = λ k r. refl;
  no_empty = λ r e. cc;
  counted = λ a. refl;
  no_zero = λ a e. cc;
  within_total = omega arith;
  within_account = λ a. omega arith;
  patient = λ k c e. cc;
}

-- A client whose count of overflows changes.
module _ (k n : ℕ) (c : Client) (h : Hub) (found : get k h.clients ≡ some c) (v : Inv h) where
  recount : Hub
  recount = record h { clients = put k (record c { overflows = n }) h.clients }

  recount-Inv : n < max_overflows_before_evict → Inv recount
  unfolding recount
  recount-Inv below = record {
    distinct = put-IsMap k _ h.clients v.distinct;
    indexed =
        λ j r. ground (arith, v.indexed j r, get-put k j (record c { overflows = n }) h.clients);
    no_empty = v.no_empty;
    counted = λ a. ground (
      arith,
      v.counted a,
      tally-put_over (of_account a) k (record c { overflows = n }) c h.clients found,
    );
    no_zero = v.no_zero;
    within_total = omega (
      arith,
      v.within_total,
      length-tally h.clients,
      length-tally (put k (record c { overflows = n }) h.clients),
      tally-put_over (λ _. true) k (record c { overflows = n }) c h.clients found,
    );
    within_account = λ a. ground (
      arith,
      v.within_account a,
      tally-put_over (of_account a) k (record c { overflows = n }) c h.clients found,
    );
    patient = λ j d e. ground (
      arith,
      v.patient j d,
      v.patient k c found,
      get-put k j (record c { overflows = n }) h.clients,
    );
  }

  -- An overflow that is written down just before the client goes leaves no trace.
  remove-recount : remove k recount ≡ remove k h
  unfolding recount remove
  remove-recount = ground (
    arith,
    get-put k k (record c { overflows = n }) h.clients,
    del-put k (record c { overflows = n }) h.clients,
  )

deliver_to-Inv :
    (takes : ℕ → Bool) (msg k : ℕ) (c : Client) (h : Hub)
    → get k h.clients ≡ some c
    → Inv h
    → Inv (deliver_to takes msg k c h).0
unfolding deliver_to recount
deliver_to-Inv takes msg k c h found v = elim (Bool-cases (takes k)) [
  | inl e ↦ rw e (recount-Inv k 0 c h found v (omega arith))
  | inr e ↦ rw e (elim (Bool-cases (leb max_overflows_before_evict (c.overflows + 1))) [
    | inl last ↦ rw last (rw (remove-recount k (c.overflows + 1) c h found v) (remove-Inv k h v))
    | inr early ↦ rw early (recount-Inv k (c.overflows + 1) c h found v (ground arith))
  ])
]

pub deliver-Inv : (takes : ℕ → Bool) (msg k : ℕ) (h : Hub) → Inv h → Inv (deliver takes msg k h).0
unfolding deliver
deliver-Inv takes msg k h v = elim (Option-cases (get k h.clients)) [
  | inl e ↦ rw (e, deliver) v
  | inr (c, e) ↦ rw (e, deliver) (deliver_to-Inv takes msg k c h e v)
]

pub deliver_all-Inv :
    (takes : ℕ → Bool) (msg : ℕ) (ks : List ℕ) (h : Hub)
    → Inv h
    → Inv (deliver_all takes msg ks h).0
unfolding deliver_all
deliver_all-Inv takes msg [] h v = v
deliver_all-Inv takes msg (k ∷ ks) h v =
    deliver_all-Inv takes msg ks (deliver takes msg k h).0 (deliver-Inv takes msg k h v)

pub cut-Inv :
    (test : Client → Bool) (code : ℕ) (reason : Reason) (m : Dict Client) (h : Hub)
    → Inv h
    → Inv (cut test code reason m h).0
unfolding cut
cut-Inv test code reason [] h v = v
cut-Inv test code reason ((k, c) ∷ m) h v = elim (Bool-cases (test c)) [
  | inl e ↦ rw e (cut-Inv test code reason m (remove k h) (remove-Inv k h v))
  | inr e ↦ rw e (cut-Inv test code reason m h v)
]

-- A sink that the hub does not hold yet, under both caps.
module _ (s : Sink) (room : ℕ) (h : Hub) (fresh : get s.key h.clients ≡ none)
    (space : length h.clients < h.max_total)
    (share : or_zero (get s.account_id h.per_account) < h.max_per_account) (v : Inv h) where
  joined : Client
  joined = record { sink = s; room = room; overflows = 0 }

  register-IsIndexed : IsIndexed (put s.key joined h.clients) (join_room room s.key h.rooms)
  unfolding count joined
  register-IsIndexed k r = ground (
    arith,
    v.indexed k r,
    v.indexed s.key r,
    room_of-join_room room r s.key h.rooms,
    get-put s.key k joined h.clients,
    contains-count_pos s.key (room_of room h.rooms),
  )

  register_admitted : Inv (record h {
    clients = put s.key joined h.clients;
    rooms = join_room room s.key h.rooms;
    per_account = put s.account_id (or_zero (get s.account_id h.per_account) + 1) h.per_account;
  })
  unfolding joined
  register_admitted = record {
    distinct = put-IsMap s.key joined h.clients v.distinct;
    indexed = register-IsIndexed;
    no_empty = join_room-HasNoEmpty room s.key h.rooms v.no_empty;
    counted = λ a. ground (
      arith,
      v.counted a,
      tally-put_new (of_account a) s.key joined h.clients fresh,
      get-put s.account_id a (or_zero (get s.account_id h.per_account) + 1) h.per_account,
    );
    no_zero = λ a. ground (
      arith,
      v.no_zero a,
      get-put s.account_id a (or_zero (get s.account_id h.per_account) + 1) h.per_account,
    );
    within_total = omega (
      arith,
      space,
      length-tally h.clients,
      length-tally (put s.key joined h.clients),
      tally-put_new (λ _. true) s.key joined h.clients fresh,
    );
    within_account = λ a. ground (
      arith,
      v.counted a,
      v.within_account a,
      tally-put_new (of_account a) s.key joined h.clients fresh,
    );
    patient = λ k d e. ground (arith, v.patient k d, get-put s.key k joined h.clients);
  }

pub register-Inv :
    (s : Sink) (room : ℕ) (h : Hub) → get s.key h.clients ≡ none → Inv h → Inv (register s room h).0
unfolding register joined
register-Inv s room h fresh v = elim (Bool-cases (leb h.max_total (length h.clients))) [
  | inl full ↦ rw full v
  | inr space ↦
      elim (Bool-cases (leb h.max_per_account (or_zero (get s.account_id h.per_account)))) [
        | inl greedy ↦ rw (space, greedy) v
        | inr share ↦
            rw (space, share) (register_admitted s room h fresh (ground arith) (ground arith) v)
      ]
]

pub publish_to-Inv :
    (takes : ℕ → Bool) (conn_id msg : ℕ) (h : Hub) → Inv h → Inv (publish_to takes conn_id msg h).0
unfolding publish_to
publish_to-Inv takes conn_id msg h v = elim (Option-cases (find_conn conn_id h.clients)) [
  | inl e ↦ rw (e, publish_to) v
  | inr (k, e) ↦ rw (e, publish_to) (deliver-Inv takes msg k h v)
]

-- A connection is registered once: its pointer is not yet a key of `clients`.
abbrev pub IsFresh : Hub → Cmd → Type 0
IsFresh h (registers s room) = get s.key h.clients ≡ none
IsFresh h c = Unit {0}

pub step-Inv : (h : Hub) (c : Cmd) → IsFresh h c → Inv h → Inv (step h c).0
unfolding step publish kick close_set
step-Inv h (registers s room) f v = register-Inv s room h f v
step-Inv h (unregisters k) f v = remove-Inv k h v
step-Inv h (publishes takes room msg) f v = deliver_all-Inv takes msg (room_of room h.rooms) h v
step-Inv h (publishes_to takes conn_id msg) f v = publish_to-Inv takes conn_id msg h v
step-Inv h (kicks a code reason) f v = cut-Inv (of_account a) code reason h.clients h v
step-Inv h asks_live f v = v
step-Inv h (closes ids code reason) f v = cut-Inv _ code reason h.clients h v
step-Inv h (asks_members room) f v = v

-- Every registration of a history is of a fresh sink.
abbrev pub AllFresh : Hub → List Cmd → Type 0
AllFresh h [] = Unit
AllFresh h (c ∷ cs) = IsFresh h c × AllFresh (step h c).0 cs

run_from-Inv : (h : Hub) (cs : List Cmd) → AllFresh h cs → Inv h → Inv (run h cs).0
unfolding run
run_from-Inv h [] f v = v
run_from-Inv h (c ∷ cs) f v = run_from-Inv (step h c).0 cs f.1 (step-Inv h c f.0 v)

-- After any history of commands from the start, in which no connection is registered while it is
-- already held, the maps of the hub agree and both caps hold.
pub run-Inv : (cs : List Cmd) → AllFresh new_hub cs → Inv (run new_hub cs).0
run-Inv cs f = run_from-Inv new_hub cs f new_hub-Inv
