-- ===== src/Realtime/Hub/Cutting.antt =====
-- Which clients a kick, a sweep's verdict and the shutdown cut, and what each of them is told.
use psycho_space.Prelude.{
  ℕ, ◌≡◌, refl, Bool, false, List, [], ◌∷◌, Option, none, some, arith, if◌then◌else◌, count_by,
}
use psycho_space.Prelude.Dict.{Dict, get, IsMap, tally}
use psycho_space.Realtime.Hub.Defs.{
  Client, Hub, Reason, remove, cut, kick, close_set, of_account, named, farewells,
}
use psycho_space.Realtime.Hub.Invariant.{Inv}
use psycho_space.Realtime.Hub.Preservation.{cut-Inv}
use psycho_space.Realtime.Hub.Fanout.{is_closed, is_some, get-remove}

-- Whether a sink is held and its client passes a test.
abbrev pub hit : (Client → Bool) → Option Client → Bool
hit test none = false
hit test (some c) = test c

-- A client that passes a test goes, another stays as it is.
abbrev pub unless : (Client → Bool) → Option Client → Option Client
unless test none = none
unless test (some c) = if test c then none else some c

module _ (test : Client → Bool) (code : ℕ) (reason : Reason) where
  get-cut :
      (k : ℕ) (m : Dict Client) (h : Hub)
      → IsMap m
      → get k (cut test code reason m h).0.clients
        ≡ (if hit test (get k m) then none else get k h.clients)
  unfolding cut get
  get-cut k [] h distinct = refl
  get-cut k ((j, c) ∷ m) h distinct =
      ground
        (arith, get-cut k m (remove j h) distinct.1, get-cut k m h distinct.1, get-remove j k h)

  closed-cut :
      (k : ℕ) (m : Dict Client) (h : Hub)
      → IsMap m
      → count_by (is_closed k) (cut test code reason m h).1 ≡ (if hit test (get k m) then 1 else 0)
  unfolding cut get count_by
  closed-cut k [] h distinct = refl
  closed-cut k ((j, c) ∷ m) h distinct =
      ground (arith, closed-cut k m (remove j h) distinct.1, closed-cut k m h distinct.1)

  get-cut_self :
      (k : ℕ) (h : Hub)
      → Inv h
      → get k (cut test code reason h.clients h).0.clients ≡ unless test (get k h.clients)
  get-cut_self k h v = ground (arith, get-cut k h.clients h v.distinct)

-- A kick cuts the clients of the account and no others, whatever their rooms.
pub get-kick :
    (a code k : ℕ) (reason : Reason) (h : Hub)
    → Inv h
    → (get k (kick a code reason h).0.clients ≡ unless (of_account a) (get k h.clients))
      × (count_by (is_closed k) (kick a code reason h).1
          ≡ (if hit (of_account a) (get k h.clients) then 1 else 0))
unfolding kick
get-kick a code k reason h v = (
  get-cut_self (of_account a) code reason k h v,
  closed-cut (of_account a) code reason k h.clients h v.distinct,
)

tally_zero :
    (p : Client → Bool) (m : Dict Client)
    → IsMap m
    → ((k : ℕ) → hit p (get k m) ≡ false)
    → tally p m ≡ 0
unfolding tally get
tally_zero p [] d h = refl
tally_zero p ((j, c) ∷ m) d h =
    ground (arith, h j, tally_zero p m d.1 (λ k. ground (arith, h k, d.0)))

-- After a kick the account has no connection left, and its counter is gone, so that it may connect
-- again up to the full cap.
pub kick_clears :
    (a code : ℕ) (reason : Reason) (h : Hub)
    → Inv h
    → (tally (of_account a) (kick a code reason h).0.clients ≡ 0)
      × (get a (kick a code reason h).0.per_account ≡ none)
unfolding kick
kick_clears a code reason h v = (cleared, gone)
  where
    after : Hub
    after = (cut (of_account a) code reason h.clients h).0

    still : Inv after
    still = cut-Inv (of_account a) code reason h.clients h v

    cleared : tally (of_account a) after.clients ≡ 0
    cleared =
        tally_zero (of_account a) after.clients still.distinct
          (λ k. ground (arith, get-cut_self (of_account a) code reason k h v))

    gone : get a after.per_account ≡ none
    gone = ground (arith, still.counted a, still.no_zero a, cleared)

-- A verdict over connection ids cuts the clients that hold one of them and no others, and tells each
-- of those once.
pub get-close_set :
    (ids : List ℕ) (code k : ℕ) (reason : Reason) (h : Hub)
    → Inv h
    → (get k (close_set ids code reason h).0.clients ≡ unless (named ids) (get k h.clients))
      × (count_by (is_closed k) (close_set ids code reason h).1
          ≡ (if hit (named ids) (get k h.clients) then 1 else 0))
unfolding close_set
get-close_set ids code k reason h v = (
  get-cut_self (named ids) code reason k h v,
  closed-cut (named ids) code reason k h.clients h v.distinct,
)

-- The shutdown tells every client once and nobody else.
pub closed-farewells :
    (k : ℕ) (m : Dict Client)
    → IsMap m
    → count_by (is_closed k) (farewells m) ≡ (if is_some (get k m) then 1 else 0)
unfolding farewells get count_by
closed-farewells k [] d = refl
closed-farewells k ((j, c) ∷ m) d = ground (arith, closed-farewells k m d.1, d.0)
