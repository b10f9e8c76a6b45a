-- ===== src/Realtime/Examples.antt =====
-- The theorems of the realtime layer at concrete inputs, and runs of the definitions.
use psycho_space.Prelude.{
  ℕ, ◌+◌, ◌≡◌, refl, ◌⊎◌, true, false, List, [], ◌∷◌, ◌++◌, none, some, arith, count_by, contains,
}
use psycho_space.Prelude.Dict.{get, put, tally}
use psycho_space.Realtime.Hub.Defs.{
  room_of, or_zero, Sink, Client, Hub, Reason, register, new_hub, publish, kick, of_account, live,
  registered, join_room, close_unauthorized, deliver_all, deliver, deliver_to,
}
use psycho_space.Realtime.Hub.Step.{registers, publishes, kicks, run, step}
use psycho_space.Realtime.Hub.Invariant.{Inv}
use psycho_space.Realtime.Hub.Preservation.{run-Inv, register-Inv, new_hub-Inv}
use psycho_space.Realtime.Hub.Fanout.{get-publish, is_closed}
use psycho_space.Realtime.Hub.Cutting.{kick_clears}
use psycho_space.Realtime.Hub.Admission.{register_lem, is_full}
use psycho_space.Realtime.Revalidate.{sweep}
use psycho_space.Realtime.Revalidate.Sweep.{sweep_lem}
use psycho_space.Realtime.Conn.{
  Conn, pumping, Action, offers, asks_close, pumps, message_ready, new_conn, play, act, returned,
  try_send, close, pump,
}
use psycho_space.Realtime.Conn.Pump.{messages, accepted, bye_of, first_asked}
use psycho_space.Realtime.Conn.Loss.{is_lossy}
use psycho_space.Realtime.Conn.Wire.{play_reason, play-Inv}
use psycho_space.Realtime.Conn.Pump
use psycho_space.Realtime.Conn.Order.{play_prefix}

abbrev phone : Sink
phone = record { key = 1; id = 11; account_id = 5; session_id = 7 }

abbrev laptop : Sink
laptop = record { key = 2; id = 12; account_id = 6; session_id = 8 }

abbrev phone_client : Client
phone_client = record { sink = phone; room = 9; overflows = 0 }

-- A hub with the phone in room 9.
abbrev crowd : Hub
crowd = record {
  clients = (1, phone_client) ∷ [];
  rooms = (9, 1 ∷ []) ∷ [];
  per_account = (5, 1) ∷ [];
  max_per_account = 3;
  max_total = 200;
}

crowd_eq : (register phone 9 new_hub).0 ≡ crowd
unfolding register new_hub get put join_room contains
crowd_eq = refl

crowd-Inv : Inv crowd
unfolding register new_hub get put join_room contains
crowd-Inv = register-Inv phone 9 new_hub refl new_hub-Inv

run-Inv_example :
    Inv
      (run new_hub (
        registers phone 9
        ∷ registers laptop 9
        ∷ publishes (λ _. false) 9 100
        ∷ kicks 5 close_unauthorized Reason.unauthorized
        ∷ [])).0
unfolding step register new_hub get put publish deliver_all deliver deliver_to
run-Inv_example =
    run-Inv
      (registers phone 9
        ∷ registers laptop 9
        ∷ publishes (λ _. false) 9 100
        ∷ kicks 5 close_unauthorized Reason.unauthorized
        ∷ [])
      (refl, (refl, (tt, (tt, tt))))

get-publish_example :
    get 1 (publish (λ _. false) 9 100 crowd).0.clients
    ≡ some (record phone_client { overflows = 1 })
unfolding get
get-publish_example = get-publish (λ _. false) 9 100 crowd crowd-Inv 1

kick_clears_example :
    (tally (of_account 5) (kick 5 close_unauthorized Reason.unauthorized crowd).0.clients ≡ 0)
    × (get 5 (kick 5 close_unauthorized Reason.unauthorized crowd).0.per_account ≡ none)
kick_clears_example = kick_clears 5 close_unauthorized Reason.unauthorized crowd crowd-Inv

register_lem_example :
    ((register laptop 9 crowd).1 ≡ registered none ∷ [])
    × (get 2 (register laptop 9 crowd).0.clients
        ≡ some (record { sink = laptop; room = 9; overflows = 0 }))
    × (contains 2 (room_of 9 (register laptop 9 crowd).0.rooms) ≡ true)
    × (or_zero (get laptop.account_id (register laptop 9 crowd).0.per_account)
        ≡ or_zero (get laptop.account_id crowd.per_account) + 1)
    × (is_full laptop crowd ≡ true → (register laptop 9 crowd).0 ≡ crowd)
unfolding tally get contains
register_lem_example = register_lem laptop 9 2 9 laptop.account_id crowd crowd-Inv

sweep_lem_example :
    (get 1 (sweep (λ _. some (7 ∷ [])) crowd crowd).0.clients ≡ none)
    × (count_by (is_closed 1) (sweep (λ _. some (7 ∷ [])) crowd crowd).1 ≡ 1)
unfolding live get contains
sweep_lem_example =
    sweep_lem (λ _. some (7 ∷ [])) crowd crowd (7 ∷ []) 1 crowd-Inv refl
      (λ c e. (λ p. ground (arith, e), tt))

abbrev farewell : List Action
farewell =
    offers 100
    ∷ offers 101
    ∷ pumps true (message_ready true)
    ∷ asks_close close_unauthorized Reason.unauthorized
    ∷ asks_close 1001 Reason.restart
    ∷ pumps true (message_ready true)
    ∷ []

play_reason_example :
    let c = play new_conn farewell in
    ((c.closing ≡ some (close_unauthorized, Reason.unauthorized))
      × (c.taken ≡ none)
      × (bye_of c.wire ≡ none))
    ⊎ ((c.closing ≡ none)
        × (c.taken ≡ some (close_unauthorized, Reason.unauthorized))
        × (c.phase ≡ returned)
        × ((bye_of c.wire ≡ some (close_unauthorized, Reason.unauthorized))
            ⊎ ((bye_of c.wire ≡ none) × (false ≡ true))))
unfolding is_lossy new_conn act try_send close pump
play_reason_example = play_reason farewell

play-Inv_example : Pump.Inv (play new_conn farewell)
play-Inv_example = play-Inv farewell

abbrev asked_conn : Conn
asked_conn = record {
  send = 100 ∷ [];
  closing = some (1001, Reason.restart);
  close_once = true;
  reading = true;
  phase = pumping;
  taken = none;
  wire = [];
  hard_closed = false;
}

play_prefix_example :
    (left : List ℕ) × (messages (play new_conn farewell).wire ++ left ≡ 100 ∷ 101 ∷ [])
unfolding accepted new_conn act try_send
play_prefix_example = play_prefix farewell
