-- ===== src/Realtime/Conn/Pump.antt =====
-- What a peer sees on the wire, over every interleaving of the hub, the read pump and the write pump.
use psycho_space.Prelude.{
  ℕ, ◌≤◌, ◌≡◌, refl, ap, ◌≢◌, ◌⊎◌, Bool, true, false, List, [], ◌∷◌, ◌++◌, Option, none, some,
  arith, if◌then◌else◌, length, length-append, count_by, count_by-append,
}
use psycho_space.Realtime.Hub.Defs.{Reason, close_going_away, close_try_again_later}
use psycho_space.Realtime.Conn.{
  Conn, Frame, message, bye, Phase, pumping, winding, returned, Ready, cancelled, message_ready,
  ping_due, failed, frame, Action, offers, asks_close, reads, pumps, new_conn, try_send, close,
  pump, read, act, play, default_send_buffer, say_bye, write_first, wind_up, serve_ready, round,
  pump_in,
}

abbrev pub is_bye : Frame → Bool
is_bye (message m) = false
is_bye (bye code reason) = true

-- The messages on the wire, oldest first.
abbrev pub messages : List Frame → List ℕ
messages [] = []
messages (message m ∷ fs) = m ∷ messages fs
messages (bye code reason ∷ fs) = messages fs

-- What the queue took, oldest first.
unfoldable pub accepted : Conn → List Action → List ℕ
accepted c [] = []
accepted c (offers msg ∷ rest) =
    let later = accepted (act c (offers msg)) rest in
    if (try_send msg c).1 then msg ∷ later else later
accepted c (asks_close code reason ∷ rest) = accepted (act c (asks_close code reason)) rest
accepted c (reads r ∷ rest) = accepted (act c (reads r)) rest
accepted c (pumps told ready ∷ rest) = accepted (act c (pumps told ready)) rest

-- The reason on the wire, and the first one that anybody asked for.
abbrev pub bye_of : List Frame → Option (ℕ × Reason)
bye_of [] = none
bye_of (message m ∷ fs) = bye_of fs
bye_of (bye code reason ∷ fs) = some (code, reason)

abbrev pub asked : Action → Option (ℕ × Reason)
asked (offers msg) = none
asked (asks_close code reason) = some (code, reason)
asked (reads failed) = some (close_going_away, Reason.peer_closed)
asked (reads (frame true)) = none
asked (reads (frame false)) = some (close_try_again_later, Reason.rate_limited)
asked (pumps told ready) = none

abbrev pub or_else : Option (ℕ × Reason) → Option (ℕ × Reason) → Option (ℕ × Reason)
or_else none o = o
or_else (some cr) o = some cr

abbrev pub first_asked : List Action → Option (ℕ × Reason)
first_asked [] = none
first_asked (a ∷ rest) = or_else (asked a) (first_asked rest)

pub bye_of-append : (fs gs : List Frame) → bye_of (fs ++ gs) ≡ or_else (bye_of fs) (bye_of gs)
bye_of-append [] gs = refl
bye_of-append (message m ∷ fs) gs = bye_of-append fs gs
bye_of-append (bye code reason ∷ fs) gs = refl

pub messages-append : (fs gs : List Frame) → messages (fs ++ gs) ≡ messages fs ++ messages gs
messages-append [] gs = refl
messages-append (message m ∷ fs) gs = ap (◌∷◌ m) (messages-append fs gs)
messages-append (bye code reason ∷ fs) gs = messages-append fs gs

abbrev bye_count : List Frame → ℕ
bye_count = count_by is_bye

-- Between two steps: the queue is within its bound; at most one bye was written, by a pump that has
-- returned, and it is that of the request which the pump took; the socket is torn down once the pump
-- has returned; a request to close is pending or was taken exactly if `closeOnce` has fired, and never
-- both.
pub record Inv (c : Conn) : Type 0 where
  pub bounded : length c.send ≤ default_send_buffer
  pub one_bye : count_by is_bye c.wire ≤ 1
  pub bye_last : c.phase ≢ returned → count_by is_bye c.wire ≡ 0
  pub torn_down : c.phase ≡ returned → c.hard_closed ≡ true
  pub unasked : c.close_once ≡ false → (c.closing ≡ none) × (c.taken ≡ none) × (c.reading ≡ true)
  pub pending : c.close_once ≡ true → (c.closing ≢ none) ⊎ (c.taken ≢ none)
  pub apart : c.closing ≢ none → c.taken ≡ none
  pub silent : c.phase ≢ returned → (c.taken ≡ none) × (bye_of c.wire ≡ none)
  pub truthful : (bye_of c.wire ≡ none) ⊎ (bye_of c.wire ≡ c.taken)

pub new_conn-Inv : Inv new_conn
unfolding new_conn count_by
new_conn-Inv = ground arith

say_bye-Inv :
    (told : Bool) (code : ℕ) (reason : Reason) (c : Conn)
    → c.phase ≢ returned
    → c.close_once ≡ true
    → Inv c
    → Inv (say_bye told (code, reason) c)
unfolding count_by
say_bye-Inv true code reason c going fired v = ground (
  arith,
  count_by-append is_bye c.wire (bye code reason ∷ []),
  bye_of-append c.wire (bye code reason ∷ []),
  going,
)
say_bye-Inv false code reason c going fired v = ground (arith, going)

write_first-Inv :
    (written : Bool) (queue : List ℕ) (c : Conn)
    → c.send ≡ queue
    → c.phase ≡ pumping
    → Inv c
    → Inv (write_first written queue c)
unfolding count_by
write_first-Inv written [] c e p v = v
write_first-Inv written (msg ∷ rest) c e p v = ground (
  arith,
  count_by-append is_bye c.wire (message msg ∷ []),
  bye_of-append c.wire (message msg ∷ []),
  ap length e,
)

serve_ready-Inv : (ready : Ready) (c : Conn) → c.phase ≡ pumping → Inv c → Inv (serve_ready ready c)
serve_ready-Inv cancelled c p v = ground arith
serve_ready-Inv (message_ready written) c p v = write_first-Inv written c.send c refl p v
serve_ready-Inv (ping_due alive) c p v = ground arith

round-Inv :
    (told : Bool) (closing : Option (ℕ × Reason)) (ready : Ready) (c : Conn)
    → c.closing ≡ closing
    → c.phase ≡ pumping
    → Inv c
    → Inv (round told closing ready c)
round-Inv told none ready c e p v = serve_ready-Inv ready c p v
round-Inv told (some (code, reason)) ready c e p v =
    say_bye-Inv told code reason c (ground (arith, p)) (ground (arith, v.unasked, e)) v

wind_up-Inv :
    (told : Bool) (closing : Option (ℕ × Reason)) (c : Conn)
    → c.closing ≡ closing
    → c.phase ≡ winding
    → Inv c
    → Inv (wind_up told closing c)
wind_up-Inv told none c e p v = ground arith
wind_up-Inv told (some (code, reason)) c e p v =
    say_bye-Inv told code reason c (ground (arith, p)) (ground (arith, v.unasked, e)) v

pump_in-Inv :
    (told : Bool) (phase : Phase) (ready : Ready) (c : Conn)
    → c.phase ≡ phase
    → Inv c
    → Inv (pump_in told phase ready c)
pump_in-Inv told pumping ready c p v = round-Inv told c.closing ready c refl p v
pump_in-Inv told winding ready c p v = wind_up-Inv told c.closing c refl p v
pump_in-Inv told returned ready c p v = v

pub act-Inv : (c : Conn) (a : Action) → Inv c → Inv (act c a)
unfolding act try_send close read pump
act-Inv c (offers msg) v = ground (arith, length-append c.send (msg ∷ []))
act-Inv c (asks_close code reason) v = ground arith
act-Inv c (reads failed) v = ground arith
act-Inv c (reads (frame true)) v = ground arith
act-Inv c (reads (frame false)) v = ground arith
act-Inv c (pumps told ready) v = pump_in-Inv told c.phase ready c refl v

pub play_from-Inv : (c : Conn) (acts : List Action) → Inv c → Inv (play c acts)
unfolding play
play_from-Inv c [] v = v
play_from-Inv c (a ∷ rest) v = play_from-Inv (act c a) rest (act-Inv c a v)
