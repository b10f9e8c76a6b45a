-- ===== src/Realtime/Conn.antt =====
-- internal/realtime/conn.go: one connection's two queues and the pump that writes them.
-- The hub, the read pump and the write pump run at once; a history is a list of their steps in the
-- order in which they happen: a round of a pump touches the close channel once, so a request that
-- arrives during the round counts as coming after it. The socket library's answers (a write or a ping
-- that fails, a frame read, the limiter's verdict) come with the step.
pub mod Pump
pub mod Loss
pub mod Wire
pub mod Order
use psycho_space.Prelude.{
  ℕ, Bool, true, false, List, [], ◌∷◌, ◌++◌, Option, none, some, if◌then◌else◌, ltb, length,
}
use psycho_space.Realtime.Hub.Defs.{Reason, close_going_away, close_try_again_later}

abbrev pub default_send_buffer : ℕ
default_send_buffer = 64

-- What is handed to the socket: a message, or the frame that says why it goes away.
pub data Frame : Type 0 where
  message : ℕ → Frame
  bye : ℕ → Reason → Frame

-- Where the write pump stands: in its loop, in `windUp` waiting for a reason, or returned.
pub data Phase : Type 0 where
  pumping winding returned : Phase

pub record Conn : Type 0 where
  pub send : List ℕ  -- oldest first
  pub closing : Option (ℕ × Reason)
  pub close_once : Bool  -- whether closeOnce has fired
  pub reading : Bool  -- whether the read pump still runs
  pub phase : Phase
  pub taken : Option (ℕ × Reason)  -- what the write pump took from `closing`, its `cr`
  pub wire : List Frame  -- what was written, oldest first
  pub hard_closed : Bool

unfoldable pub new_conn : Conn
new_conn = record {
  send = [];
  closing = none;
  close_once = false;
  reading = true;
  phase = pumping;
  taken = none;
  wire = [];
  hard_closed = false;
}

-- `TrySend`
unfoldable pub try_send : ℕ → Conn → Conn × Bool
try_send msg c =
    if ltb (length c.send) default_send_buffer
    then (record c { send = c.send ++ msg ∷ [] }, true)
    else (c, false)

-- `Close`
unfoldable pub close : ℕ → Reason → Conn → Conn
close code reason c =
    if c.close_once then c else record c { closing = some (code, reason); close_once = true }

-- The pump returns, which runs its deferred `hardClose`.
abbrev pub leave : Conn → Conn
leave c = record c { phase = returned; hard_closed = true }

-- `writeBye`: the frame is written if it can be; a failure goes unnoticed.
abbrev pub write_bye : Bool → ℕ → Reason → List Frame → List Frame
write_bye true code reason wire = wire ++ bye code reason ∷ []
write_bye false code reason wire = wire

-- A close request taken from its channel: the bye is tried once and the pump returns.
abbrev pub say_bye : Bool → ℕ × Reason → Conn → Conn
say_bye written (code, reason) c = record c {
  closing = none;
  taken = some (code, reason);
  wire = write_bye written code reason c.wire;
  phase = returned;
  hard_closed = true;
}

-- What the second `select` of the loop finds ready.
pub data Ready : Type 0 where
  cancelled : Ready
  message_ready : Bool → Ready  -- whether the write succeeds
  ping_due : Bool → Ready  -- whether the ping succeeds

abbrev pub wind_up_unless : Bool → Conn → Conn
wind_up_unless true c = c
wind_up_unless false c = record c { phase = winding }

abbrev pub write_first : Bool → List ℕ → Conn → Conn
write_first written [] c = c
write_first written (msg ∷ rest) c =
    wind_up_unless written
      (record c { send = rest; wire = (if written then c.wire ++ message msg ∷ [] else c.wire) })

abbrev pub serve_ready : Ready → Conn → Conn
serve_ready cancelled c = record c { phase = winding }
serve_ready (message_ready written) c = write_first written c.send c
serve_ready (ping_due alive) c = wind_up_unless alive c

-- One round of `writePump`: a pending close outranks whatever else is ready. `told` says whether a
-- bye, if one is due, can be written.
abbrev pub round : Bool → Option (ℕ × Reason) → Ready → Conn → Conn
round told none ready c = serve_ready ready c
round told (some cr) ready c = say_bye told cr c

-- `windUp`: the bye of a reason that is there, or arrives within the grace, is tried; else none is.
abbrev pub wind_up : Bool → Option (ℕ × Reason) → Conn → Conn
wind_up told none c = leave c
wind_up told (some cr) c = say_bye told cr c

abbrev pub pump_in : Bool → Phase → Ready → Conn → Conn
pump_in told pumping ready c = round told c.closing ready c
pump_in told winding ready c = wind_up told c.closing c
pump_in told returned ready c = c

unfoldable pub pump : Bool → Ready → Conn → Conn
pump told ready c = pump_in told c.phase ready c

-- What `readPump` reads. The handler's own work is another package's.
pub data Read : Type 0 where
  failed : Read
  frame : Bool → Read  -- whether the limiter allows it

-- `readPump` has returned, and `Serve` asks for the close; the request is void if there was one.
abbrev pub stop_reading : Conn → Conn
stop_reading c = close close_going_away Reason.peer_closed (record c { reading = false })

abbrev pub read_frame : Read → Conn → Conn
read_frame failed c = stop_reading c
read_frame (frame true) c = c
read_frame (frame false) c = stop_reading (close close_try_again_later Reason.rate_limited c)

-- One round of `readPump`.
unfoldable pub read : Read → Conn → Conn
unfolding close
read r c = if c.reading then read_frame r c else c

pub data Action : Type 0 where
  offers : ℕ → Action
  asks_close : ℕ → Reason → Action
  reads : Read → Action
  pumps : Bool → Ready → Action

unfoldable pub act : Conn → Action → Conn
act c (offers msg) = (try_send msg c).0
act c (asks_close code reason) = close code reason c
act c (reads r) = read r c
act c (pumps told ready) = pump told ready c

unfoldable pub play : Conn → List Action → Conn
play c [] = c
play c (a ∷ rest) = play (act c a) rest
