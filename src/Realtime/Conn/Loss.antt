-- ===== src/Realtime/Conn/Loss.antt =====
-- internal/realtime/conn.go: a bye that was due is on the wire unless its write failed.
use psycho_space.Prelude.{
  ℕ, ◌&&◌, not, ◌||◌, inr, ◌≡◌, refl, ◌⊎◌, Bool, true, false, List, [], ◌∷◌, Option, none, some,
  arith,
}
use psycho_space.Realtime.Hub.Defs.{Reason}
use psycho_space.Realtime.Conn.{
  Conn, message, bye, Phase, pumping, winding, returned, Ready, cancelled, message_ready, ping_due,
  failed, frame, Action, offers, asks_close, reads, pumps, try_send, close, pump, read, act, play,
  leave, say_bye, write_first, wind_up, serve_ready, round, pump_in,
}
use psycho_space.Realtime.Conn.Pump.{Inv, bye_of, bye_of-append, act-Inv}

-- A request is pending before a pump that has not returned.
abbrev is_due : Phase → Option (ℕ × Reason) → Bool
is_due pumping none = false
is_due winding none = false
is_due returned none = false
is_due pumping (some cr) = true
is_due winding (some cr) = true
is_due returned (some cr) = false

-- A bye is due and cannot be written.
abbrev fails : Conn → Action → Bool
fails c (offers msg) = false
fails c (asks_close code reason) = false
fails c (reads r) = false
fails c (pumps told ready) = not told && is_due c.phase c.closing

-- In some round of a history from a state a bye was due and could not be written.
unfoldable pub is_lossy : Conn → List Action → Bool
is_lossy c [] = false
is_lossy c (a ∷ rest) = let later = is_lossy (act c a) rest in fails c a || later

-- The request that the pump took has been told, or a bye was lost.
abbrev pub Told : Bool → Conn → Type 0
Told lossy c = (bye_of c.wire ≡ c.taken) ⊎ (lossy ≡ true)

write_first-Told :
    (lossy written : Bool) (queue : List ℕ) (c : Conn)
    → Told lossy c
    → Told lossy (write_first written queue c)
write_first-Told lossy written [] c h = h
write_first-Told lossy written (msg ∷ rest) c h =
    ground (arith, bye_of-append c.wire (message msg ∷ []))

serve_ready-Told :
    (lossy : Bool) (ready : Ready) (c : Conn) → Told lossy c → Told lossy (serve_ready ready c)
serve_ready-Told lossy cancelled c h = h
serve_ready-Told lossy (message_ready written) c h = write_first-Told lossy written c.send c h
serve_ready-Told lossy (ping_due alive) c h = ground arith

Told-weaken : (lossy more : Bool) (c : Conn) → Told lossy c → Told (lossy || more) c
Told-weaken lossy more c h = ground arith

say_bye-Told :
    (lossy told : Bool) (cr : ℕ × Reason) (c : Conn)
    → bye_of c.wire ≡ none
    → Told (lossy || not told) (say_bye told cr c)
say_bye-Told lossy true (code, reason) c e =
    ground (arith, e, bye_of-append c.wire (bye code reason ∷ []))
say_bye-Told lossy false (code, reason) c e = inr (ground arith)

round-Told :
    (lossy told : Bool) (closing : Option (ℕ × Reason)) (ready : Ready) (c : Conn)
    → bye_of c.wire ≡ none
    → Told lossy c
    → Told (lossy || not told && is_due pumping closing) (round told closing ready c)
round-Told lossy told none ready c e h =
    Told-weaken lossy (not told && false) (serve_ready ready c) (serve_ready-Told lossy ready c h)
round-Told lossy told (some cr) ready c e h = ground (arith, say_bye-Told lossy told cr c e)

wind_up-Told :
    (lossy told : Bool) (closing : Option (ℕ × Reason)) (c : Conn)
    → bye_of c.wire ≡ none
    → Told lossy c
    → Told (lossy || not told && is_due winding closing) (wind_up told closing c)
wind_up-Told lossy told none c e h = Told-weaken lossy (not told && false) (leave c) h
wind_up-Told lossy told (some cr) c e h = ground (arith, say_bye-Told lossy told cr c e)

pump_in-Told :
    (lossy told : Bool) (phase : Phase) (ready : Ready) (c : Conn)
    → c.phase ≡ phase
    → Inv c
    → Told lossy c
    → Told (lossy || not told && is_due phase c.closing) (pump_in told phase ready c)
pump_in-Told lossy told pumping ready c p v h =
    round-Told lossy told c.closing ready c (ground (arith, p, v.silent)) h
pump_in-Told lossy told winding ready c p v h =
    wind_up-Told lossy told c.closing c (ground (arith, p, v.silent)) h
pump_in-Told lossy told returned ready c p v h = ground arith

act-Told :
    (lossy : Bool) (c : Conn) (a : Action)
    → Inv c
    → Told lossy c
    → Told (lossy || fails c a) (act c a)
unfolding act try_send close read pump
act-Told lossy c (offers msg) v h = ground arith
act-Told lossy c (asks_close code reason) v h = ground arith
act-Told lossy c (reads failed) v h = ground arith
act-Told lossy c (reads (frame true)) v h = ground arith
act-Told lossy c (reads (frame false)) v h = ground arith
act-Told lossy c (pumps told ready) v h = pump_in-Told lossy told c.phase ready c refl v h

pub play-Told :
    (lossy : Bool) (c : Conn) (acts : List Action)
    → Inv c
    → Told lossy c
    → Told (lossy || is_lossy c acts) (play c acts)
unfolding play is_lossy
play-Told lossy c [] v h = Told-weaken lossy false c h
play-Told lossy c (a ∷ rest) v h =
    ground
      (arith, act-Told lossy c a v h, play-Told (lossy || fails c a) (act c a) rest (act-Inv c a v))
