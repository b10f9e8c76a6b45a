-- ===== src/Realtime/Conn/Wire.antt =====
-- Over every interleaving: which reason a peer is told, and which messages it receives in which order.
use psycho_space.Prelude.{
  ℕ, if◌then◌else◌, inl, ◌≡◌, refl, sym, ◌∙◌, ap, ◌≢◌, ◌⊎◌, Bool, true, false, List, [], ◌∷◌, ◌++◌,
  Option, none, some, arith,
}
use psycho_space.Realtime.Hub.Defs.{Reason}
use psycho_space.Realtime.Conn.{
  Conn, bye, Phase, pumping, winding, returned, Ready, cancelled, message_ready, ping_due, failed,
  frame, Action, offers, asks_close, reads, pumps, new_conn, try_send, close, pump, read, act, play,
  say_bye, write_first, wind_up, serve_ready, round, pump_in,
}
use psycho_space.Realtime.Conn.Loss.{is_lossy, play-Told}
use psycho_space.Realtime.Conn.Pump.{
  Inv, bye_of, asked, or_else, first_asked, act-Inv, play_from-Inv, new_conn-Inv,
}

-- The reason that is pending, or was taken by the pump.
abbrev verdict : Conn → Option (ℕ × Reason)
verdict c = or_else c.closing c.taken

write_first-verdict :
    (written : Bool) (queue : List ℕ) (c : Conn) → verdict (write_first written queue c) ≡ verdict c
write_first-verdict written [] c = refl
write_first-verdict written (msg ∷ rest) c = ground arith

serve_ready-verdict : (ready : Ready) (c : Conn) → verdict (serve_ready ready c) ≡ verdict c
serve_ready-verdict cancelled c = refl
serve_ready-verdict (message_ready written) c = write_first-verdict written c.send c
serve_ready-verdict (ping_due alive) c = ground arith

say_bye-verdict :
    (told : Bool) (cr : ℕ × Reason) (c : Conn)
    → c.closing ≡ some cr
    → verdict (say_bye told cr c) ≡ verdict c
say_bye-verdict told (code, reason) c e = ground arith

round-verdict :
    (told : Bool) (closing : Option (ℕ × Reason)) (ready : Ready) (c : Conn)
    → c.closing ≡ closing
    → verdict (round told closing ready c) ≡ verdict c
round-verdict told none ready c e = serve_ready-verdict ready c
round-verdict told (some cr) ready c e = say_bye-verdict told cr c e

wind_up-verdict :
    (told : Bool) (closing : Option (ℕ × Reason)) (c : Conn)
    → c.closing ≡ closing
    → verdict (wind_up told closing c) ≡ verdict c
wind_up-verdict told none c e = refl
wind_up-verdict told (some cr) c e = say_bye-verdict told cr c e

pump_in-verdict :
    (told : Bool) (phase : Phase) (ready : Ready) (c : Conn)
    → verdict (pump_in told phase ready c) ≡ verdict c
pump_in-verdict told pumping ready c = round-verdict told c.closing ready c refl
pump_in-verdict told winding ready c = wind_up-verdict told c.closing c refl
pump_in-verdict told returned ready c = refl

act-verdict : (c : Conn) (a : Action) → Inv c → verdict (act c a) ≡ or_else (verdict c) (asked a)
unfolding act try_send close read pump
act-verdict c (offers msg) v = ground arith
act-verdict c (asks_close code reason) v = ground arith
act-verdict c (reads failed) v = ground arith
act-verdict c (reads (frame true)) v = ground arith
act-verdict c (reads (frame false)) v = ground arith
act-verdict c (pumps told ready) v = ground (arith, pump_in-verdict told c.phase ready c)

or_else_assoc : (a b c : Option (ℕ × Reason)) → or_else (or_else a b) c ≡ or_else a (or_else b c)
or_else_assoc none b c = refl
or_else_assoc (some x) b c = refl

or_else-none : (a : Option (ℕ × Reason)) → or_else a none ≡ a
or_else-none none = refl
or_else-none (some x) = refl

play-verdict :
    (c : Conn) (acts : List Action)
    → Inv c
    → verdict (play c acts) ≡ or_else (verdict c) (first_asked acts)
unfolding play
play-verdict c [] v = sym (or_else-none (verdict c))
play-verdict c (a ∷ rest) v =
    play-verdict (act c a) rest (act-Inv c a v)
    ∙ ap (λ o. or_else o (first_asked rest)) (act-verdict c a v)
    ∙ or_else_assoc (verdict c) (asked a) (first_asked rest)

-- Over every history of a connection, the first request to close is the one that counts: it is
-- pending and no bye was written; or the write pump has taken it and returned, nothing is pending, and
-- the bye that was written is its, or none was because its write failed. So a peer is never told a
-- later reason, nor two.
pub play_reason :
    (acts : List Action)
    → let c = play new_conn acts in
      ((c.closing ≡ first_asked acts) × (c.taken ≡ none) × (bye_of c.wire ≡ none))
      ⊎ ((c.closing ≡ none)
          × (c.taken ≡ first_asked acts)
          × (c.phase ≡ returned)
          × ((bye_of c.wire ≡ first_asked acts)
              ⊎ ((bye_of c.wire ≡ none) × (is_lossy new_conn acts ≡ true))))
unfolding new_conn
play_reason acts =
    let c = play new_conn acts in
    let v = play_from-Inv new_conn acts new_conn-Inv in
    ground (
      arith,
      play-verdict new_conn acts new_conn-Inv,
      play-Told false new_conn acts new_conn-Inv (inl refl),
      v.apart,
      v.silent,
      v.truthful,
    )

-- The bound of the queue and the single bye hold after every history, and the socket is torn down
-- whenever the write pump has returned.
pub play-Inv : (acts : List Action) → Inv (play new_conn acts)
play-Inv acts = play_from-Inv new_conn acts new_conn-Inv

-- A write pump that has not returned and has a request to close pending tries its bye in its next
-- round and returns, however many messages are queued and whatever else is ready.
pub pump_says_bye :
    (c : Conn) (told : Bool) (ready : Ready) (code : ℕ) (reason : Reason)
    → c.phase ≢ returned
    → c.closing ≡ some (code, reason)
    → ((pump told ready c).wire ≡ (if told then c.wire ++ bye code reason ∷ [] else c.wire))
      × ((pump told ready c).phase ≡ returned)
      × ((pump told ready c).hard_closed ≡ true)
unfolding pump
pump_says_bye c told ready code reason going e = ground (arith, going)
