-- ===== src/Realtime/Conn/Order.antt =====
-- Messages reach the wire in the order in which the queue took them, each at most once.
use mathlib.Core.List.{append_assoc, append-nil}
use psycho_space.Prelude.{
  ℕ, ◌≡◌, refl, sym, ◌∙◌, ap, inl, inr, Bool, true, false, List, [], ◌∷◌, ◌++◌, Option, none, some,
  arith, if◌then◌else◌, Bool-cases,
}
use psycho_space.Realtime.Hub.Defs.{Reason}
use psycho_space.Realtime.Conn.{
  Conn, message, bye, Phase, pumping, winding, returned, Ready, cancelled, message_ready, ping_due,
  failed, frame, Action, offers, asks_close, reads, pumps, new_conn, try_send, close, pump, read,
  act, play, say_bye, write_first, wind_up, serve_ready, round, pump_in,
}
use psycho_space.Realtime.Conn.Pump.{messages, accepted, messages-append}

-- What one step adds to the queue.
abbrev taken : Conn → Action → List ℕ
taken c (offers msg) = if (try_send msg c).1 then msg ∷ [] else []
taken c _ = []

accepted-cons :
    (c : Conn) (a : Action) (rest : List Action)
    → accepted c (a ∷ rest) ≡ taken c a ++ accepted (act c a) rest
unfolding accepted
accepted-cons c (offers msg) rest = ground arith
accepted-cons c (asks_close code reason) rest = refl
accepted-cons c (reads r) rest = refl
accepted-cons c (pumps told ready) rest = refl

abbrev is_pumping : Phase → Bool
is_pumping pumping = true
is_pumping winding = false
is_pumping returned = false

-- A step that leaves the pump in its loop moves messages from the queue to the wire and adds new ones
-- at the end; a step after which it is not in its loop writes no message.
abbrev Keeps : Conn → Conn → List ℕ → Type 0
Keeps c c' new =
    (is_pumping c'.phase ≡ true → messages c'.wire ++ c'.send ≡ messages c.wire ++ (c.send ++ new))
    × (is_pumping c'.phase ≡ false → messages c'.wire ≡ messages c.wire)

write_first-Keeps :
    (written : Bool) (queue : List ℕ) (c : Conn)
    → c.send ≡ queue
    → c.phase ≡ pumping
    → Keeps c (write_first written queue c) []
write_first-Keeps written [] c e p = (λ h. ground (arith, append-nil c.send), λ h. refl)
write_first-Keeps true (msg ∷ rest) c e p = (
  λ h. ground (
    arith,
    messages-append c.wire (message msg ∷ []),
    append_assoc (messages c.wire) (msg ∷ []) rest,
    append-nil (msg ∷ rest),
    e,
  ),
  λ h. ground (arith, p),
)
write_first-Keeps false (msg ∷ rest) c e p = (λ h. ground arith, λ h. refl)

serve_ready-Keeps :
    (ready : Ready) (c : Conn) → c.phase ≡ pumping → Keeps c (serve_ready ready c) []
serve_ready-Keeps cancelled c p = (λ h. ground arith, λ h. refl)
serve_ready-Keeps (message_ready written) c p = write_first-Keeps written c.send c refl p
serve_ready-Keeps (ping_due alive) c p = (λ h. ground (arith, append-nil c.send), λ h. ground arith)

say_bye-Keeps : (told : Bool) (cr : ℕ × Reason) (c : Conn) → Keeps c (say_bye told cr c) []
say_bye-Keeps true (code, reason) c = (
  λ h. ground arith,
  λ h. ground (arith, messages-append c.wire (bye code reason ∷ []), append-nil (messages c.wire)),
)
say_bye-Keeps false (code, reason) c = (λ h. ground arith, λ h. refl)

round-Keeps :
    (told : Bool) (closing : Option (ℕ × Reason)) (ready : Ready) (c : Conn)
    → c.phase ≡ pumping
    → Keeps c (round told closing ready c) []
round-Keeps told none ready c p = serve_ready-Keeps ready c p
round-Keeps told (some cr) ready c p = say_bye-Keeps told cr c

wind_up-Keeps :
    (told : Bool) (closing : Option (ℕ × Reason)) (c : Conn) → Keeps c (wind_up told closing c) []
wind_up-Keeps told none c = (λ h. ground arith, λ h. refl)
wind_up-Keeps told (some cr) c = say_bye-Keeps told cr c

pump_in-Keeps :
    (told : Bool) (phase : Phase) (ready : Ready) (c : Conn)
    → c.phase ≡ phase
    → Keeps c (pump_in told phase ready c) []
pump_in-Keeps told pumping ready c p = round-Keeps told c.closing ready c p
pump_in-Keeps told winding ready c p = wind_up-Keeps told c.closing c
pump_in-Keeps told returned ready c p = (λ h. ground arith, λ h. refl)

act-Keeps : (c : Conn) (a : Action) → Keeps c (act c a) (taken c a)
unfolding act try_send close read pump
act-Keeps c (offers msg) = (λ h. ground (arith, append-nil c.send), λ h. ground arith)
act-Keeps c (asks_close code reason) = (λ h. ground (arith, append-nil c.send), λ h. ground arith)
act-Keeps c (reads failed) = (λ h. ground (arith, append-nil c.send), λ h. ground arith)
act-Keeps c (reads (frame true)) = (λ h. ground (arith, append-nil c.send), λ h. ground arith)
act-Keeps c (reads (frame false)) = (λ h. ground (arith, append-nil c.send), λ h. ground arith)
act-Keeps c (pumps told ready) = pump_in-Keeps told c.phase ready c refl

act-is_pumping :
    (c : Conn) (a : Action) → is_pumping c.phase ≡ false → is_pumping (act c a).phase ≡ false
unfolding act try_send close read pump
act-is_pumping c (offers msg) h = ground arith
act-is_pumping c (asks_close code reason) h = ground arith
act-is_pumping c (reads failed) h = ground arith
act-is_pumping c (reads (frame true)) h = ground arith
act-is_pumping c (reads (frame false)) h = ground arith
act-is_pumping c (pumps told ready) h = ground arith

-- Once the pump has left its loop no message is written any more.
messages-play :
    (c : Conn) (acts : List Action)
    → is_pumping c.phase ≡ false
    → messages (play c acts).wire ≡ messages c.wire
unfolding play
messages-play c [] h = refl
messages-play c (a ∷ rest) h =
    messages-play (act c a) rest (act-is_pumping c a h) ∙ (act-Keeps c a).1 (act-is_pumping c a h)

play_from_prefix :
    (c : Conn) (acts : List Action)
    → (left : List ℕ) × (messages (play c acts).wire ++ left
        ≡ messages c.wire ++ (c.send ++ accepted c acts))
unfolding play accepted
play_from_prefix c [] = (c.send, ap (◌++◌ (messages c.wire)) (sym (append-nil c.send)))
play_from_prefix c (a ∷ rest) = elim (Bool-cases (is_pumping (act c a).phase)) [
  | inl on ↦
      let (left, e) = play_from_prefix (act c a) rest in
      (
        left,
        e
            ∙ sym (append_assoc (messages (act c a).wire) (act c a).send (accepted (act c a) rest))
            ∙ ap (λ l. l ++ accepted (act c a) rest) ((act-Keeps c a).0 on)
            ∙ append_assoc (messages c.wire) (c.send ++ taken c a) (accepted (act c a) rest)
            ∙ ap (◌++◌ (messages c.wire)) (
                append_assoc c.send (taken c a) (accepted (act c a) rest)
                ∙ ap (◌++◌ c.send) (sym (accepted-cons c a rest))),
      )
  | inr off ↦ (
    c.send ++ accepted c (a ∷ rest),
    ap (λ l. l ++ (c.send ++ accepted c (a ∷ rest)))
        (messages-play (act c a) rest off ∙ (act-Keeps c a).1 off),
  )
]

-- Over every history of a connection, the messages that were written are those that the queue took,
-- in that order and without a gap, up to some point: none is written twice, reordered or invented.
pub play_prefix :
    (acts : List Action)
    → (left : List ℕ) × (messages (play new_conn acts).wire ++ left ≡ accepted new_conn acts)
unfolding new_conn
play_prefix acts = play_from_prefix new_conn acts
