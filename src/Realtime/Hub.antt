-- ===== src/Realtime/Hub.antt =====
-- internal/realtime/hub.go: the goroutine `Run` that owns the clients, the rooms and the counters
-- by account. A command is one receive of its `select`; the maps are its local variables.
-- Texts that the hub only compares or passes on (ids, rooms, messages) are numbers. A sink's pointer
-- is its `key`. Whether a sink takes a message is the environment's answer, `takes`, one per command:
-- a command offers a message to each sink once.
pub mod Defs
pub mod Step
pub mod Index
pub mod Invariant
pub mod Preservation
pub mod Fanout
pub mod Cutting
pub mod Admission
