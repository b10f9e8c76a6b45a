-- ===== src/Session.antt =====
-- internal/session/session.go: server-side sessions over the table that its SQL statements read and
-- write. The keyed hash of a token is the parameter `hash`; `now()`, the drawn token and the generated
-- id are arguments. A token is a number, and 0 is the empty text.
pub mod Defs
pub mod Laws
mod Examples
