-- ===== src/Lib.antt =====
-- psycho-space: models of the server's core logic and what is proved of them.
--
-- What the program is: one Go binary that serves a gated community app (internal/httpapi) over
-- PostgreSQL, with a WebSocket layer (internal/realtime) under its games.
--
-- Files:
--   Prelude, Prelude/*      shared names, Boolean tests on numbers, counted lists, maps (Dict), texts,
--                           sorting.
--   Realtime/Hub/*          internal/realtime/hub.go. Defs has the maps of Hub.Run and one function for
--                           each branch of its select (remove, deliver, register, publish, ...); Step has
--                           the commands and the loop.
--   Realtime/Revalidate     internal/realtime/revalidate.go: SessionCheck.Revoked and the sweep.
--   Realtime/Conn           internal/realtime/conn.go: TrySend, Close, the two pumps as steps.
--   Account/Rows            internal/account/postgres_repository.go, the table and its statements.
--   Account/Service         internal/account/service.go; Laws, Login and Forget prove.
--   Session/Defs            internal/session/session.go; Laws proves.
--   HttpApi/Auth            internal/httpapi/auth.go, the three gates; Gate proves.
--   HttpApi/Admin           internal/httpapi/admin.go, the five routes that change an account; Effects,
--                           Authority, Root and Refusal prove.
--   Wishlist/Defs           internal/wishlist/postgres_repository.go; Service is service.go; the others prove.
--   GameFintech/Grid        internal/gamefintech/navigate.go, validate.go: the flood fill; Counting, Flood,
--                           Spread, Rings, Searched and OnePlace prove.
--   GameFintech/Navigate    internal/gamefintech/navigate.go, the pursuer's search; Labels, Beside, Step,
--                           Route, Levels, Chase and Pursuit prove.
--   GameKhimki/*            internal/gamekhimki: Defs has the types; Themes, Verse, Salvage and Turn are
--                           the judge of llm.go, Window what it sends again; Records is service.go with
--                           the statements of postgres_repository.go. The child modules prove.
--   GameVanyagotchi/*       internal/gamevanyagotchi: Numbers is the interface of float64 and of instants,
--                           Catalogue content.go, Decay decay.go, Events event.go with the batch of
--                           service.go in Events/Replay; the other child modules prove.
--   GameVanyadum/*          internal/gamevanyadum/history.go: History; Ring and Past prove.
--   */Examples              the theorems at concrete inputs.
--
-- How it is modelled: texts that the code only compares or passes on (ids, rooms, messages) are natural
-- numbers, with 0 for the empty text where the code tests for it; Go's maps are association lists; a
-- handler returns the new state with what it did to the outside. Goroutines are interleaved steps. The
-- admin routes reach the hub by its channel of kicks: World holds what stands there, and kick_cmds of
-- HttpApi/Admin is what the hub takes up.
--
-- The texts that the dialogue game reads are lists of runes; what JSON makes of them, the lower case of a
-- text and the language model are parameters of its functions. The pet's arithmetic is an interface, of
-- which only the order of finite numbers is used by the proofs; its catalogue is a parameter, and so are
-- the rules about the world in the loop of a batch.
--
-- Fuel: the flood fill of a floor and the pursuer's search have 1409 rounds, one more than the grid has
-- cells; their theorems hold without a condition on the fuel, since the proofs show that it is never
-- spent. The loop that collapses blank lines has as many rounds as its text has runes, and each round
-- shortens the text. Every other loop is structural.
--
-- Not modelled: HTTP and JSON encoding, SQL drivers, configuration and logging, the prompts of the
-- dialogue game, the world that pets walk in, the two games' floating-point geometry, the browser code.
pub mod Account
pub mod GameFintech
pub mod GameKhimki
pub mod GameVanyadum
pub mod GameVanyagotchi
pub mod HttpApi
pub mod Prelude
pub mod Realtime
pub mod Session
pub mod Wishlist
