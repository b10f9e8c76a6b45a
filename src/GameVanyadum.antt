-- ===== src/GameVanyadum.antt =====
-- internal/gamevanyadum/history.go: the past that a shot is judged against. An instant is a number of
-- nanoseconds, a reference to a man or a creature is a number that tells both kinds apart, and the
-- arithmetic of a coordinate between two frames is the parameter `mix`.
pub mod History
pub mod Ring
pub mod Past
mod Examples
