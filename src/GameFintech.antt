-- ===== src/GameFintech.antt =====
-- internal/gamefintech: the office's navigation grid.
pub mod Grid
pub mod Counting
pub mod Flood
pub mod Spread
pub mod Rings
pub mod Searched
pub mod OnePlace
pub mod Navigate
pub mod Labels
pub mod Beside
pub mod Step
pub mod Route
pub mod Levels
pub mod Chase
pub mod Pursuit
mod Examples
