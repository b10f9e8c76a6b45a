-- ===== src/GameVanyagotchi.antt =====
-- internal/gamevanyagotchi: the pet's decay and the fold of its events. The arithmetic of float64 and of
-- instants is the parameter `Floats`, and the catalogue of stats and actions is a parameter.
pub mod Numbers
pub mod Catalogue
pub mod Decay
pub mod Events
mod Examples
