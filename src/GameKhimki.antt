-- ===== src/GameKhimki.antt =====
-- internal/gamekhimki: the dialogue game. A text is its runes. The character's profile, the provider's
-- answer, the reading of JSON and the lower case of a text are parameters.
pub mod Defs
pub mod Themes
pub mod Verse
pub mod Salvage
pub mod Turn
pub mod Window
pub mod Records
mod Examples
