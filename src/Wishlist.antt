-- ===== src/Wishlist.antt =====
-- internal/wishlist: ideas, comments and votes, over the four tables that its SQL statements read and
-- write. Ids and times are numbers, drawn by the database and handed in; a text is the list of its
-- bytes. `strings.TrimSpace` is a library's and stands as the parameter `trim`.
pub mod Defs
pub mod Service
pub mod Votes
pub mod Tallies
pub mod Order
pub mod Deletion
pub mod References
pub mod History
pub mod Creation
mod Examples
