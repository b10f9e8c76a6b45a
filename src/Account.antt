-- ===== src/Account.antt =====
-- internal/account: the allowlist of accounts, over the table that its SQL statements read and write.
-- A statement is a function on the list of rows; `now()` and generated ids are arguments. Ciphertexts,
-- blind indexes and texts are numbers, 0 the empty text.
pub mod Rows
pub mod Service
pub mod Laws
pub mod Login
pub mod Forget
pub mod Examples
