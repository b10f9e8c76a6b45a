-- ===== src/HttpApi.antt =====
-- internal/httpapi: who may do what, and the handlers that change accounts.
pub mod Auth
pub mod Gate
pub mod Admin
pub mod Authority
pub mod Effects
pub mod Root
pub mod Refusal
mod Examples
