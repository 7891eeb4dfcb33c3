-- ===== src/Protonmail.antt =====
-- internal/protonmail: the contacts of a Proton account.
pub mod Interface
pub mod Cards
pub mod Client
pub mod Limiter
pub mod Login
pub mod Transport
