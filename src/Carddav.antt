-- ===== src/Carddav.antt =====
-- internal/carddav/client.go: the contacts of an address book.
pub mod Interface
pub mod Client
pub mod Transport
