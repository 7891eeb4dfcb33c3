-- ===== src/Tests.antt =====
-- Runs of the model at concrete inputs.
pub mod Fixtures
pub mod Merge
pub mod Store
pub mod Sync
pub mod Deleted
pub mod Account
pub mod Settings
pub mod AddressBook
pub mod Requests
pub mod Cards
pub mod Secrets
pub mod Pacing
pub mod Prompt
pub mod Machine
pub mod Daemon
pub mod Init
pub mod Notes
pub mod Slots
pub mod Settled
