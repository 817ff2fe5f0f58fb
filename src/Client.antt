-- ===== src/Client.antt =====
-- The client (packages/cli/src).
pub mod PendingEpochOperations
pub mod Pubkey
pub mod GroupMetadata
pub mod AdminPolicy
pub mod GroupSync
pub mod MultiDevice
