-- ===== src/Storage.antt =====
-- packages/coordinator/src/storage and the record types of packages/coordinator/src/types.ts.
-- `InMemoryCoordinatorStorage` keeps four maps. Each of them is modelled in a child module, whose
-- operations take the map and give it back changed.
pub mod Inbox
pub mod Simulation
pub mod Sqlite
pub mod KeyPackages
pub mod Welcomes
pub mod JoinRequests
pub mod Groups
