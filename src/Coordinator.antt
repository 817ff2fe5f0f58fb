-- ===== src/Coordinator.antt =====
-- packages/coordinator/src/coordinator.ts: the class `Coordinator`, by the part of the storage that
-- its methods work on, and the queue of a subscription. The methods on key packages hand over to
-- the storage.
pub mod MessageQueue
pub mod Subscriptions
pub mod Welcomes
pub mod JoinRequests
