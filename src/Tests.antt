-- ===== src/Tests.antt =====
-- Runs of the models on small inputs.
mod Messages
mod Inboxes
mod Packages
mod Requests
mod Epochs
mod References
mod Sqlite
mod Sync
mod Devices
mod Codecs
use cordn.Prelude.{string_eq}
mod Adapter
pub mod Streaming
