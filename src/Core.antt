-- ===== src/Core.antt =====
-- What server and client share (packages/core/src).
pub mod GroupRef
pub mod MlsCodec
pub mod LastResortKeyPackage
