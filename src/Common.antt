-- ===== src/Common.antt =====
-- extensions/common/context.{h,cc}: what the extensions read of a request and of its peer.
pub mod Properties
pub mod Request
pub mod Populate
pub mod Extended
pub mod Peer
pub mod Sanitize
pub mod Untrusted
mod Tests
