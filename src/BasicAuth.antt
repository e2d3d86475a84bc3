-- ===== src/BasicAuth.antt =====
-- extensions/basic_auth: HTTP basic authentication by method, host and path.
pub mod Strings
pub mod Find
pub mod Config
pub mod Check
pub mod Access
pub mod Ports
pub mod Setup
pub mod Defaults
pub mod Scan
mod Tests
