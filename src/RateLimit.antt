-- ===== src/RateLimit.antt =====
-- extensions/local_rate_limit: a token bucket in data that all the plugin's VMs share.
pub mod Shared
pub mod Bucket
pub mod System
pub mod Reads
pub mod Steps
pub mod RefillSteps
pub mod Invariant
pub mod Limits
pub mod Initialize
pub mod Alone
pub mod Refills
pub mod Contention
pub mod Plugin
pub mod Config
pub mod Requests
pub mod Memory
mod Tests
