-- ===== src/Opa.antt =====
-- extensions/open_policy_agent: a check of requests by an Open Policy Agent server, with a cache of
-- its answers.
pub mod Cache
pub mod Links
pub mod Touch
pub mod Safety
pub mod Runs
pub mod Answers
pub mod Eviction
pub mod Hash
pub mod Plugin
pub mod Requests
mod Tests
