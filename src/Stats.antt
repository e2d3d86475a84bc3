-- ===== src/Stats.antt =====
-- extensions/stats/plugin.{h,cc}: the metrics plugin.
mod Labels
mod Dimensions
mod History
mod Metrics
mod Maps
mod Config
mod Setup
mod Indexes
mod Overrides
mod Tokens
mod Kept
mod First
mod Freed
mod Life
mod Report
mod Resolved
mod Cached
mod Stream
mod Traffic
mod Conserved
mod Warm
mod Tests
