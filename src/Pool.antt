-- ===== src/Pool.antt =====
-- The account pool of internal/aistudio: accounts.go, channel.go, quota.go and benefit.go.
pub mod Types
pub mod Catalog
pub mod Cooldown
pub mod Channels
pub mod Candidates
pub mod Leases
pub mod Runtime
pub mod Equality
pub mod Resources
pub mod Classify
pub mod Acquire
pub mod Membership
mod Samples
mod Tests
mod StateTests
