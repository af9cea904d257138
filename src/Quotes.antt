-- ===== src/Quotes.antt =====
-- The quotes module (src/modules/quotes), with the services that it is given.
pub mod Route
pub mod Request
pub mod Pricing
pub mod Normalize
pub mod Desk
pub mod Limits
pub mod Idempotency
pub mod Customers
pub mod Guard
pub mod Service
pub mod Emails
pub mod Commits
pub mod Interleaving
pub mod Exclusion
pub mod Collision
pub mod Admission
pub mod Redis
pub mod Replay
pub mod RoundTrip
pub mod Keeps
pub mod Recovery
pub mod Locking
pub mod Notices
pub mod Submission
mod Tests
