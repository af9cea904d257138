-- ===== src/Notifications/Stages.antt =====
-- The seven stages of the pipeline (src/infrastructure/notifications/pipeline/stages).
pub mod Validate
pub mod Enrich
pub mod Deduplicate
pub mod RateLimit
pub mod CompileTemplate
pub mod Track
pub mod Transport
