-- ===== src/Infrastructure.antt =====
-- Services that the modules of the program share (src/infrastructure).
mod Tests
pub mod Breakers
pub mod Cache
pub mod Recaptcha
pub mod Sessions
