-- ===== src/Quotes/Pricing.antt =====
-- The pricing strategies (src/modules/quotes/domain/pricing) and their resolver.
pub mod FullHome
pub mod Kitchen
pub mod Wardrobe
pub mod Resolver
pub mod Amounts
pub mod RunningFeet
mod Tests
