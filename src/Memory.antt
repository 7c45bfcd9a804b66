-- ===== src/Memory.antt =====
-- The memory tier, feuer-memory, and the sampling that both tiers share.
pub mod Retention
pub mod Buffer
pub mod Store
mod Tests
