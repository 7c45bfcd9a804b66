-- ===== src/Storage.antt =====
-- The disk tier: feuer-storage.
pub mod Allocation
pub mod Layout
pub mod Metadata
pub mod WriteAdmission
pub mod Io
pub mod Lookup
