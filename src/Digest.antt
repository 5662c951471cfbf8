-- ===== src/Digest.antt =====
-- The selection of the items of a digest (internal/output/digest).
pub mod Topics
pub mod Corroboration
