-- ===== src/Evidence.antt =====
-- The search for evidence (internal/process/enrichment): the providers, their breakers and the choice
-- among their answers.
pub mod Breaker
pub mod Select
pub mod Providers
