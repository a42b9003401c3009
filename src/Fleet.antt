-- ===== src/Fleet.antt =====
-- internal/fleet: the contracts, the single-agent plan and the coordinator's runtime.
pub mod Types
pub mod Patterns
pub mod Validate
pub mod Attempts
pub mod Plan
pub mod Runtime
pub mod Samples
pub mod Examples
pub mod ContractExamples
