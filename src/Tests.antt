-- ===== src/Tests.antt =====
-- Runs of the modelled code at concrete inputs, and the theorems applied to them.
mod Fixture
mod Chains
mod Conversions
mod Terms
mod Forks
mod BlockNums
mod Sessions
mod Nodes
mod Verifications
mod Receivers
mod Endpoints
mod Engines
mod Resumes
mod Mains
mod Batches
