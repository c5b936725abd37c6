-- ===== src/Conversion.antt =====
-- src/block_conversion_plugin.cpp: native blocks in, EVM blocks out.
pub mod State
pub mod Content
pub mod Invariant
pub mod Fork
pub mod Extend
pub mod Apply
pub mod Prune
pub mod Handler
pub mod Quiet
pub mod Delivery
pub mod Terms
