-- ===== src/Conversion/Terms.antt =====
-- What an EVM block fixes for its transactions, over the whole handler of
-- src/block_conversion_plugin.cpp.
pub mod Undone
pub mod Version
pub mod Fees
