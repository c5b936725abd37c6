-- ===== src/Conversion/Delivery.antt =====
-- What the handler of src/block_conversion_plugin.cpp publishes: however it ends, an EVM block goes
-- out after the block that it names as its parent.
pub mod Order
