-- ===== src/Ship.antt =====
-- The receiver of the state history, in src/ship_receiver_plugin.cpp.
pub mod Append
pub mod Connection
pub mod Session
pub mod Options
