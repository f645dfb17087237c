-- ===== src/Display/Edd.antt =====
-- PicoDeck-ED-Display/src/edd_state.c: the telemetry state that EDDJSON messages update.
pub mod Tokens
pub mod State
pub mod Route
pub mod Journal
pub mod Messages
pub mod Bounds
pub mod Rows
pub mod Fuel
pub mod Handled
pub mod Counters
pub mod RouteTime
pub mod Tree
pub mod Walk
pub mod Found
pub mod Document
pub mod Reads
pub mod Branches
pub mod RowsTree
pub mod Refines
pub mod Stops
