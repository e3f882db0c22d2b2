-- ===== src/Widget.antt =====
-- test_keyboard/widget.h and widget.c: touch buttons and keys on the screen. The children hold the
-- types, the drawing, the constructors, the touch machine, the devices and the listening loop, and
-- behind them the proofs.
pub mod Types
pub mod Draw
pub mod Setup
pub mod Touch
pub mod Device
pub mod Catch
pub mod Listen
pub mod Search
pub mod Nodes
pub mod Fields
pub mod Gesture
pub mod Pressed
pub mod Ids
pub mod Taps
pub mod Balance
pub mod Path
pub mod Returns
pub mod Samples
mod Tests
