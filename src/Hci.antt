-- ===== src/Hci.antt =====
-- test_bluetooth/test_bluetooth.c: the Bluetooth test, which puts a controller behind a serial port
-- into the test mode, command by command.
pub mod Uart
pub mod Commands
pub mod Options
pub mod Program
pub mod Packets
pub mod Replies
pub mod Exit
pub mod Settings
pub mod Frames
pub mod Download
pub mod Firmware
pub mod Patchram
pub mod Line
pub mod Refused
mod Tests
