-- ===== src/Vcom.antt =====
-- test_write_vcom_vol/vcom.c: the program that writes the VCOM voltage to the battery partition.
pub mod Table
pub mod Emmc
pub mod Program
pub mod Outside
pub mod Entries
pub mod Battery
mod Tests
