-- ===== src/Sensors.antt =====
-- The tests of single sensors. Each talks to one device file, which is a parameter.
pub mod Pah8001
pub mod Frizz
pub mod Events
pub mod Reads
pub mod Current
pub mod Stop
mod Tests
