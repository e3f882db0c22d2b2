-- ===== src/Sndtest.antt =====
-- test_audio/oss_test/sndtest.c: the program that plays or records for some seconds.
pub mod Options
pub mod Audio
pub mod Run
pub mod Checked
pub mod Replay
mod Tests
