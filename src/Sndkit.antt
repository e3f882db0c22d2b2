-- ===== src/Sndkit.antt =====
-- test_speaker/sndkit_only_replay/sndkit.c: the program that plays, records and converts sound files.
pub mod Io
pub mod Formats
pub mod Play
pub mod Options
pub mod Program
pub mod Keeps
pub mod Opened
pub mod Device
pub mod Adopting
pub mod Playback
mod Tests
pub mod Record
pub mod Files
pub mod Writing
pub mod Copying
pub mod RoundTrip
pub mod Playing
pub mod Bounds
pub mod RecordSteps
pub mod Endless
pub mod Recording
