-- ===== src/Sndkit/Tests.antt =====
-- Runs of sndkit.c.
use test_tools.Common.{
  ℕ, ◌≡◌, ◌≢◌, refl, true, false, some, List, [], ◌∷◌, ◌++◌, map, arith, take, inl,
}
use test_tools.Common.Int.{pos}
use test_tools.Common.Bytes.{Mem}
use test_tools.Common.Text.{bytes}
use test_tools.Sndkit.Io.{got, returned, Sink}
use test_tools.Sndkit.Formats.{fmt_8_bits, fmt_16_bits, fmt_24_bits, bits_of}
use test_tools.Sndkit.Files.{overwritten, makewav, strip_wav}
use test_tools.Sndkit.Writing.{always, always-Willing}
use test_tools.Sndkit.Copying.{Copied}
use test_tools.Sndkit.RoundTrip.{lucky, head_of, strip_wav-makewav}
use test_tools.Sndkit.Play.{ReplayParams}
use test_tools.Sndkit.Record.{RecordParams, eighth, record_length, record_sound}
use test_tools.Sndkit.Endless.{record_sound-Endless}
use test_tools.Sndkit.Recording.{joined, record_sound-Copied}
use test_tools.Sndkit.Options.{initial, zeros, replay_on, replay_name, device}
use test_tools.Sndkit.Program.{World, main}
use test_tools.Sndkit.Opened.{Opens}
use test_tools.Sndkit.Device.{nonzero-NoZero, overlaid, main-device}
use test_tools.Sndkit.Program.{replay_params}
use test_tools.Sndkit.Adopting.{playing}
use test_tools.Sndkit.Playback.{PlayedBack, main-PlayedBack}

abbrev empty : Mem
empty a = 0

abbrev sink : ℕ → Sink
sink n = record { acks = always n; written = [] }

strip_wav-makewav_example :
    ((makewav lucky
        (some (bytes "a"))
        (some (bytes "b"))
        2
        8000
        fmt_16_bits
        (zeros 212)
        empty
        (sink 256)).0
      ≡ returned (pos 0))
    × Copied (zeros 212) (sink 212) (
        strip_wav lucky
          (some (bytes "b"))
          (some (bytes "a"))
          (overwritten []
            (makewav lucky
              (some (bytes "a"))
              (some (bytes "b"))
              2
              8000
              fmt_16_bits
              (zeros 212)
              empty
              (sink 256)).1.written)
          empty
          (sink 212))
strip_wav-makewav_example =
    strip_wav-makewav (bytes "a") (bytes "b") 2 8000 fmt_16_bits (zeros 212) [] empty empty
      (always 256) (sink 212) (omega arith) (omega arith) (always-Willing 256 [])
      (always-Willing 212 []) (omega arith) (omega arith) (omega arith) (omega arith) (omega arith)

abbrev fine : RecordParams
fine = record {
  buffer_size = 16;
  duration = 1;
  format = fmt_24_bits;
  channels = 1;
  speed = 8;
  is_wav = true;
}

record_sound-Endless_example :
    (record_sound fine true (got (zeros 16) ∷ got (zeros 16) ∷ []) empty (sink 100)).0
    ≢ returned (pos 0)
record_sound-Endless_example =
    record_sound-Endless fine true (got (zeros 16) ∷ got (zeros 16) ∷ []) empty (sink 100) refl refl
      (unfold record_length eighth in omega arith) (unfold record_length eighth in omega arith)

abbrev coarse : RecordParams
coarse = record {
  buffer_size = 16;
  duration = 1;
  format = fmt_8_bits;
  channels = 1;
  speed = 8;
  is_wav = true;
}

abbrev parts : List (List ℕ)
parts = (1 ∷ 2 ∷ 3 ∷ 4 ∷ 5 ∷ []) ∷ [] ∷ (6 ∷ 7 ∷ 8 ∷ 9 ∷ 10 ∷ []) ∷ []

record_sound-Copied_example :
    Copied
      (take (record_length (bits_of fmt_8_bits 16) coarse) (joined parts))
      (sink 8)
      (record_sound coarse true (map got parts) empty (sink 8))
record_sound-Copied_example =
    record_sound-Copied coarse parts empty (sink 8) (unfold bits_of in refl)
      (omega arith, (omega arith, (omega arith, tt)))
      (unfold bits_of record_length eighth in omega arith)
      (unfold bits_of record_length eighth in omega arith)
      (unfold bits_of record_length eighth in always-Willing 8 [])

abbrev world : World
world = record {
  luck = lucky;
  content = λ name. [];
  memory = empty;
  mixer_opens = true;
  is_regular = λ name. false;
  opens = λ name. true;
  first_read = head_of empty 212 1 8000 fmt_8_bits ++ zeros 212;
  reads_from = λ offset. got (zeros 212) ∷ got [] ∷ [];
  device_reads = [];
  driver = λ control value. some value;
  device = sink 212;
  file = sink 0;
  room = true;
  replay_starts = true;
  record_starts = true;
}

main-device_example :
    Opens (overlaid (bytes "/dev/x")) (main world [] (device (bytes "/dev/x") ∷ replay_on ∷ []))
main-device_example =
    main-device world [] (bytes "/dev/x") (replay_on ∷ []) (nonzero-NoZero (bytes "/dev/x") refl)
      (omega arith) (tt, tt)

main-PlayedBack_example :
    PlayedBack world 1 8000 fmt_8_bits
      (replay_params 212 (playing [] (bytes "a") 1 8000 fmt_8_bits))
      (zeros 212 ∷ [])
      (main world [] (replay_on ∷ replay_name (bytes "a") ∷ []))
main-PlayedBack_example =
    main-PlayedBack world [] (bytes "a") 1 8000 fmt_8_bits empty (zeros 212) (zeros 212 ∷ []) []
      (record {
        mixer = refl;
        opens = λ name. refl;
        special = λ name. refl;
        takes_format = refl;
        takes_channels = refl;
        takes_speed = refl;
        room = refl;
        starts = refl;
      })
      (nonzero-NoZero (bytes "a") refl) (omega arith) (omega arith) refl (omega arith) (omega arith)
      (omega arith) (omega arith) (inl refl) refl
      (
        record {
          some_bytes = omega arith;
          fits = unfold initial in omega arith;
          samples = λ e. absurd (ground arith);
        },
        tt,
      )
      (omega arith) (unfold initial in always-Willing 212 [])

abbrev fine_sound : ReplayParams
fine_sound = record { buffer_size = 10; replay_data_len = 9; format = fmt_24_bits; is_wav = true }
