-- ===== src/Sndkit/Program.antt =====
-- `main` of sndkit.c and the settings of the sound device. The two threads work on different descriptors
-- and variables, so each is run by itself.
use test_tools.Common.{
  ℕ, Bool, true, false, ◌&&◌, ◌||◌, not, Option, none, some, List, ◌==◌, if◌then◌else◌, length,
  take,
}
use test_tools.Common.Int.{ℤ, pos, negsuc}
use test_tools.Common.Bytes.{Mem, put_bytes, peek}
use test_tools.Wav.{init_wav_header, parse_wav_header, Out}
use test_tools.Sndkit.Io.{
  Read, End, returned, waits, aborted, Sink, Status, finished, stopped, blocked, write_all,
}
use test_tools.Sndkit.Formats.{fmt_8_bits, fmt_16_bits, fmt_24_bits, bits_of}
use test_tools.Sndkit.Play.{ReplayParams, play}
use test_tools.Sndkit.Record.{RecordParams, record_length, record_sound}
use test_tools.Sndkit.Files.{wav_head_size, max_wav_head_size, Luck, makewav, strip_wav}
use test_tools.Sndkit.Options.{
  CmdOption, Settings, initial, c_string, exits, goes_on, parse_options,
}

pub data Control : Type 0 where
  set_format set_channels set_speed : Control

-- What `main` meets outside. `driver`: the value behind an `ioctl` on the device, `none` where it fails;
-- `first_read`: what the first `read` of the sound file gives, nothing where it fails; `reads_from`: the
-- calls of `read` on it behind the `lseek` to the offset, the 32-bit word of an `int`; behind none for 0,
-- where the file is no WAV file.
pub record World : Type 0 where
  pub luck : Luck
  pub content : List ℕ → List ℕ
  pub memory : Mem
  pub mixer_opens : Bool
  pub is_regular : List ℕ → Bool
  pub opens : List ℕ → Bool
  pub first_read : List ℕ
  pub reads_from : ℕ → List Read
  pub device_reads : List Read
  pub driver : Control → ℕ → Option ℕ
  pub device : Sink
  pub file : Sink
  pub room : Bool
  pub replay_starts : Bool
  pub record_starts : Bool

-- What `main` has done at its end: the name of the device that was opened, the format, the channels and
-- the speed where it was set to all three, the ends of the two threads, and the file of a conversion.
pub record Done : Type 0 where
  pub status : End
  pub opened : Option (List ℕ)
  pub configured : Option (ℕ × ℕ × ℕ)
  pub played : Option (End × Sink)
  pub recorded : Option (End × Sink)
  pub converted : Option Sink

abbrev pub ended : End → Done
ended status = record {
  status = status;
  opened = none;
  configured = none;
  played = none;
  recorded = none;
  converted = none;
}

-- An end behind the opening of the device, which only a replay or a recording opens.
abbrev pub ended_behind : Settings → End → Done
ended_behind s status = record (ended status) {
  opened = if s.record_enable || s.replay_enable then some (c_string s.snd_dev) else none;
}

-- The `ioctl` and the two tests behind it.
abbrev pub set_one : (Control → ℕ → Option ℕ) → Control → ℕ → ℤ → ℤ
set_one driver control value rest = elim (driver control value) [
  | none ↦ negsuc 0
  | some now ↦ if now == value then rest else negsuc 0
]

unfoldable pub config_device : (Control → ℕ → Option ℕ) → (format channels speed : ℕ) → ℤ
config_device driver format channels speed =
    set_one driver set_format format
      (set_one driver set_channels channels (set_one driver set_speed speed (pos 0)))

-- The format for a number of bits in the head.
unfoldable pub format_of : (bits format : ℕ) → ℕ
format_of bits format =
    if bits == 8
    then fmt_8_bits
    else if bits == 16
    then fmt_16_bits
    else if bits == 24
    then fmt_24_bits
    else format

-- What the head of the file says, where no option has said it.
unfoldable pub adopt : Out → Settings → Settings
unfolding format_of
adopt out s = record s {
  format = if s.format_user then s.format else format_of out.bits s.format;
  channels = if s.channels_user then s.channels else out.channels;
  speed = if s.speed_user then s.speed else out.sample_rate;
}

-- The block for a WAV file to play: the settings, `replay_data_len` and the offset in the file; `none`
-- where `main` returns -1.
unfoldable pub check_wav : World → Settings → Option (Settings × ℕ × ℕ)
unfolding adopt
check_wav w s =
    let start = take max_wav_head_size w.first_read in
    let unset : Out = record { head_len = 0; channels = 0; sample_rate = 0; bits = 0 } in
    let (len, out) = parse_wav_header (put_bytes 0 start w.memory) unset in
    if s.replay_enable && s.is_wav
    then if not (length start == max_wav_head_size)
      then none
      else if len == 0
      then none
      else some (adopt out s, len, out.head_len)
    else some (s, 0, 0)

abbrev pub record_params : Settings → RecordParams
record_params s = record {
  buffer_size = s.buffer_size;
  duration = s.duration;
  format = s.format;
  channels = s.channels;
  speed = s.speed;
  is_wav = s.is_wav;
}

abbrev pub replay_params : ℕ → Settings → ReplayParams
replay_params data_len s = record {
  buffer_size = s.buffer_size;
  replay_data_len = data_len;
  format = s.format;
  is_wav = s.is_wav;
}

-- The head of the file to record.
unfoldable pub write_head : World → Settings → Status × Sink
unfolding bits_of record_length write_all
write_head w s =
    let format_bits = bits_of s.format 16 in
    let head =
      init_wav_header w.memory (record_length format_bits (record_params s)) s.channels s.speed
        format_bits in
    if s.record_enable && s.is_wav
    then write_all (peek head wav_head_size 0) w.file
    else (finished, w.file)

-- An assertion that fails ends the program; `main` waits for both threads and returns 0.
unfoldable pub join : (played recorded : Option (End × Sink)) → End
join (some (aborted, s)) recorded = aborted
join played (some (aborted, s)) = aborted
join (some (waits, s)) recorded = waits
join played (some (waits, s)) = waits
join _ _ = returned (pos 0)

-- The threads, with the file to record as the head has left it.
unfoldable pub run_threads : World → Settings → (data_len offset : ℕ) → Sink → Done
unfolding play record_sound join
run_threads w s data_len offset file =
    let played =
      if s.replay_enable && w.replay_starts
      then some (play (replay_params data_len s) w.room (w.reads_from offset) w.memory w.device)
      else none in
    let recorded =
      if s.record_enable && w.record_starts
      then some (record_sound (record_params s) w.room w.device_reads w.memory file)
      else none in
    record (ended (join played recorded)) {
      opened = if s.record_enable || s.replay_enable then some (c_string s.snd_dev) else none;
      configured = some (s.format, s.channels, s.speed);
      played = played;
      recorded = recorded;
    }

-- From the opening of the file to record on.
unfoldable pub run_opened : World → Settings → (data_len offset : ℕ) → Done
unfolding write_head config_device run_threads c_string
run_opened w s data_len offset =
    let used = s.record_enable || s.replay_enable in
    let device = c_string s.snd_dev in
    if s.record_enable && not (w.opens (c_string s.record_file))
    then ended_behind s (returned (negsuc 0))
    else let (status, file) = write_head w s in
      elim status [
        | stopped ↦ ended_behind s (returned (negsuc 0))
        | blocked ↦ ended_behind s waits
        | finished ↦ elim (used && not (w.is_regular device)) [
          | true ↦ elim (config_device w.driver s.format s.channels s.speed) [
            | pos n ↦ run_threads w s data_len offset file
            | negsuc n ↦ ended_behind s (returned (negsuc 0))
          ]
          | false ↦ record (run_threads w s data_len offset file) { configured = none }
        ]
      ]

-- `main` behind the conversions: the tests of the names, the mixer, the device, the sound file.
unfoldable pub run : World → Settings → Done
unfolding check_wav run_opened c_string
run w s =
    let used = s.record_enable || s.replay_enable in
    let sound = c_string s.replay_file in
    if length (c_string s.snd_dev) == 0
    then ended (returned (pos 127))
    else if s.record_enable && (length (c_string s.record_file) == 0)
    then ended (returned (pos 127))
    else if not w.mixer_opens
    then ended (returned (pos 1))
    else if used && not (w.opens (c_string s.snd_dev))
    then ended (returned (negsuc 0))
    else if s.replay_enable && (not (length sound == 0) && not (w.opens sound))
    then ended_behind s (returned (negsuc 0))
    else elim (check_wav w s) [
      | none ↦ ended_behind s (returned (negsuc 0))
      | some (s', data_len, offset) ↦ run_opened w s' data_len offset
    ]

abbrev pub conversion : End × Sink → Done
conversion (status, sink) = record (ended status) { converted = some sink }

unfoldable pub main : World → (garbage : List ℕ) → List CmdOption → Done
unfolding run parse_options initial makewav strip_wav c_string
main w garbage options = elim (parse_options options (initial garbage)) [
  | exits code ↦ ended (returned (pos code))
  | goes_on s ↦
      let replay_file = c_string s.replay_file in
      let record_file = c_string s.record_file in
      if s.convert_raw_to_wav
      then conversion (
          makewav w.luck (some record_file) (some replay_file) s.channels s.speed s.format
            (w.content replay_file) w.memory w.file)
      else if s.is_strip_wav
      then conversion (
          strip_wav w.luck (some record_file) (some replay_file) (w.content replay_file) w.memory
            w.file)
      else run w s
]
