-- ===== src/Sndkit/Options.antt =====
-- The options of sndkit.c. The numbers of the options that `main` stores in an `int` without a test are
-- not negative here. A buffer for a name is the list of its 128 bytes.
use test_tools.Common.{
  ℕ, zero, suc, ◌+◌, ◌*◌, Bool, true, false, ◌||◌, List, [], ◌∷◌, ◌++◌, ◌==◌, ltb, if◌then◌else◌,
  length, drop,
}
use test_tools.Common.Int.{ℤ, pos, ltb_ℤ, pos_part}
use test_tools.Common.Text.{bytes}
use test_tools.Sndkit.Formats.{fmt_16_bits, same_text, Adjust, fmtstr_to_fmt, rate_is_supported}

-- What a call of `getopt_long` yields, with `atoi` of the argument where `main` takes it.
pub data CmdOption : Type 0 where
  help version convert strip verbose replay_on record_on unknown : CmdOption
  device replay_name record_name file_type sample_format : List ℕ → CmdOption
  channel_count buffer_bytes seconds : ℕ → CmdOption
  sample_rate loudness : ℤ → CmdOption

-- The variables of `main` that the options set, and those of `fmtstr_to_fmt`.
pub record Settings : Type 0 where
  pub snd_dev : List ℕ
  pub replay_file : List ℕ
  pub record_file : List ℕ
  pub is_wav : Bool
  pub channels : ℕ
  pub channels_user : Bool
  pub format : ℕ
  pub format_user : Bool
  pub speed : ℕ
  pub speed_user : Bool
  pub duration : ℕ
  pub buffer_size : ℕ
  pub replay_enable : Bool
  pub record_enable : Bool
  pub convert_raw_to_wav : Bool
  pub is_strip_wav : Bool
  pub vol : ℕ
  pub debug_level : ℕ
  pub adjust : Adjust

abbrev pub zeros : ℕ → List ℕ
zeros zero = []
zeros (suc n) = 0 ∷ zeros n

abbrev pub default_snd_dev : List ℕ
default_snd_dev = bytes "/dev/snd/dsp"

-- `garbage`: what the stack holds behind the name of the device, which `main` does not clear.
unfoldable pub initial : (garbage : List ℕ) → Settings
initial garbage = record {
  snd_dev = default_snd_dev ++ 0 ∷ garbage;
  replay_file = zeros 128;
  record_file = zeros 128;
  is_wav = true;
  channels = 2;
  channels_user = false;
  format = fmt_16_bits;
  format_user = false;
  speed = 44100;
  speed_user = false;
  duration = 10;
  buffer_size = 4096 * 3;
  replay_enable = false;
  record_enable = false;
  convert_raw_to_wav = false;
  is_strip_wav = false;
  vol = 0;
  debug_level = 0;
  adjust = record { sign_adjust = 0; endian_adjust = 0 };
}

-- `strncpy(buffer, text, strlen(text))`: no terminator behind the text.
abbrev pub strncpy : (buffer text : List ℕ) → List ℕ
strncpy buffer text = text ++ drop (length text) buffer

-- A buffer read as a string.
unfoldable pub c_string : List ℕ → List ℕ
c_string [] = []
c_string (b ∷ bs) = let rest = c_string bs in if b == 0 then [] else b ∷ rest

-- `exits`: `main` returns this.
pub data Parsed : Type 0 where
  exits : ℕ → Parsed
  goes_on : Settings → Parsed

-- `if (strlen(optarg) > 127) return 127;`
abbrev pub named : List ℕ → Settings → Parsed
named text s = if ltb 127 (length text) then exits 127 else goes_on s

-- One turn of the loop.
unfoldable pub parse_option : CmdOption → Settings → Parsed
unfolding same_text fmtstr_to_fmt rate_is_supported
parse_option help s = exits 0
parse_option version s = exits 0
parse_option convert s = goes_on (record s { convert_raw_to_wav = true })
parse_option strip s = goes_on (record s { is_strip_wav = true })
parse_option (device text) s = named text (record s { snd_dev = strncpy s.snd_dev text })
parse_option (file_type text) s =
    if same_text (bytes "wav") text
    then goes_on (record s { is_wav = true })
    else if same_text (bytes "raw") text
    then goes_on (record s { is_wav = false })
    else exits 127
parse_option (channel_count n) s = goes_on (record s { channels = n; channels_user = true })
parse_option (sample_format text) s =
    let (format, adjust) = fmtstr_to_fmt text s.adjust in
    if ltb_ℤ format (pos 0)
    then exits 127
    else goes_on (record s { format = pos_part format; adjust = adjust; format_user = true })
parse_option (sample_rate rate) s =
    if rate_is_supported rate == 0
    then exits 127
    else goes_on (record s { speed = pos_part rate; speed_user = true })
parse_option (seconds n) s = if n == 0 then exits 127 else goes_on (record s { duration = n })
parse_option (buffer_bytes n) s = goes_on (record s { buffer_size = n })
parse_option verbose s = goes_on (record s { debug_level = s.debug_level + 1 })
parse_option replay_on s = goes_on (record s { replay_enable = true })
parse_option (replay_name text) s =
    named text (record s { replay_file = strncpy s.replay_file text })
parse_option record_on s = goes_on (record s { record_enable = true })
parse_option (record_name text) s =
    named text (record s { record_file = strncpy s.record_file text })
parse_option (loudness v) s =
    if ltb_ℤ v (pos 0) || ltb_ℤ (pos 100) v
    then exits 127
    else goes_on (record s { vol = pos_part v })
parse_option unknown s = exits 127

unfoldable pub parse_options : List CmdOption → Settings → Parsed
unfolding parse_option
parse_options [] s = goes_on s
parse_options (o ∷ os) s = elim (parse_option o s) [
  | exits code ↦ exits code
  | goes_on s' ↦ parse_options os s'
]
