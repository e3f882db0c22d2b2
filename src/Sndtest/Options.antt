-- ===== src/Sndtest/Options.antt =====
-- The parameters of sndtest.c and its command line. An argument is a text, `atoi` is the library's. What
-- a run does behind a `strcpy` that writes past the 127 bytes of its buffer is not told.
use test_tools.Common.{
  ℕ, ◌+◌, Bool, true, false, ◌&&◌, ◌||◌, not, Option, none, List, [], ◌∷◌, ◌==◌, ltb, if◌then◌else◌,
  length,
}
use test_tools.Common.Int.{ℤ, pos, negsuc, ltb_ℤ}
use test_tools.Common.Text.{bytes}

abbrev pub fmt_8_bits : ℕ
fmt_8_bits = 0x08

abbrev pub fmt_16_bits : ℕ
fmt_16_bits = 0x10

abbrev pub default_buf_size : ℕ
default_buf_size = 2048

-- `struct run_params`, less what is never used. An open file is the name of what was opened; the lengths
-- of the files are the 32-bit words of `int`s.
pub record RunParams : Type 0 where
  pub dsp_fd : Option (List ℕ)
  pub mixer_fd : Option (List ℕ)
  pub replay_fd : Option (List ℕ)
  pub record_fd : Option (List ℕ)
  pub jz_dmic_fd : Option (List ℕ)
  pub buffer_size : ℕ
  pub format : ℕ
  pub channel : ℕ
  pub speed : ℕ
  pub rate : ℕ
  pub volume : ℕ
  pub replay_enable : Bool
  pub record_enable : Bool
  pub replay_file : List ℕ
  pub record_file : List ℕ
  pub replay_file_length : ℕ
  pub record_file_length : ℕ
  pub second : ℕ

unfoldable pub init_params : RunParams
init_params = record {
  dsp_fd = none;
  mixer_fd = none;
  replay_fd = none;
  record_fd = none;
  jz_dmic_fd = none;
  buffer_size = default_buf_size;
  format = fmt_16_bits;
  channel = 2;
  speed = 44100;
  rate = 0;
  volume = 80;
  replay_enable = false;
  record_enable = false;
  replay_file = [];
  record_file = [];
  replay_file_length = 0;
  record_file_length = 0;
  second = 5;
}

-- `!strcmp(a, b)`
unfoldable pub same_text : List ℕ → List ℕ → Bool
same_text [] [] = true
same_text (x ∷ xs) (y ∷ ys) = (x == y) && same_text xs ys
same_text _ _ = false

abbrev pub supported_fmts : List (List ℕ)
supported_fmts =
    bytes "S8"
    ∷ bytes "U8"
    ∷ bytes "S16_LE"
    ∷ bytes "S16_BE"
    ∷ bytes "U16_LE"
    ∷ bytes "U16_BE"
    ∷ bytes "S24_3LE"
    ∷ bytes "S24_3BE"
    ∷ bytes "U24_3LE"
    ∷ bytes "U24_3BE"
    ∷ []

-- The loop over the table, from index `i` on: where it ends.
unfoldable pub index_of : List (List ℕ) → List ℕ → ℕ → ℕ
unfolding same_text
index_of [] text i = i
index_of (name ∷ names) text i = if same_text name text then i else index_of names text (i + 1)

-- -1 for a text that is not in the table; all formats but the first two are 16 bits.
unfoldable pub set_format : List ℕ → ℤ
unfolding index_of
set_format text =
    let i = index_of supported_fmts text 0 in
    if i == length supported_fmts
    then negsuc 0
    else if (i == 1) || (i == 0)
    then pos fmt_8_bits
    else pos fmt_16_bits

-- The local variables of `check_arg`.
pub record Locals : Type 0 where
  pub format : ℤ
  pub channel : ℤ
  pub rate : ℤ
  pub volume : ℤ
  pub speed : ℤ
  pub buffer_size : ℤ
  pub second : ℤ

abbrev pub unset : Locals
unset = record {
  format = negsuc 0;
  channel = negsuc 0;
  rate = negsuc 0;
  volume = negsuc 0;
  speed = negsuc 0;
  buffer_size = negsuc 0;
  second = negsuc 0;
}

-- How a part of the program ends: with -1, with a write past the end of a buffer, or well.
pub data Outcome (A : Type 0) : Type 0 where
  refused : Outcome A
  overran : Outcome A
  well : A → Outcome A

-- `char replay_file[127]` and `char record_file[127]` hold a text and its zero.
unfoldable pub fits : List ℕ → Bool
fits text = ltb (length text) 127

-- One turn of the loop: an option and its value; -1 for an unknown option.
unfoldable pub take_pair :
    (atoi : List ℕ → ℤ) (arg val : List ℕ) → Locals × RunParams → Outcome (Locals × RunParams)
unfolding same_text set_format fits
take_pair atoi arg val (l, p) =
    if same_text arg (bytes "--format")
    then well (record l { format = set_format val }, p)
    else if same_text arg (bytes "--channel")
    then well (record l { channel = atoi val }, p)
    else if same_text arg (bytes "--rate")
    then well (record l { rate = atoi val }, p)
    else if same_text arg (bytes "--volume")
    then well (record l { volume = atoi val }, p)
    else if same_text arg (bytes "--speed")
    then well (record l { speed = atoi val }, p)
    else if same_text arg (bytes "--buffer")
    then well (record l { buffer_size = atoi val }, p)
    else if same_text arg (bytes "--time")
    then well (record l { second = atoi val }, p)
    else if same_text arg (bytes "--replay")
    then if fits val
      then well (l, record p { replay_enable = true; replay_file = val })
      else overran
    else if same_text arg (bytes "--record")
    then if fits val
      then well (l, record p { record_enable = true; record_file = val })
      else overran
    else refused

-- The loop; -1 for an unknown option or one without a value.
unfoldable pub take_pairs :
    (atoi : List ℕ → ℤ) → List (List ℕ) → Locals × RunParams → Outcome (Locals × RunParams)
unfolding take_pair
take_pairs atoi [] s = well s
take_pairs atoi (arg ∷ []) s = refused
take_pairs atoi (arg ∷ val ∷ args) s = elim (take_pair atoi arg val s) [
  | refused ↦ refused
  | overran ↦ overran
  | well s' ↦ take_pairs atoi args s'
]

-- A variable that an option has set to 0 or more.
abbrev pub given : ℤ → ℕ → ℕ
given (pos n) default = n
given (negsuc n) default = default

-- The assignments at the end of `check_arg`; `second` has to be more than 0.
unfoldable pub adopt : Locals → RunParams → RunParams
adopt l p = record p {
  format = given l.format p.format;
  channel = given l.channel p.channel;
  rate = given l.rate p.rate;
  volume = given l.volume p.volume;
  speed = given l.speed p.speed;
  buffer_size = given l.buffer_size p.buffer_size;
  second = if ltb_ℤ (pos 0) l.second then given l.second p.second else p.second;
}

-- With the arguments behind the program's name: the parameters where it returns 0. A single
-- --version or --help gives -1 as well.
unfoldable pub check_arg : (atoi : List ℕ → ℤ) → List (List ℕ) → RunParams → Outcome RunParams
unfolding take_pairs adopt
check_arg atoi [] p = refused
check_arg atoi (arg ∷ args) p = elim (take_pairs atoi (arg ∷ args) (unset, p)) [
  | refused ↦ refused
  | overran ↦ overran
  | well (l, p') ↦
      if p'.replay_enable && p'.record_enable
      then refused
      else if not (p'.replay_enable || p'.record_enable)
      then refused
      else well (adopt l p')
]
