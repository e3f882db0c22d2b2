-- ===== src/Sndtest/Audio.antt =====
-- The devices and files of sndtest.c.
use test_tools.Common.{
  ℕ, ◌%◌, ◌^◌, Bool, ◌&&◌, ◌||◌, not, Option, none, some, List, [], ◌∷◌, ◌++◌, ◌==◌, if◌then◌else◌,
  length,
}
use test_tools.Common.Text.{bytes}
use test_tools.Sndtest.Options.{RunParams}

abbrev pub dsp_name : List ℕ
dsp_name = bytes "/dev/snd/dsp"

abbrev pub mixer_name : List ℕ
mixer_name = bytes "/dev/snd/mixer"

abbrev pub jz_dmic_name : List ℕ
jz_dmic_name = bytes "/dev/jz-dmic"

-- What the calls come out with: whether a name opens, and the size that `stat` gives.
pub record Files : Type 0 where
  pub opens : List ℕ → Bool
  pub size : List ℕ → Option ℕ

-- A size, cut to the word of an `int`, or what stood there before.
abbrev pub sized : Option ℕ → ℕ → ℕ
sized none before = before
sized (some n) before = n % 2 ^ 32

-- The block for a file to play; `none` where `init_audio` returns -1.
unfoldable pub open_replay : Files → RunParams → Option RunParams
open_replay f p =
    if p.replay_enable && not (length p.replay_file == 0)
    then if not (f.opens dsp_name)
      then none
      else if not (f.opens p.replay_file)
      then none
      else some (record p {
        dsp_fd = some dsp_name;
        replay_fd = some p.replay_file;
        replay_file_length = sized (f.size p.replay_file) p.replay_file_length;
      })
    else some p

-- The block for a file to record.
unfoldable pub open_record : Files → RunParams → Option RunParams
open_record f p =
    if p.record_enable && not (length p.record_file == 0)
    then if not (f.opens dsp_name)
      then none
      else if not (f.opens jz_dmic_name)
      then none
      else if not (f.opens p.record_file)
      then none
      else some (record p {
        dsp_fd = some dsp_name;
        jz_dmic_fd = some jz_dmic_name;
        record_fd = some p.record_file;
        record_file_length = sized (f.size p.record_file) p.record_file_length;
      })
    else some p

pub data Control : Type 0 where
  dsp_channels dsp_setfmt dsp_speed mixer_volume : Control

-- The calls of `ioctl` that `config_device` makes. What they give is printed at most; it returns 0.
unfoldable pub config_device : RunParams → List (Control × ℕ)
config_device p =
    (dsp_channels, p.channel)
    ∷ (dsp_setfmt, p.format)
    ∷ (dsp_speed, p.speed)
    ∷ (if p.replay_enable then (mixer_volume, p.volume) ∷ [] else [])

-- The parameters and the calls of `ioctl`; `none` where it returns -1.
unfoldable pub init_audio : Files → RunParams → Option (RunParams × List (Control × ℕ))
unfolding open_replay open_record config_device
init_audio f p = elim (open_replay f p) [
  | none ↦ none
  | some p1 ↦ elim (open_record f p1) [
    | none ↦ none
    | some p2 ↦
        let p3 = record p2 { mixer_fd = some mixer_name } in
        if f.opens mixer_name then some (p3, config_device p3) else none
  ]
]

-- The files that `close_audio` closes, in order.
unfoldable pub close_audio : RunParams → List (Option (List ℕ))
close_audio p =
    (if p.replay_enable || p.record_enable then p.dsp_fd ∷ [] else [])
    ++ (if p.replay_enable then p.replay_fd ∷ [] else [])
    ++ (if p.record_enable then p.record_fd ∷ p.jz_dmic_fd ∷ [] else [])
    ++ p.mixer_fd ∷ []
