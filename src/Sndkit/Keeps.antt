-- ===== src/Sndkit/Keeps.antt =====
-- Options other than -D leave the name of the device.
use test_tools.Common.{
  ◌≡◌, refl, Bool, true, false, ◌||◌, List, [], ◌∷◌, ◌==◌, ltb, if◌then◌else◌, length, All, ◌∙◌,
  Bool-cases, inl, inr,
}
use test_tools.Common.Int.{pos, ltb_ℤ, pos_part}
use test_tools.Common.Text.{bytes}
use test_tools.Sndkit.Formats.{fmtstr_to_fmt, rate_is_supported, same_text}
use test_tools.Sndkit.Options.{
  CmdOption, help, version, convert, strip, verbose, replay_on, record_on, unknown, device,
  replay_name, record_name, file_type, sample_format, channel_count, buffer_bytes, seconds,
  sample_rate, loudness, Settings, strncpy, Parsed, exits, goes_on, parse_option, parse_options,
}

-- The option is not -D.
abbrev pub Other : CmdOption → Type 0
Other (device text) = ⊥
Other _ = Unit

-- What the option leaves of the settings has the same device.
abbrev pub Keeps : Settings → Parsed → Type 0
Keeps s (exits code) = Unit
Keeps s (goes_on s') = s'.snd_dev ≡ s.snd_dev

Keeps-if :
    (b : Bool) (s s' : Settings)
    → s'.snd_dev ≡ s.snd_dev
    → Keeps s (if b then exits 127 else goes_on s')
Keeps-if true s s' e = tt
Keeps-if false s s' e = e

Keeps-trans : (s s' : Settings) (r : Parsed) → s'.snd_dev ≡ s.snd_dev → Keeps s' r → Keeps s r
Keeps-trans s s' (exits code) e k = tt
Keeps-trans s s' (goes_on t) e k = k ∙ e

parse_option-Keeps : (o : CmdOption) (s : Settings) → Other o → Keeps s (parse_option o s)
unfolding parse_option
parse_option-Keeps help s h = tt
parse_option-Keeps version s h = tt
parse_option-Keeps convert s h = refl
parse_option-Keeps strip s h = refl
parse_option-Keeps verbose s h = refl
parse_option-Keeps replay_on s h = refl
parse_option-Keeps record_on s h = refl
parse_option-Keeps unknown s h = tt
parse_option-Keeps (device text) s h = absurd h
parse_option-Keeps (replay_name text) s h =
    Keeps-if (ltb 127 (length text)) s (record s { replay_file = strncpy s.replay_file text }) refl
parse_option-Keeps (record_name text) s h =
    Keeps-if (ltb 127 (length text)) s (record s { record_file = strncpy s.record_file text }) refl
parse_option-Keeps (file_type text) s h = elim (Bool-cases (same_text (bytes "wav") text)) [
  | inl e ↦ rw e refl
  | inr e ↦
      rw e
        (elim (Bool-cases (same_text (bytes "raw") text)) [ inl f ↦ rw f refl | inr f ↦ rw f tt ])
]
parse_option-Keeps (sample_format text) s h =
    let r = fmtstr_to_fmt text s.adjust in
    Keeps-if (ltb_ℤ r.0 (pos 0)) s
      (record s { format = pos_part r.0; adjust = r.1; format_user = true }) refl
parse_option-Keeps (channel_count n) s h = refl
parse_option-Keeps (buffer_bytes n) s h = refl
parse_option-Keeps (seconds n) s h = Keeps-if (n == 0) s (record s { duration = n }) refl
parse_option-Keeps (sample_rate rate) s h =
    Keeps-if (rate_is_supported rate == 0) s (record s { speed = pos_part rate; speed_user = true })
      refl
parse_option-Keeps (loudness v) s h =
    Keeps-if (ltb_ℤ v (pos 0) || ltb_ℤ (pos 100) v) s (record s { vol = pos_part v }) refl

pub parse_options-Keeps :
    (os : List CmdOption) (s : Settings) → All Other os → Keeps s (parse_options os s)
unfolding parse_options
parse_options-Keeps [] s h = refl
parse_options-Keeps (o ∷ os) s h =
    go (parse_option o s) (parse_option-Keeps o s h.0) (λ s'. parse_options-Keeps os s' h.1)
  where
    go :
        (r : Parsed)
        → Keeps s r
        → ((s' : Settings) → Keeps s' (parse_options os s'))
        → Keeps s (elim r [ exits code ↦ exits code | goes_on s' ↦ parse_options os s' ])
    go (exits code) k ih = tt
    go (goes_on s') k ih = Keeps-trans s s' (parse_options os s') k (ih s')
