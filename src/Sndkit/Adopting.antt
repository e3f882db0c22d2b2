-- ===== src/Sndkit/Adopting.antt =====
-- The settings of `sndkit -P -p name`, and what `main` takes from the head of the file.
use test_tools.Common.{
  ℕ, zero, suc, ◌-◌, ◌^◌, ◌<◌, ◌≤◌, ◌≡◌, refl, true, false, some, List, [], ◌∷◌, ◌++◌, arith, ◌==◌,
  ltb, ==_of_ne, length, take, drop, ◌∙◌, sym, ap, subst, length-append, length-take, ◌⊎◌, inl, inr,
}
use test_tools.Common.Bytes.{Mem, put_bytes, peek, length-peek}
use test_tools.Wav.{init_wav_header, parse_wav_header, Out}
use test_tools.Wav.Stored.{parse-stored}
use test_tools.Sndkit.Formats.{fmt_8_bits, fmt_16_bits, fmt_24_bits, bits_of}
use test_tools.Sndkit.RoundTrip.{head_of, read-Agree, bits_small, ==_256}
use test_tools.Sndkit.Options.{
  replay_on, replay_name, Settings, initial, zeros, strncpy, c_string, goes_on, parse_option,
  parse_options,
}
use test_tools.Sndkit.Device.{NoZero, c_string-append}
use test_tools.Sndkit.Program.{World, format_of, adopt, check_wav}

-- One of the three formats that `main` has a number of bits for.
abbrev pub Format : ℕ → Type 0
Format format = (format ≡ fmt_8_bits) ⊎ ((format ≡ fmt_16_bits) ⊎ (format ≡ fmt_24_bits))

format_of-bits_of :
    (format : ℕ) → Format format → format_of (bits_of format 16) fmt_16_bits ≡ format
unfolding format_of bits_of
format_of-bits_of format (inl e) = rw e refl
format_of-bits_of format (inr (inl e)) = rw e refl
format_of-bits_of format (inr (inr e)) = rw e refl

-- The settings behind -P and -p.
abbrev pub to_play : (garbage name : List ℕ) → Settings
to_play garbage name = record (initial garbage) {
  replay_enable = true;
  replay_file = strncpy (zeros 128) name;
}

-- The same with what the head of the file says.
abbrev pub playing : (garbage name : List ℕ) (channels speed format : ℕ) → Settings
playing garbage name channels speed format = record (to_play garbage name) {
  channels = channels;
  speed = speed;
  format = format;
}

zeros-split : (n k : ℕ) → n < k → drop n (zeros k) ≡ 0 ∷ zeros (k - suc n)
zeros-split n zero l = absurd (omega arith)
zeros-split zero (suc k) l = ap (λ j. 0 ∷ zeros j) (omega arith)
zeros-split (suc n) (suc k) l = zeros-split n k (omega arith) ∙ ap (λ j. 0 ∷ zeros j) (omega arith)

pub c_string-name :
    (name : List ℕ) → NoZero name → length name ≤ 127 → c_string (strncpy (zeros 128) name) ≡ name
c_string-name name h l =
    ap (λ r. c_string (name ++ r)) (zeros-split (length name) 128 (omega arith))
    ∙ c_string-append name (zeros (128 - suc (length name))) h

pub parse-to_play :
    (garbage name : List ℕ)
    → length name ≤ 127
    → parse_options (replay_on ∷ replay_name name ∷ []) (initial garbage)
      ≡ goes_on (to_play garbage name)
unfolding parse_options parse_option initial
parse-to_play garbage name l =
    let f : ltb 127 (length name) ≡ false = ground arith in rw (parse_options, parse_option, f) refl

-- What `check_wav` reads of a file with the head of `makewav`.
module _ (m : Mem) (raw : List ℕ) (channels speed format : ℕ) where
  abbrev out : Out
  out = record { head_len = 44; channels = channels; sample_rate = speed; bits = bits_of format 16 }

  abbrev unset : Out
  unset = record { head_len = 0; channels = 0; sample_rate = 0; bits = 0 }

  pub check_wav-head :
      (w : World) (garbage name : List ℕ)
      → w.first_read ≡ head_of m (length raw) channels speed format ++ raw
      → 212 ≤ length raw
      → length raw < 2 ^ 31
      → channels < 2 ^ 16
      → speed < 2 ^ 32
      → Format format
      → check_wav w (to_play garbage name)
        ≡ some (playing garbage name channels speed format, length raw, 44)
  unfolding check_wav adopt initial
  check_wav-head w garbage name e l u lc ls f =
      let h = init_wav_header m (length raw) channels speed (bits_of format 16) in
      let wav = peek h 44 0 ++ raw in
      let lw = length-append (peek h 44 0) raw in
      let lh = length-peek h 44 0 in
      let el : (length (take 256 w.first_read) == 256) ≡ true =
        rw (e, length-take 256 wav) (==_256 (length wav) (omega arith)) in
      let p : parse_wav_header (put_bytes 0 (take 256 w.first_read) w.memory) unset
          ≡ (length raw, out) =
        subst (λ r. parse_wav_header (put_bytes 0 (take 256 r) w.memory) unset ≡ (length raw, out))
          (sym e)
          (parse-stored m (put_bytes 0 (take 256 wav) w.memory) (length raw) channels speed
            (bits_of format 16) unset (read-Agree h w.memory raw) (omega arith) lc ls
            (bits_small format)) in
      let en = ==_of_ne (length raw) 0 (omega arith) in
      rw (el, p, en, format_of-bits_of format f) refl
