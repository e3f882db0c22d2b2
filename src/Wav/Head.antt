-- ===== src/Wav/Head.antt =====
-- parse_wav_header reads what init_wav_header writes.
use test_tools.Common.{ℕ, ◌^◌, ◌<◌, ◌≡◌, refl, true, arith}
use test_tools.Common.Text.{bytes}
use test_tools.Common.Bytes.{Mem, poke, put_bytes, has_bytes}
use test_tools.Wav.{
  put16, put32, get16, get32, init_wav_header, Out, skip_junk, skip_fact, parse_data, parse_fmt,
  parse_wav_header,
}

module _ (m : Mem) (len channels rate bits : ℕ) where
  abbrev pub head : Mem
  head = init_wav_header m len channels rate bits

  pub riff : has_bytes head 0 (bytes "RIFF") ≡ true
  unfolding init_wav_header put_bytes put32 put16 poke has_bytes
  riff = refl

  pub wave : has_bytes head 8 (bytes "WAVE") ≡ true
  unfolding init_wav_header put_bytes put32 put16 poke has_bytes
  wave = refl

  pub junk : skip_junk head 12 ≡ 12
  unfolding init_wav_header put_bytes put32 put16 poke has_bytes skip_junk
  junk = refl

  pub fmt : has_bytes head 12 (bytes "fmt ") ≡ true
  unfolding init_wav_header put_bytes put32 put16 poke has_bytes
  fmt = refl

  pub fmt_len : get32 head 16 ≡ 16
  unfolding init_wav_header put_bytes put32 put16 poke get32 get16
  fmt_len = refl

  pub tag : get16 head 20 ≡ 1
  unfolding init_wav_header put_bytes put32 put16 poke get16
  tag = refl

  pub fact : skip_fact head 36 ≡ 36
  unfolding init_wav_header put_bytes put32 put16 poke has_bytes skip_fact
  fact = refl

  pub body : has_bytes head 36 (bytes "data") ≡ true
  unfolding init_wav_header put_bytes put32 put16 poke has_bytes
  body = refl

  pub channels_lem : channels < 2 ^ 16 → get16 head 22 ≡ channels
  unfolding init_wav_header put_bytes put32 put16 poke get16
  channels_lem l = omega arith

  pub rate_lem : rate < 2 ^ 32 → get32 head 24 ≡ rate
  unfolding init_wav_header put_bytes put32 put16 poke get32 get16
  rate_lem l = omega arith

  pub bits_lem : bits < 2 ^ 16 → get16 head 34 ≡ bits
  unfolding init_wav_header put_bytes put32 put16 poke get16
  bits_lem l = omega arith

  pub len_lem : len < 2 ^ 32 → get32 head 40 ≡ len
  unfolding init_wav_header put_bytes put32 put16 poke get32 get16
  len_lem l = omega arith

-- If the number of channels and the bits of a sample fit 16 bits and the rate and the length 32,
-- then parse_wav_header gives back what init_wav_header was given, and the length of the head, 44.
pub parse-init :
    (m : Mem) (len channels rate bits : ℕ) (out : Out)
    → len < 2 ^ 32
    → channels < 2 ^ 16
    → rate < 2 ^ 32
    → bits < 2 ^ 16
    → parse_wav_header (init_wav_header m len channels rate bits) out
      ≡ (len, record { head_len = 44; channels = channels; sample_rate = rate; bits = bits })
unfolding parse_wav_header parse_fmt parse_data
parse-init m len channels rate bits out ll lc lr lb =
    rw
      (
        riff m len channels rate bits,
        wave m len channels rate bits,
        junk m len channels rate bits,
        fmt m len channels rate bits,
        fmt_len m len channels rate bits,
        tag m len channels rate bits,
        fact m len channels rate bits,
        body m len channels rate bits,
        channels_lem m len channels rate bits lc,
        rate_lem m len channels rate bits lr,
        bits_lem m len channels rate bits lb,
        len_lem m len channels rate bits ll,
      )
      refl
