-- ===== src/Wav/Stored.antt =====
-- A head in another memory: parse_wav_header reads it as it reads the one that init_wav_header wrote.
use test_tools.Common.{ℕ, ◌+◌, ◌^◌, ◌<◌, ◌≤◌, ◌≡◌, refl, arith}
use test_tools.Common.Text.{bytes}
use test_tools.Common.Bytes.{Mem, Agree, has_bytes-Agree}
use test_tools.Wav.{
  get16, get32, init_wav_header, Out, skip_junk, skip_fact, parse_data, parse_fmt, parse_wav_header,
}
use test_tools.Wav.Head.{
  head, riff, wave, junk, fmt, fmt_len, tag, fact, body, channels_lem, rate_lem, bits_lem, len_lem,
}

module _ (n : ℕ) (m m' : Mem) (g : Agree n m m') where
  get16-Agree : (a : ℕ) → a + 2 ≤ n → get16 m' a ≡ get16 m a
  unfolding get16
  get16-Agree a l = rw (g a (omega arith), g (a + 1) (omega arith)) refl

  get32-Agree : (a : ℕ) → a + 4 ≤ n → get32 m' a ≡ get32 m a
  unfolding get32
  get32-Agree a l = rw (get16-Agree a (omega arith), get16-Agree (a + 2) (omega arith)) refl

module _ (m m' : Mem) (len channels rate bits : ℕ)
    (g : Agree 44 (head m len channels rate bits) m') where
  junk-Agree : skip_junk m' 12 ≡ 12
  unfolding skip_junk init_wav_header
  junk-Agree =
      rw (has_bytes-Agree 44 (head m len channels rate bits) m' 12 (bytes "JUNK") g (omega arith))
        (junk m len channels rate bits)

  fact-Agree : skip_fact m' 36 ≡ 36
  unfolding skip_fact
  fact-Agree =
      rw (has_bytes-Agree 44 (head m len channels rate bits) m' 36 (bytes "fact") g (omega arith))
        (fact m len channels rate bits)

-- parse_wav_header on a memory that has the 44 bytes of the head that init_wav_header makes of these
-- numbers, whatever stands behind them: it gives back the numbers and 44, provided the number of
-- channels and the bits of a sample fit 16 bits and the rate and the length 32.
pub parse-stored :
    (m m' : Mem) (len channels rate bits : ℕ) (out : Out)
    → Agree 44 (init_wav_header m len channels rate bits) m'
    → len < 2 ^ 32
    → channels < 2 ^ 16
    → rate < 2 ^ 32
    → bits < 2 ^ 16
    → parse_wav_header m' out
      ≡ (len, record { head_len = 44; channels = channels; sample_rate = rate; bits = bits })
unfolding parse_wav_header parse_fmt parse_data
parse-stored m m' len channels rate bits out g ll lc lr lb =
    let h = head m len channels rate bits in
    rw
      (
        has_bytes-Agree 44 h m' 0 (bytes "RIFF") g (omega arith),
        riff m len channels rate bits,
        has_bytes-Agree 44 h m' 8 (bytes "WAVE") g (omega arith),
        wave m len channels rate bits,
        junk-Agree m m' len channels rate bits g,
        has_bytes-Agree 44 h m' 12 (bytes "fmt ") g (omega arith),
        fmt m len channels rate bits,
        get16-Agree 44 h m' g 20 (omega arith),
        tag m len channels rate bits,
        get32-Agree 44 h m' g 16 (omega arith),
        fmt_len m len channels rate bits,
        fact-Agree m m' len channels rate bits g,
        has_bytes-Agree 44 h m' 36 (bytes "data") g (omega arith),
        body m len channels rate bits,
        get16-Agree 44 h m' g 22 (omega arith),
        channels_lem m len channels rate bits lc,
        get32-Agree 44 h m' g 24 (omega arith),
        rate_lem m len channels rate bits lr,
        get16-Agree 44 h m' g 34 (omega arith),
        bits_lem m len channels rate bits lb,
        get32-Agree 44 h m' g 40 (omega arith),
        len_lem m len channels rate bits ll,
      )
      refl
