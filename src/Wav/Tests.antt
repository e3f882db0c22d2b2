-- ===== src/Wav/Tests.antt =====
-- Runs of the functions of wav.c.
use test_tools.Common.{ℕ, ◌<◌, ◌≡◌, some, arith}
use test_tools.Common.Bytes.{Mem}
use test_tools.Wav.{
  Out, init_wav_header, parse_wav_header, wav_expand_24bit_to_32bit, wav_32bit_to_24bit,
}
use test_tools.Wav.Head.{parse-init}
use test_tools.Wav.Chunks.{Answer, parse_wav_header-Answer}
use test_tools.Wav.Convert.{Expanded, wav_expand-Expanded}
use test_tools.Wav.Narrow.{narrow-expand}

-- Each byte is its offset.
abbrev offsets : Mem
offsets a = a

abbrev unset : Out
unset = record { head_len = 0; channels = 0; sample_rate = 0; bits = 0 }

parse-init_example :
    parse_wav_header (init_wav_header offsets 96000 2 48000 24) unset
    ≡ (96000, record { head_len = 44; channels = 2; sample_rate = 48000; bits = 24 })
parse-init_example =
    parse-init offsets 96000 2 48000 24 unset (omega arith) (omega arith) (omega arith)
      (omega arith)

parse_wav_header-Answer_example :
    Answer
      (init_wav_header offsets 8 1 8000 16)
      unset
      (parse_wav_header (init_wav_header offsets 8 1 8000 16) unset)
parse_wav_header-Answer_example =
    parse_wav_header-Answer (init_wav_header offsets 8 1 8000 16) unset

wav_expand-Expanded_example :
    (m' : Mem) × (wav_expand_24bit_to_32bit offsets 16 ≡ some m') × Expanded offsets m' 0 5
wav_expand-Expanded_example = wav_expand-Expanded offsets 5 1 (omega arith) (omega arith)

narrow-expand_example :
    (m1 m2 : Mem) × (wav_expand_24bit_to_32bit offsets 12 ≡ some m1)
    × (wav_32bit_to_24bit m1 16 ≡ some m2)
    × ((a : ℕ) → a < 12 → m2 a ≡ offsets a)
narrow-expand_example = narrow-expand offsets 4 (omega arith)
