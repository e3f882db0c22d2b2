-- ===== src/Wav.antt =====
-- test_speaker/sndkit_only_replay/wav.c and wav.h: the head of a WAV file, and the conversion of
-- samples between 24 and 32 bits in place. Memory is a byte for each offset from `data`; the target
-- is little-endian. `*head_len` and the length that is returned are `int`s, here as their 32-bit words; the
-- lengths that the conversions take are not negative.
pub mod Head
pub mod Chunks
pub mod Convert
pub mod Narrow
pub mod Stored
mod Tests
use test_tools.Common.{
  ℕ, zero, suc, ◌+◌, ◌-◌, ◌*◌, ◌/◌, ◌%◌, ◌^◌, Bool, true, ◌&&◌, Option, none, some, List, [], ◌∷◌,
  ◌==◌, ltb, if◌then◌else◌,
}
use test_tools.Common.Text.{bytes}
use test_tools.Common.Bytes.{Mem, poke, put_bytes, has_bytes}

unfoldable pub put16 : ℕ → ℕ → Mem → Mem
unfolding poke
put16 a v m = poke (a + 1) (v / 2 ^ 8 % 2 ^ 8) (poke a (v % 2 ^ 8) m)

unfoldable pub put32 : ℕ → ℕ → Mem → Mem
unfolding put16
put32 a v m = put16 (a + 2) (v / 2 ^ 16) (put16 a v m)

unfoldable pub get16 : Mem → ℕ → ℕ
get16 m a = m a + m (a + 1) * 2 ^ 8

unfoldable pub get32 : Mem → ℕ → ℕ
unfolding get16
get32 m a = get16 m a + get16 m (a + 2) * 2 ^ 16

-- `sizeof(struct fmt_chunk_head)`
abbrev pub fmt_size : ℕ
fmt_size = 24

unfoldable pub init_wav_header : Mem → (data_len channels sample_rate bits : ℕ) → Mem
unfolding put_bytes put16 put32
init_wav_header m data_len channels sample_rate bits =
    let block_align = channels * bits % 2 ^ 32 / 8 % 2 ^ 16 in
    let m1 = put_bytes 0 (bytes "RIFF") m in
    let m2 = put32 4 ((data_len + 4 + fmt_size + 8) % 2 ^ 32) m1 in
    let m3 = put_bytes 8 (bytes "WAVE") m2 in
    let m4 = put_bytes 12 (bytes "fmt ") m3 in
    let m5 = put32 16 (fmt_size - 8) m4 in
    let m6 = put16 20 1 m5 in
    let m7 = put16 22 (channels % 2 ^ 16) m6 in
    let m8 = put32 24 sample_rate m7 in
    let m9 = put16 32 block_align m8 in
    let m10 = put32 28 (sample_rate * block_align % 2 ^ 32) m9 in
    let m11 = put16 34 (bits % 2 ^ 16) m10 in
    let m12 = put_bytes 36 (bytes "data") m11 in put32 40 data_len m12

-- The variables that parse_wav_header writes through its pointers.
pub record Out : Type 0 where
  pub head_len : ℕ
  pub channels : ℕ
  pub sample_rate : ℕ
  pub bits : ℕ

-- `data += (*junk_len + 8)` if a JUNK chunk stands there; the sum is unsigned.
unfoldable pub skip_junk : Mem → ℕ → ℕ
unfolding has_bytes get32
skip_junk m p = if has_bytes m p (bytes "JUNK") then p + (get32 m (p + 4) + 8) % 2 ^ 32 else p

unfoldable pub skip_fact : Mem → ℕ → ℕ
unfolding has_bytes
skip_fact m p = if has_bytes m p (bytes "fact") then p + 12 else p

-- The code from the chunk behind the fmt chunk on.
unfoldable pub parse_data : Mem → ℕ → Out → ℕ × Out
unfolding skip_fact has_bytes get32
parse_data m p out =
    let q = skip_fact m p in
    if has_bytes m q (bytes "data")
    then (get32 m (q + 4), record out { head_len = (q + 8) % 2 ^ 32 })
    else (0, out)

-- The code from the fmt chunk on.
unfoldable pub parse_fmt : Mem → ℕ → Out → ℕ × Out
unfolding parse_data has_bytes get16 get32
parse_fmt m p out =
    if has_bytes m p (bytes "fmt ")
    then if get16 m (p + 8) == 1
      then parse_data m (p + (get32 m (p + 4) + 8) % 2 ^ 32) (record out {
        channels = get16 m (p + 10);
        sample_rate = get32 m (p + 12);
        bits = get16 m (p + 22);
      })
      else (0, out)
    else (0, out)

unfoldable pub parse_wav_header : Mem → Out → ℕ × Out
unfolding parse_fmt skip_junk has_bytes
parse_wav_header m out =
    if has_bytes m 0 (bytes "RIFF")
    then if has_bytes m 8 (bytes "WAVE") then parse_fmt m (skip_junk m 12) out else (0, out)
    else (0, out)

-- The sample at `src`, then a zero, to `dst`; each byte is read after the last one was written.
unfoldable pub expand_sample : ℕ → ℕ → Mem → Mem
unfolding poke
expand_sample src dst m =
    let m1 = poke dst (m src) m in
    let m2 = poke (dst + 1) (m1 (src + 1)) m1 in
    let m3 = poke (dst + 2) (m2 (src + 2)) m2 in poke (dst + 3) 0 m3

-- The loop of wav_expand_24bit_to_32bit, `k` times: `src`, `dst` and the memory.
unfoldable pub expand_loop : (k src dst : ℕ) → Mem → ℕ × ℕ × Mem
expand_loop zero src dst m = (src, dst, m)
expand_loop (suc k) src dst m = expand_loop k (src - 3) (dst - 4) (expand_sample src dst m)

-- The first three samples, by way of `tmp_sample`.
unfoldable pub expand_first : Mem → Mem
unfolding put_bytes
expand_first m =
    put_bytes 0 (m 0 ∷ m 1 ∷ m 2 ∷ 0 ∷ m 3 ∷ m 4 ∷ m 5 ∷ 0 ∷ m 6 ∷ m 7 ∷ m 8 ∷ 0 ∷ []) m

-- `none` where an assertion fails. `src == data` after `src -= 6` is `src == 6` before; so too where
-- `src` or `dst` points before `data`, which is 0 here.
unfoldable pub wav_expand_24bit_to_32bit : Mem → ℕ → Option Mem
unfolding expand_loop expand_first
wav_expand_24bit_to_32bit m len0 =
    let len = if len0 % 3 == 0 then len0 else len0 - len0 % 3 in
    let (src, dst, m') = expand_loop (len / 3 - 3) (len - 3) (len / 3 * 4 - 4) m in
    if (src == 6) && (dst == 8) then some (expand_first m') else none

unfoldable pub narrow_sample : ℕ → ℕ → Mem → Mem
unfolding poke
narrow_sample src dst m =
    let m1 = poke dst (m src) m in
    let m2 = poke (dst + 1) (m1 (src + 1)) m1 in poke (dst + 2) (m2 (src + 2)) m2

-- The loop of wav_32bit_to_24bit; `none` if the fuel runs out.
unfoldable pub narrow_loop : (fuel len i src dst : ℕ) → Mem → Option Mem
narrow_loop zero len i src dst m = none
narrow_loop (suc k) len i src dst m =
    let rest = narrow_loop k len (i + 4) (src + 4) (dst + 3) (narrow_sample src dst m) in
    if ltb i len then rest else some m

unfoldable pub wav_32bit_to_24bit : Mem → ℕ → Option Mem
unfolding narrow_loop
wav_32bit_to_24bit m len = narrow_loop (len + 1) len 0 0 0 m
