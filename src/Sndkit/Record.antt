-- ===== src/Sndkit/Record.antt =====
-- `record` of sndkit.c.
use test_tools.Common.{
  ℕ, ◌-◌, ◌*◌, ◌/◌, ◌%◌, ◌^◌, Bool, true, false, ◌&&◌, none, some, List, [], ◌∷◌, ◌==◌, ltb,
  if◌then◌else◌, length, take,
}
use test_tools.Common.Int.{pos, negsuc}
use test_tools.Common.Bytes.{Mem, put_bytes, peek}
use test_tools.Wav.{wav_32bit_to_24bit}
use test_tools.Sndkit.Io.{
  Read, got, failed, End, returned, waits, Sink, finished, stopped, blocked, write_all,
  positive_part,
}
use test_tools.Sndkit.Formats.{bits_of}

-- `struct record_params`, less the descriptors.
pub record RecordParams : Type 0 where
  pub buffer_size : ℕ
  pub duration : ℕ
  pub format : ℕ
  pub channels : ℕ
  pub speed : ℕ
  pub is_wav : Bool

-- A division of `int`s by 8, on their 32-bit words: towards 0.
unfoldable pub eighth : ℕ → ℕ
eighth v = if ltb v (2 ^ 31) then v / 8 else (2 ^ 32 - (2 ^ 32 - v) / 8) % 2 ^ 32

-- The 32-bit word of `format_bits * channels * speed / 8 * duration`, in `int` with its wrap-around.
unfoldable pub record_length : ℕ → RecordParams → ℕ
unfolding eighth
record_length format_bits p =
    eighth (format_bits * p.channels * p.speed % 2 ^ 32) * p.duration % 2 ^ 32

-- The buffer behind one `read`, and `n_read` as it stands then. Where the fuel of the conversion runs
-- out, the buffer stays (it does not: see `Wav`).
unfoldable pub take_in : (narrows : Bool) → Mem → List ℕ → Mem × ℕ
take_in false m block = (put_bytes 0 block m, length block)
take_in true m block =
    let m1 = put_bytes 0 block m in
    let n = length block / 4 * 3 in
    elim (wav_32bit_to_24bit m1 (length block)) [ none ↦ (m1, n) | some m2 ↦ (m2, n) ]

-- The loop with `left` for `record_len`.
unfoldable pub record_loop :
    (narrows : Bool) (buffer_size : ℕ) → List Read → (left : ℕ) → Mem → Sink → End × Sink
unfolding take_in write_all
record_loop narrows size [] left m s = if ltb 0 left then (waits, s) else (returned (pos 0), s)
record_loop narrows size (failed ∷ reads) left m s =
    if ltb 0 left then (returned (negsuc 0), s) else (returned (pos 0), s)
record_loop narrows size (got bs ∷ reads) left m s =
    let block = take (if ltb left size then left else size) bs in
    elim (ltb 0 left) [
      | false ↦ (returned (pos 0), s)
      | true ↦ elim (length block == 0) [
        | true ↦ record_loop narrows size reads left m s
        | false ↦
            let (m', n) = take_in narrows m block in
            let count = if ltb n left then n else left in
            let (status, s') = write_all (peek m' count 0) s in
            elim status [
              | finished ↦ record_loop narrows size reads (left - count) m' s'
              | stopped ↦ (returned (negsuc 0), s')
              | blocked ↦ (waits, s')
            ]
      ]
    ]

unfoldable pub record_sound : RecordParams → (room : Bool) → List Read → Mem → Sink → End × Sink
unfolding record_loop bits_of record_length
record_sound p room reads m s =
    let format_bits = bits_of p.format 16 in
    if room
    then record_loop (p.is_wav && (format_bits == 24)) p.buffer_size reads
        (positive_part (record_length format_bits p)) m s
    else (returned (negsuc 0), s)
