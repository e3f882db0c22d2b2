-- ===== src/Sndkit/Play.antt =====
-- `play` of sndkit.c.
use test_tools.Common.{
  ℕ, ◌-◌, ◌*◌, ◌/◌, ◌%◌, ◌+◌, Bool, true, false, ◌&&◌, ◌||◌, Option, none, some, List, [], ◌∷◌,
  ◌==◌, ltb, if◌then◌else◌, length, take,
}
use test_tools.Common.Int.{pos, negsuc}
use test_tools.Common.Bytes.{Mem, put_bytes, peek}
use test_tools.Wav.{wav_expand_24bit_to_32bit}
use test_tools.Sndkit.Io.{
  Read, got, failed, End, returned, waits, aborted, Sink, finished, stopped, blocked, write_all,
  positive_part,
}
use test_tools.Sndkit.Formats.{fmt_24_bits}

-- `struct replay_params`, less the descriptors; `channels` and `speed` are not used.
-- `replay_data_len` is an `int` by its 32 bits.
pub record ReplayParams : Type 0 where
  pub buffer_size : ℕ
  pub replay_data_len : ℕ
  pub format : ℕ
  pub is_wav : Bool

-- Whether `play` widens the samples.
abbrev pub widens : ReplayParams → Bool
widens p = p.is_wav && (p.format == fmt_24_bits)

-- The size that `malloc` is asked for.
unfoldable pub alloc_size : ReplayParams → ℕ
alloc_size p =
    let size = if p.buffer_size % 3 == 0 then p.buffer_size else (p.buffer_size / 3 + 1) * 3 in
    if p.format == fmt_24_bits then size / 3 * 4 else p.buffer_size

-- The buffer with the bytes of one `read`: what is to be written of it, and the buffer; `none` where
-- wav_expand_24bit_to_32bit fails its assertion.
unfoldable pub to_write : ReplayParams → Mem → List ℕ → Option (List ℕ × Mem)
to_write p m block =
    let m1 = put_bytes 0 block m in
    let len = length block / 3 * 3 in
    if widens p
    then elim (wav_expand_24bit_to_32bit m1 len) [
      | none ↦ none
      | some m2 ↦ some (peek m2 (len / 3 * 4) 0, m2)
    ]
    else some (peek m1 (length block) 0, m1)

-- The loop with `left` for `replay_data_len`. A call of `read` yields at most `buffer_size` bytes.
unfoldable pub play_loop :
    ReplayParams → (forever : Bool) → List Read → (left : ℕ) → Mem → Sink → End × Sink
unfolding to_write write_all
play_loop p forever [] left m s =
    if forever || ltb 0 left then (waits, s) else (returned (pos 0), s)
play_loop p forever (failed ∷ reads) left m s =
    if forever || ltb 0 left then (returned (negsuc 0), s) else (returned (pos 0), s)
play_loop p forever (got bs ∷ reads) left m s =
    let block = take p.buffer_size bs in
    elim (forever || ltb 0 left) [
      | false ↦ (returned (pos 0), s)
      | true ↦ elim (length block == 0) [
        | true ↦ (returned (pos 0), s)
        | false ↦ elim (to_write p m block) [
          | none ↦ (aborted, s)
          | some (bytes, m') ↦
              let (status, s') = write_all bytes s in
              elim status [
                | finished ↦
                    play_loop p forever reads (if forever then left else left - length block) m' s'
                | stopped ↦ (returned (negsuc 0), s')
                | blocked ↦ (waits, s')
              ]
        ]
      ]
    ]

-- `room` tells whether `malloc` gives the buffer, `m` its content.
unfoldable pub play : ReplayParams → (room : Bool) → List Read → Mem → Sink → End × Sink
unfolding play_loop
play p room reads m s =
    if room
    then play_loop p (p.replay_data_len == 0) reads (positive_part p.replay_data_len) m s
    else (returned (negsuc 0), s)
