-- ===== src/Sndkit/Files.antt =====
-- `makewav` and `strip_wav` of sndkit.c. A file is the list of its bytes, less than 2^32 of them; a call
-- of `read` on it does not fail and gives what is left, up to the number asked for.
use test_tools.Common.{
  ℕ, zero, suc, ◌+◌, ◌-◌, Bool, true, false, not, Option, none, some, List, ◌++◌, ◌==◌, ltb,
  if◌then◌else◌, length, take, drop,
}
use test_tools.Common.Int.{pos, negsuc}
use test_tools.Common.Bytes.{Mem, put_bytes, peek}
use test_tools.Wav.{init_wav_header, parse_wav_header, Out}
use test_tools.Sndkit.Io.{
  End, returned, waits, Sink, finished, stopped, blocked, write_all, positive_part,
}
use test_tools.Sndkit.Formats.{bits_of}

-- `WAV_HEAD_SIZE`
abbrev pub wav_head_size : ℕ
wav_head_size = 44

abbrev pub max_wav_head_size : ℕ
max_wav_head_size = 256

abbrev pub file_block_len : ℕ
file_block_len = 4096

-- How the calls of the two functions come out: whether the files open, whether `lstat` finds a
-- regular file and whether there is memory.
pub record Luck : Type 0 where
  pub wav_opens : Bool
  pub raw_opens : Bool
  pub is_file : Bool
  pub room : Bool

-- A name that is given and not empty.
unfoldable pub is_named : Option (List ℕ) → Bool
is_named none = false
is_named (some name) = not (length name == 0)

-- The file behind the writes: it is opened with O_CREAT and without O_TRUNC, so what stood behind
-- them stays.
abbrev pub overwritten : (old written : List ℕ) → List ℕ
overwritten old written = written ++ drop (length written) old

-- The loop of both functions, with `left` for `file_len` or `wav_data_len` and `rest` for what has
-- not been read.
unfoldable pub copy_loop : (fuel left : ℕ) → List ℕ → Sink → End × Sink
unfolding write_all
copy_loop zero left rest s = (waits, s)
copy_loop (suc k) left rest s =
    let block = take file_block_len rest in
    elim (ltb 0 left) [
      | false ↦ (returned (pos 0), s)
      | true ↦ elim (length block == 0) [
        | true ↦ (returned (pos 0), s)
        | false ↦
            let (status, s') = write_all block s in
            elim status [
              | finished ↦ copy_loop k (left - length block) (drop file_block_len rest) s'
              | stopped ↦ (returned (negsuc 0), s')
              | blocked ↦ (waits, s')
            ]
      ]
    ]

-- `m` is what `wav_head` holds at first.
unfoldable pub makewav :
    Luck
    → (wav_file raw_file : Option (List ℕ)) (channels speed format : ℕ) (raw : List ℕ) → Mem
    → Sink
    → End × Sink
unfolding is_named copy_loop bits_of write_all
makewav l wav_file raw_file channels speed format raw m s =
    if not (is_named wav_file)
    then (returned (negsuc 0), s)
    else if not (is_named raw_file)
    then (returned (negsuc 0), s)
    else if not l.wav_opens
    then (returned (negsuc 0), s)
    else if not l.is_file
    then (returned (negsuc 0), s)
    else if not l.raw_opens
    then (returned (negsuc 0), s)
    else let head = init_wav_header m (length raw) channels speed (bits_of format 16) in
      let (status, s') = write_all (peek head wav_head_size 0) s in
      elim status [
        | stopped ↦ (returned (negsuc 0), s')
        | blocked ↦ (waits, s')
        | finished ↦
            if l.room
            then copy_loop (length raw + 1) (positive_part (length raw)) raw s'
            else (returned (negsuc 0), s')
      ]

-- `m` is what `buff` holds at first.
unfoldable pub strip_wav :
    Luck → (raw_file wav_file : Option (List ℕ)) (wav : List ℕ) → Mem → Sink → End × Sink
unfolding is_named copy_loop
strip_wav l raw_file wav_file wav m s =
    if not (is_named wav_file)
    then (returned (negsuc 0), s)
    else if not (is_named raw_file)
    then (returned (negsuc 0), s)
    else if not l.wav_opens
    then (returned (negsuc 0), s)
    else if not l.raw_opens
    then (returned (negsuc 0), s)
    else if not l.room
    then (returned (negsuc 0), s)
    else let start = take max_wav_head_size wav in
      if not (length start == max_wav_head_size)
      then (returned (negsuc 0), s)
      else let unset : Out = record { head_len = 0; channels = 0; sample_rate = 0; bits = 0 } in
        let (len, out) = parse_wav_header (put_bytes 0 start m) unset in
        if len == 0
        then (returned (negsuc 0), s)
        else copy_loop (length wav + 1) (positive_part len) (drop out.head_len wav) s
