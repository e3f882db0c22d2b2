-- ===== src/Sndtest/Replay.antt =====
-- sndtest.c plays a file.
use test_tools.Common.{
  ℕ, ◌+◌, ◌%◌, ◌^◌, ◌<◌, ◌≤◌, ◌≡◌, refl, ap, ◌∙◌, true, false, some, List, [], ◌∷◌, ◌++◌, ◌==◌, ltb,
  ==_of_ne, arith, length, take, take_all, All, append_assoc, append-nil, map,
}
use test_tools.Common.Int.{ℤ, ltb_int}
use test_tools.Common.Text.{bytes}
use test_tools.Sndtest.Options.{
  RunParams, init_params, default_buf_size, same_text, take_pair, take_pairs, adopt, fits, well,
  check_arg,
}
use test_tools.Sndtest.Audio.{
  Files, Control, dsp_channels, dsp_setfmt, dsp_speed, mixer_volume, dsp_name, mixer_name,
  open_replay, open_record, config_device, init_audio, close_audio,
}
use test_tools.Sndtest.Run.{Turn, left, replay_loop, run, main}

abbrev pub joined : List (List ℕ) → List ℕ
joined [] = []
joined (block ∷ blocks) = block ++ joined blocks

abbrev pub total : List (List ℕ) → ℕ
total [] = 0
total (block ∷ blocks) = length block + total blocks

-- The alarm has not gone off, the read gives the block and the device takes all of it.
abbrev pub quiet : List ℕ → Turn
quiet block = record { alarm = false; read = some block; taken = some (length block) }

-- A block that fits the buffer, and is not empty.
abbrev pub Fits : List ℕ → Type 0
Fits block = (0 < length block) × (length block ≤ default_buf_size)

replay_loop-joined :
    (blocks : List (List ℕ)) (turns : List Turn) (ops file_length : ℕ) (written : List ℕ)
    → All Fits blocks
    → file_length ≡ ops + total blocks
    → file_length < 2 ^ 31
    → replay_loop (map quiet blocks ++ turns) ops file_length written
      ≡ left (written ++ joined blocks)
unfolding replay_loop
replay_loop-joined [] [] ops n written h e u =
    let f : ltb_int ops n ≡ false = ground arith in rw (f, append-nil written) refl
replay_loop-joined [] (t ∷ turns) ops n written h e u =
    let f : ltb_int ops n ≡ false = ground arith in rw (replay_loop, f, append-nil written) refl
replay_loop-joined (block ∷ blocks) turns ops n written h e u =
    let l = h.0.0 in
    let eo : (ops + length block) % 2 ^ 32 ≡ ops + length block = omega (arith, e, u) in
    let f : ltb_int ops n ≡ true = ground arith in
    let t : take default_buf_size block ≡ block = take_all default_buf_size block h.0.1 in
    let t' : take (length block) block ≡ block = take_all (length block) block (omega arith) in
    let z : (length block == 0) ≡ false = ==_of_ne (length block) 0 (omega (arith, l)) in
    let ih =
      replay_loop-joined blocks turns (ops + length block) n (written ++ block) h.1
        (omega (arith, e)) u in
    let rest = map quiet blocks ++ turns in
    let zt : (length (take default_buf_size block) == 0) ≡ false = ap (λ b. length b == 0) t ∙ z in
    rw (replay_loop, f, zt)
      (ap (λ b. replay_loop rest ((ops + length b) % 2 ^ 32) n (written ++ take (length block) b)) t
        ∙ ap (λ k. replay_loop rest k n (written ++ take (length block) block)) eo
        ∙ ap (λ b. replay_loop rest (ops + length block) n (written ++ b)) t'
        ∙ ih
        ∙ ap left (append_assoc written block (joined blocks)))

-- The calls of sndtest.c on files and devices come out well.
pub record Opens (f : Files) : Type 0 where
  pub opens : (name : List ℕ) → f.opens name ≡ true

-- The parameters behind `--replay name`, before and behind `init_audio`.
abbrev pub to_replay : List ℕ → RunParams
to_replay name = record init_params { replay_enable = true; replay_file = name }

abbrev pub opened : List ℕ → (file_length : ℕ) → RunParams
opened name n = record (to_replay name) {
  dsp_fd = some dsp_name;
  replay_fd = some name;
  replay_file_length = n;
  mixer_fd = some mixer_name;
}

-- The calls that set the device and the volume.
abbrev pub controls : List (Control × ℕ)
controls = (dsp_channels, 2) ∷ (dsp_setfmt, 16) ∷ (dsp_speed, 44100) ∷ (mixer_volume, 80) ∷ []

pub check_arg-replay :
    (atoi : List ℕ → ℤ) (name : List ℕ)
    → length name ≤ 126
    → check_arg atoi (bytes "--replay" ∷ name ∷ []) init_params ≡ well (to_replay name)
unfolding check_arg take_pairs take_pair same_text adopt init_params fits
check_arg-replay atoi name l =
    let e : ltb (length name) 127 ≡ true = ground arith in
    rw (check_arg, take_pairs, take_pair, e) refl

init_audio-replay :
    (f : Files) (name : List ℕ) (n : ℕ)
    → Opens f
    → 0 < length name
    → f.size name ≡ some n
    → n < 2 ^ 31
    → init_audio f (to_replay name) ≡ some (opened name n, controls)
unfolding init_audio open_replay open_record config_device init_params
init_audio-replay f name n o l e u =
    let en : n % 2 ^ 32 ≡ n = omega (arith, u) in
    let z = ==_of_ne (length name) 0 (omega arith) in
    rw (init_audio, open_replay, z, o.opens dsp_name, o.opens name, e, en, o.opens mixer_name) refl

-- Let all files open, the name have from 1 to 126 bytes, `stat` give the length of the file, which is less
-- than 2^31 and which the reads yield in blocks of at most 2048
-- bytes, none of them empty, and the device take each block whole before the alarm goes off. Then
-- `main --replay name` sets the device to two channels of 16 bits at 44100 and the volume to 80, sends
-- "6" to the mixer and all the bytes of the file to the device, closes what it has opened and returns 0.
pub main-replay :
    (atoi : List ℕ → ℤ) (f : Files) (name : List ℕ) (blocks : List (List ℕ)) (turns : List Turn)
    → Opens f
    → 0 < length name
    → length name ≤ 126
    → f.size name ≡ some (total blocks)
    → total blocks < 2 ^ 31
    → All Fits blocks
    → main atoi f true (map quiet blocks ++ turns) (bytes "--replay" ∷ name ∷ [])
      ≡ well (record {
        controls = controls;
        sounded = record { mixer = bytes "6"; recorded = left []; replayed = left (joined blocks) };
        closed = some dsp_name ∷ some name ∷ some mixer_name ∷ [];
      })
unfolding main run close_audio init_params
main-replay atoi f name blocks turns o l l' e u h =
    rw
      (
        main,
        check_arg-replay atoi name l',
        init_audio-replay f name (total blocks) o l e u,
        replay_loop-joined blocks turns 0 (total blocks) [] h (omega arith) u,
      )
      refl
