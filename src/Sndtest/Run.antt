-- ===== src/Sndtest/Run.antt =====
-- `run` and `main` of sndtest.c.
use test_tools.Common.{
  ℕ, ◌+◌, ◌%◌, ◌^◌, Bool, true, false, ◌&&◌, not, Option, none, some, List, [], ◌∷◌, ◌++◌, ◌==◌,
  if◌then◌else◌, length, take,
}
use test_tools.Common.Int.{ℤ, ltb_int}
use test_tools.Sndtest.Options.{
  RunParams, default_buf_size, Outcome, refused, overran, well, init_params, check_arg,
}
use test_tools.Sndtest.Audio.{Files, Control, init_audio, close_audio}

-- A turn of a loop: whether the alarm has gone off when the loop tests the flag, what `read` gives
-- (`none`: it fails; at most the buffer's length), and how many bytes `write` takes (`none`: it fails).
pub record Turn : Type 0 where
  pub alarm : Bool
  pub read : Option (List ℕ)
  pub taken : Option ℕ

-- How a loop ends, with what was written: it is left, or the turns are used up.
pub data Ended : Type 0 where
  left : List ℕ → Ended
  waits : List ℕ → Ended

-- The loop of the recording. What a call of `write` does not take is lost.
unfoldable pub record_loop : List Turn → (written : List ℕ) → Ended
record_loop [] written = waits written
record_loop (t ∷ turns) written = elim t.alarm [
  | true ↦ left written
  | false ↦ elim t.read [
    | none ↦ left written
    | some bs ↦
        let block = take default_buf_size bs in
        elim (length block == 0) [
          | true ↦ record_loop turns written
          | false ↦ elim t.taken [
            | none ↦ left written
            | some n ↦ record_loop turns (written ++ take n block)
          ]
        ]
  ]
]

-- The loop of the replay; `ops` counts the bytes that were read. It and `replay_file_length` are the words
-- of `int`s.
unfoldable pub replay_loop : List Turn → (ops file_length : ℕ) (written : List ℕ) → Ended
replay_loop [] ops file_length written =
    if ltb_int ops file_length then waits written else left written
replay_loop (t ∷ turns) ops file_length written = elim (ltb_int ops file_length && not t.alarm) [
  | false ↦ left written
  | true ↦ elim t.read [
    | none ↦ left written
    | some bs ↦
        let block = take default_buf_size bs in
        elim (length block == 0) [
          | true ↦ replay_loop turns ops file_length written
          | false ↦ elim t.taken [
            | none ↦ left written
            | some n ↦
                replay_loop turns ((ops + length block) % 2 ^ 32) file_length
                  (written ++ take n block)
          ]
        ]
  ]
]

-- The bytes that the mixer, the recorded file and the device get. `check_arg` has one of the two modes on.
pub record Sounded : Type 0 where
  pub mixer : List ℕ
  pub recorded : Ended
  pub replayed : Ended

-- `none` where there is no memory; else 0, if both loops are left. '8' is 56, '6' is 54.
unfoldable pub run : (room : Bool) → List Turn → RunParams → Option Sounded
unfolding record_loop replay_loop
run room turns p =
    if not room
    then none
    else some (record {
      mixer =
          (if p.record_enable then 56 ∷ [] else []) ++ (if p.replay_enable then 54 ∷ [] else []);
      recorded = if p.record_enable then record_loop turns [] else left [];
      replayed = if p.replay_enable then replay_loop turns 0 p.replay_file_length [] else left [];
    })

-- What `main` has done: the calls of `ioctl`, the sound and what it closes at the end.
pub record Done : Type 0 where
  pub controls : List (Control × ℕ)
  pub sounded : Sounded
  pub closed : List (Option (List ℕ))

-- Refused: exit status 1; else 0, if both loops are left.
unfoldable pub main :
    (atoi : List ℕ → ℤ) → Files → (room : Bool) → List Turn → List (List ℕ) → Outcome Done
unfolding check_arg init_params init_audio run close_audio
main atoi f room turns args = elim (check_arg atoi args init_params) [
  | refused ↦ refused
  | overran ↦ overran
  | well p ↦ elim (init_audio f p) [
    | none ↦ refused
    | some (p', controls) ↦ elim (run room turns p') [
      | none ↦ refused
      | some sounded ↦
          well (record { controls = controls; sounded = sounded; closed = close_audio p' })
    ]
  ]
]
