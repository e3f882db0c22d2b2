-- ===== src/Sndtest/Tests.antt =====
-- Runs of sndtest.c.
use test_tools.Common.{ℕ, ◌≡◌, refl, true, some, List, [], ◌∷◌, ◌++◌, map, arith}
use test_tools.Common.Int.{ℤ, pos}
use test_tools.Common.Text.{bytes}
use test_tools.Sndtest.Audio.{Files, dsp_name, mixer_name}
use test_tools.Sndtest.Run.{left, main}
use test_tools.Sndtest.Options.{well}
use test_tools.Sndtest.Checked.{Valid, check_arg-Valid}
use test_tools.Sndtest.Replay.{quiet, joined, to_replay, controls, check_arg-replay, main-replay}

abbrev atoi : List ℕ → ℤ
atoi text = pos 0

abbrev files : Files
files = record { opens = λ name. true; size = λ name. some 5 }

abbrev blocks : List (List ℕ)
blocks = (1 ∷ 2 ∷ 3 ∷ []) ∷ (4 ∷ 5 ∷ []) ∷ []

check_arg-Valid_example : Valid (to_replay (bytes "a"))
check_arg-Valid_example =
    check_arg-Valid atoi (bytes "--replay" ∷ bytes "a" ∷ []) (to_replay (bytes "a"))
      (check_arg-replay atoi (bytes "a") (omega arith))

main-replay_example :
    main atoi files true (map quiet blocks ++ []) (bytes "--replay" ∷ bytes "a" ∷ [])
    ≡ well (record {
      controls = controls;
      sounded = record { mixer = bytes "6"; recorded = left []; replayed = left (joined blocks) };
      closed = some dsp_name ∷ some (bytes "a") ∷ some mixer_name ∷ [];
    })
main-replay_example =
    main-replay atoi files (bytes "a") blocks [] (record { opens = λ name. refl }) (omega arith)
      (omega arith) refl (omega arith)
      ((omega arith, omega arith), ((omega arith, omega arith), tt))
