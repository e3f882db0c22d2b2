-- ===== src/Touchlog/Tests.antt =====
-- A run of test_eventnum.c.
use test_tools.Common.{ℕ, ◌≡◌, ◌-◌, refl, false, some, List, [], ◌∷◌, arith}
use test_tools.Common.Int.{ℤ, pos}
use test_tools.Common.Text.{bytes, is_prefix, strstr}
use test_tools.Touchlog.{Piece}
use test_tools.Touchlog.EventNum.{test_eventnum, test_eventnum-found}

abbrev piece : List ℕ → Piece
piece t = record { text = t; at_end = false }

-- `atoi` of one digit.
abbrev digit : List ℕ → ℤ
digit [] = pos 0
digit (c ∷ cs) = pos (c - 48)

test_eventnum-found_example :
    test_eventnum digit 3 (bytes "goodix") (
      some (
        piece (bytes "add device 1: /dev/input/event0")
        ∷ piece (bytes "name: gpio-keys")
        ∷ piece (bytes "add device 2: /dev/input/event3")
        ∷ piece (bytes "name: goodix-ts")
        ∷ []))
    ≡ pos 3
unfolding strstr is_prefix
test_eventnum-found_example =
    test_eventnum-found digit (bytes "goodix")
      ((piece (bytes "add device 1: /dev/input/event0"), piece (bytes "name: gpio-keys")) ∷ [])
      (piece (bytes "add device 2: /dev/input/event3")) (piece (bytes "name: goodix-ts")) []
      (bytes "event3") 3 (omega arith) ((refl, refl), tt) refl refl refl (omega arith)
