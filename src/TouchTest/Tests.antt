-- ===== src/TouchTest/Tests.antt =====
-- Runs of the touch test.
use test_tools.Common.{◌+◌, refl, true, List, [], ◌∷◌}
use test_tools.Widget.Listen.{Wake, ready, from_buttons}
use test_tools.Widget.Returns.{Ends}
use test_tools.Widget.Samples.{screen, no_buttons, move}
use test_tools.Widget.Taps.{syn}
use test_tools.TouchTest.{Layout, mpara, bt_pass, main}
use test_tools.TouchTest.Complete.{SomeLeft, AllTouched, main-AllTouched}

abbrev layout : Layout
layout = record { check = 1000; fresh = λ k. 100 + k; para = λ k. k }

abbrev one_touch : List Wake
one_touch = ready (from_buttons (move ∷ syn ∷ syn ∷ []) ∷ []) ∷ []

main-AllTouched_example :
    let r = main screen layout (mpara layout) 1 true true one_touch no_buttons in
    Ends (SomeLeft (bt_pass layout.fresh 25 0)) (AllTouched (bt_pass layout.fresh 25 0)) r.0 r.1
main-AllTouched_example =
    main-AllTouched screen layout (mpara layout) 1 no_buttons one_touch (λ k small. refl) refl
