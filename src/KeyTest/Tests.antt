-- ===== src/KeyTest/Tests.antt =====
-- Runs of the key test.
use test_tools.Common.{◌≡◌, refl, true, some, List, [], ◌∷◌, arith}
use test_tools.Widget.Touch.{
  find_button_by_position, find_button_by_id, istouchingbutton, get_touch,
}
use test_tools.Widget.Setup.{
  init_param, init_backguound, init_keyboard, init_button, set_button_mode,
}
use test_tools.Widget.Catch.{
  catch_action_for_button, on_event, on_syn, on_keep, on_end, on_inside, on_outside, press_button,
  release_button,
}
use test_tools.Widget.Listen.{
  Callbacks, Wake, ready, from_buttons, start_listen, listen_loop, on_sources, on_source, touched,
  run_callback,
}
use test_tools.Widget.Samples.{screen, no_buttons}
use test_tools.Widget.Taps.{syn}
use test_tools.KeyTest.{main, set_up, exit_status, check_button_result}
use test_tools.KeyTest.Result.{Verdict, exit_status_lem}

abbrev no_callbacks : Callbacks
no_callbacks f param s = s

-- A tap on the "fail" button.
abbrev tap_fail : List Wake
tap_fail =
    ready (
      from_buttons (
        record { type = 3; code = 53; value = 220 }
        ∷ record { type = 3; code = 54; value = 320 }
        ∷ syn
        ∷ syn
        ∷ [])
      ∷ [])
    ∷ []

ends_with_one : (main screen 1 2 3 no_callbacks true true tap_fail no_buttons).1 ≡ some 1
unfolding main set_up exit_status check_button_result start_listen listen_loop on_sources on_source
    touched run_callback catch_action_for_button on_event on_syn on_keep on_end on_inside on_outside
    press_button release_button find_button_by_position find_button_by_id istouchingbutton get_touch
    init_param init_backguound init_keyboard init_button set_button_mode
ends_with_one = refl

exit_status_lem_example :
    let r = main screen 1 2 3 no_callbacks true true tap_fail no_buttons in Verdict 2 3 r.0 r.1
exit_status_lem_example =
    exit_status_lem screen 1 2 3 no_callbacks tap_fail no_buttons (omega arith) refl
