-- ===== src/Sensors/Stop.antt =====
-- test_heartrate/test_pah8001/pah8001_stop.c: the screen that follows a failed test of the heart rate,
-- with a button to go on.
use test_tools.Common.{ℕ, Bool, true, Option, none, some, List}
use test_tools.Common.Text.{bytes}
use test_tools.Common.Int.{ℤ}
use test_tools.Widget.Types.{Ptr, Ui, MinUi, ecs_listen}
use test_tools.Widget.Setup.{init_param, init_backguound, init_button, set_button_mode}
use test_tools.Widget.Listen.{Callbacks, Wake, start_listen}

-- `next` is the address of the button.
pub show_fail : MinUi → (next : Ptr) → Ui → Ui
show_fail g next s0 =
    let s1 = init_backguound g (bytes "/system/pretest/heartratefail") 0 0 (init_param g s0) in
    let s2 =
      init_button g next true (bytes "/system/pretest/rNextItem")
        (bytes "/system/pretest/pNextItem") 89 255 s1 in
    (set_button_mode (some next) ecs_listen s2).1

-- The exit status is 1 once start_listen has returned, whatever that returned; `none` before.
abbrev pub status_of : Option ℤ → Option ℕ
status_of none = none
status_of (some r) = some 1

-- The last state and the exit status of `main`.
pub main :
    MinUi → (next : Ptr) → Callbacks → (add_button add_key : Bool) → List Wake → Ui → Ui × Option ℕ
main g next call add_button add_key ws s0 =
    let (s, r) = start_listen call add_button add_key ws (show_fail g next s0) in (s, status_of r)
