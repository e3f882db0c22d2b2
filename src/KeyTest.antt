-- ===== src/KeyTest.antt =====
-- test_keyboard/inputevent.c: the key test, with a button for "pass" and one for "fail".
pub mod Result
mod Tests
use test_tools.Common.{ℕ, Bool, true, Option, none, some, List, [], ◌≡◌}
use test_tools.Common.Text.{bytes}
use test_tools.Common.Int.{ℤ}
use test_tools.Widget.Types.{Ptr, Ui, MinUi, Button, ecs_listen}
use test_tools.Widget.Setup.{
  init_param, init_backguound, init_keyboard, init_button, set_button_mode,
}
use test_tools.Widget.Listen.{Callbacks, Wake, start_listen}

unfoldable pub check_button_result : Button → ℕ
check_button_result b = b.result

-- The set-up; `keys`, `pass` and `fail` are the addresses of the three objects.
pub set_up : MinUi → (keys pass fail : Ptr) → Ui → Ui
set_up g keys pass fail s0 =
    let s1 = init_backguound g (bytes "/system/pretest/testkey") 40 40 (init_param g s0) in
    let s2 =
      init_keyboard g keys true (bytes "/system/pretest/releasekey")
        (bytes "/system/pretest/presskey") 130 168 s1 in
    let s3 =
      init_button g pass true (bytes "/system/pretest/rpass") (bytes "/system/pretest/ppass") 55 300
        s2 in
    let s4 =
      init_button g fail true (bytes "/system/pretest/rfail") (bytes "/system/pretest/pfail") 205
        300 s3 in
    (set_button_mode (some fail) ecs_listen (set_button_mode (some pass) ecs_listen s4).1).1

-- What `main` returns once start_listen has returned, whatever that returned; `none` before.
pub exit_status : Ptr → Ui → Option ℤ → Option ℕ
exit_status fail s none = none
exit_status fail s (some r) = some (check_button_result (s.button_at fail))

-- The last state and the exit status.
unfoldable pub main :
    MinUi
    → (keys pass fail : Ptr) → Callbacks
    → (add_button add_key : Bool) → List Wake
    → Ui
    → Ui × Option ℕ
unfolding set_up exit_status
main g keys pass fail call add_button add_key ws s0 =
    let (s, r) = start_listen call add_button add_key ws (set_up g keys pass fail s0) in
    (s, exit_status fail s r)
