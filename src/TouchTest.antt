-- ===== src/TouchTest.antt =====
-- test_touchscreen/test_touchbutton.c: the touch test, a grid of 5 by 5 buttons that must all be
-- touched.
pub mod Covered
pub mod Grid
pub mod Complete
mod Tests
use test_tools.Common.{
  ℕ, zero, suc, ◌+◌, ◌*◌, ◌/◌, Bool, true, false, ◌||◌, Option, none, some, List, [], ◌∷◌, ◌==◌,
  if◌then◌else◌, take,
}
use test_tools.Common.Int.{ℤ}
use test_tools.Widget.Types.{Ptr, Ui, MinUi, Button, ecs_listen, enable, disable, write_button}
use test_tools.Widget.Setup.{init_param, set_swap, init_default_button, set_button_mode}
use test_tools.Widget.Listen.{Callbacks, Wake, start_listen}

pub record Para : Type 0 where
  pub this_bt : Ptr
  pub bt_list : List Ptr
  pub len : ℕ

abbrev pub green : ℕ
green = 0x00ff00ff

abbrev pub red : ℕ
red = 0x0000ffff

-- Whether one of the buttons has the result 0.
pub untouched : (Ptr → Button) → List Ptr → Bool
untouched at [] = false
untouched at (p ∷ ps) = (at p).result == 0 || untouched at ps

-- The button whose touch makes the test complete is set to end the listening.
pub check_bt : Para → Ui → Ui
check_bt m s =
    if untouched s.button_at (take m.len m.bt_list)
    then s
    else (set_button_mode (some m.this_bt) ecs_listen s).1

-- The addresses of `check_bt`, of the buttons and of their parameters; `fresh k` and `para k` belong
-- to the button with index k = i + j * 5.
pub record Layout : Type 0 where
  pub check : Ptr
  pub fresh : ℕ → Ptr
  pub para : ℕ → Ptr

-- The array `bt_pass` from the index `k` on, with `n` entries.
pub bt_pass : (ℕ → Ptr) → (n k : ℕ) → List Ptr
bt_pass fresh zero k = []
bt_pass fresh (suc n) k = fresh k ∷ bt_pass fresh n (k + 1)

-- The entry of the array `mpara` for the button with index k.
pub mpara : Layout → ℕ → Para
mpara l k = record { this_bt = l.fresh k; bt_list = bt_pass l.fresh 25 0; len = 25 }

-- The only callback of this program is `check_bt`; `at` reads a parameter.
pub callbacks : (Ptr → Para) → Callbacks
callbacks at f none s = s
callbacks at f (some q) s = check_bt (at q) s

-- The body of the two loops, for the column i and the row j.
pub init_cell : Layout → (width height i j : ℕ) → Ui → Ui
init_cell l width height i j s =
    let p = l.fresh (i + j * 5) in
    let s' = init_default_button p true (i * width) (j * height) width height green red s in
    let b = record (s'.button_at p) {
      draw_button_in_end = disable;
      fast_touch = enable;
      func = some l.check;
      param = some (l.para (i + j * 5));
    } in
    write_button p b s'

-- `n` columns from the column i on.
pub init_row : Layout → (width height n i j : ℕ) → Ui → Ui
init_row l width height zero i j s = s
init_row l width height (suc n) i j s =
    init_row l width height n (i + 1) j (init_cell l width height i j s)

-- `n` rows from the row j on.
pub init_rows : Layout → (width height n j : ℕ) → Ui → Ui
init_rows l width height zero j s = s
init_rows l width height (suc n) j s =
    init_rows l width height n (j + 1) (init_row l width height 5 0 j s)

-- The set-up; `f1` is the number in the environment variable F1.
pub set_up : MinUi → Layout → (f1 : ℕ) → Ui → Ui
set_up g l f1 s0 =
    let s1 = init_param g s0 in
    let s2 = if f1 == 1 then set_swap s1 else s1 in
    init_rows l (g.fb_width / 5) (g.fb_height / 5) 5 0 s2

-- `main`: the last state, and what start_listen returned if it did (`main` itself returns 0 then).
unfoldable pub main :
    MinUi
    → Layout
    → (at : Ptr → Para) (f1 : ℕ) → (add_button add_key : Bool) → List Wake
    → Ui
    → Ui × Option ℤ
unfolding set_up callbacks
main g l at f1 add_button add_key ws s0 =
    start_listen (callbacks at) add_button add_key ws (set_up g l f1 s0)
