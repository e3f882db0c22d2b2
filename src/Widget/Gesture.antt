-- ===== src/Widget/Gesture.antt =====
-- get_touch over a sequence of events: when a touch begins and when it ends.
use test_tools.Common.{◌∙◌, ℕ, suc, ◌%◌, ◌≡◌, refl, List, [], ◌∷◌, arith, ◌==◌, if◌then◌else◌, ◌&&◌}
use test_tools.Widget.Types.{Ui, Touch, TouchState, InputEvent, reset_touch, keep_touch, end_touch}
use test_tools.Widget.Touch.{
  get_touch, turned, ev_abs, ev_syn, abs_mt_position_x, abs_mt_position_y,
}

-- The enumerators of `enum touch_state`.
abbrev pub touch_number : TouchState → ℕ
touch_number reset_touch = 0
touch_number keep_touch = 1
touch_number end_touch = 2

-- get_touch on each event in turn.
unfoldable pub run_touch : Ui → List InputEvent → Touch → Touch
run_touch s [] t = t
run_touch s (e ∷ es) t = run_touch s es (get_touch s e t).1

get_touch-bt_id : (s : Ui) (e : InputEvent) (t : Touch) → (get_touch s e t).1.bt_id ≡ t.bt_id
unfolding get_touch
get_touch-bt_id s e t = ground arith

-- How many reports EV_SYN came since the last EV_ABS, `n` before the first event.
unfoldable pub reports : List InputEvent → ℕ → ℕ
reports [] n = n
reports (e ∷ es) n =
    reports es
      (if e.type == ev_abs then 0 else if e.type == ev_syn && e.code == 0 then suc n else n)

-- The position that the events give an axis, `f` being applied to the value; `v` if none does.
unfoldable pub last_position : (ℕ → ℕ) → ℕ → List InputEvent → ℕ → ℕ
last_position f axis [] v = v
last_position f axis (e ∷ es) v =
    last_position f axis es (if e.type == ev_abs && e.code == axis then f e.value else v)

get_touch-state :
    (s : Ui) (e : InputEvent) (t : Touch) (n : ℕ)
    → touch_number t.state ≡ n % 3
    → touch_number (get_touch s e t).1.state
      ≡ (if e.type == ev_abs then 0 else if e.type == ev_syn && e.code == 0 then suc n else n) % 3
unfolding get_touch
get_touch-state s e t n h = ground arith

get_touch-position :
    (s : Ui) (e : InputEvent) (t : Touch)
    → ((get_touch s e t).1.x ≡ (
        if e.type == ev_abs && e.code == abs_mt_position_x
        then turned s.swap s.width_limit e.value
        else t.x))
      × ((get_touch s e t).1.y ≡ (
          if e.type == ev_abs && e.code == abs_mt_position_y
          then turned s.swap s.height_limit e.value
          else t.y))
unfolding get_touch
get_touch-position s e t = ground arith

-- After any events the state of the touch counts, modulo 3, the EV_SYN reports since the last
-- EV_ABS (RESET_TOUCH, KEEP_TOUCH, END_TOUCH), so a touch ends with the second report in a row; its
-- position is the last one given to each axis, turned by 180 degrees if `swap` is set; and the
-- remembered button is not changed.
pub run_touch_lem :
    (s : Ui) (es : List InputEvent) (t : Touch) (n : ℕ)
    → touch_number t.state ≡ n % 3
    → (touch_number (run_touch s es t).state ≡ reports es n % 3)
      × ((run_touch s es t).x
          ≡ last_position (turned s.swap s.width_limit) abs_mt_position_x es t.x)
      × ((run_touch s es t).y
          ≡ last_position (turned s.swap s.height_limit) abs_mt_position_y es t.y)
      × ((run_touch s es t).bt_id ≡ t.bt_id)
unfolding run_touch reports last_position
run_touch_lem s [] t n h = (h, refl, refl, refl)
run_touch_lem s (e ∷ es) t n h =
    let (a, b, c, d) = run_touch_lem s es (get_touch s e t).1 _ (get_touch-state s e t n h) in
    let (x, y) = get_touch-position s e t in (a, rw (← x) b, rw (← y) c, d ∙ get_touch-bt_id s e t)
