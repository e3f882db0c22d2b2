-- ===== src/Widget/Touch.antt =====
-- The touch machine of widget.c and the searches in the button list.
use test_tools.Common.{ℕ, ◌&&◌, Option, none, some, List, [], ◌∷◌, ltb, ◌==◌, if◌then◌else◌}
use test_tools.Common.Int.{ℤ, pos, negsuc}
use test_tools.Widget.Types.{
  Ptr, Ui, Touch, TouchState, KeyboardTouch, InputEvent, Button, end_touch, keep_touch, reset_touch,
  add32, sub32,
}

-- The codes of linux/input.h.
abbrev pub ev_syn : ℕ
ev_syn = 0x00

abbrev pub ev_key : ℕ
ev_key = 0x01

abbrev pub ev_abs : ℕ
ev_abs = 0x03

abbrev pub abs_mt_position_x : ℕ
abs_mt_position_x = 0x35

abbrev pub abs_mt_position_y : ℕ
abs_mt_position_y = 0x36

-- The button's area without its edges; 1 inside and 0 outside.
unfoldable pub istouchingbutton : Button → Touch → ℕ
istouchingbutton b t =
    if ltb b.ps.f_position_x t.x
      && ltb t.x (add32 b.ps.f_position_x b.ps.icon_width)
      && ltb b.ps.f_position_y t.y
      && ltb t.y (add32 b.ps.f_position_y b.ps.icon_height)
    then 1
    else 0

unfoldable pub find_button_by_position : (Ptr → Button) → Touch → List Ptr → Option Ptr
find_button_by_position at t [] = none
find_button_by_position at t (p ∷ ps) =
    if istouchingbutton (at p) t == 1 then some p else find_button_by_position at t ps

unfoldable pub find_button_by_id : (Ptr → Button) → ℕ → List Ptr → Option Ptr
find_button_by_id at id [] = none
find_button_by_id at id (p ∷ ps) = if (at p).id == id then some p else find_button_by_id at id ps

-- The state after a synchronisation report.
abbrev pub next_state : TouchState → TouchState
next_state reset_touch = keep_touch
next_state keep_touch = end_touch
next_state end_touch = reset_touch

-- A position, turned by 180 degrees if `swap` is set.
abbrev pub turned : ℕ → ℕ → ℕ → ℕ
turned swap limit value = if swap == 0 then value else sub32 limit value

unfoldable pub get_touch : Ui → InputEvent → Touch → ℤ × Touch
get_touch s e t =
    if e.type == ev_abs
    then (let t1 = record t { state = reset_touch } in
        let t2 =
          if e.code == abs_mt_position_x
          then record t1 { x = turned s.swap s.width_limit e.value }
          else t1 in
        let t3 =
          if e.code == abs_mt_position_y
          then record t2 { y = turned s.swap s.height_limit e.value }
          else t2 in
        (pos ev_abs, t3))
    else if e.type == ev_syn && e.code == 0
    then (pos ev_syn, record t { state = next_state t.state })
    else (negsuc 0, t)

unfoldable pub get_keyboard_touch : InputEvent → KeyboardTouch → ℤ × KeyboardTouch
get_keyboard_touch e k =
    if e.type == ev_key
    then (pos ev_key, record k { event_id = e.code; state = e.value })
    else if e.type == ev_syn
    then (pos ev_syn, k)
    else (negsuc 0, k)
