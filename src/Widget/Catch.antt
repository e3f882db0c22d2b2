-- ===== src/Widget/Catch.antt =====
-- catch_action_for_button and catch_action_for_keyboard of widget.c. The events are those that the
-- `read`s of one call can deliver; a call that returns early leaves the rest.
use test_tools.Common.{
  true, false, ℕ, Bool, Option, none, some, List, [], ◌∷◌, ◌++◌, ◌==◌, if◌then◌else◌,
}
use test_tools.Common.Int.{pos, eqb_ℤ}
use test_tools.Widget.Types.{
  Ptr, Ui, TouchState, Switch, enable, disable, InputEvent, end_touch, keep_touch, reset_touch, Gfx,
  flip, lock, unlock, blit, emit, write_button, Keyboard,
}
use test_tools.Widget.Draw.{draw_button}
use test_tools.Widget.Touch.{get_touch, ev_syn, ev_key, find_button_by_position, find_button_by_id}

abbrev pub is_enabled : Switch → Bool
is_enabled enable = true
is_enabled disable = false

abbrev pub set_bt_id : ℕ → Ui → Ui
set_bt_id i s = record s { rec_touch = record (s.rec_touch) { bt_id = i } }

-- The button is released, and drawn so if it is to be drawn at the end.
unfoldable pub release_button : Ptr → Ui → Ui
release_button p s =
    let b = record (s.button_at p) { state = reset_touch } in
    let s' = write_button p b s in
    if is_enabled b.draw_button_in_end then emit (draw_button (some b) ++ flip ∷ []) s' else s'

unfoldable pub press_button : Ptr → Ui → Ui
press_button p s =
    let b = record (s.button_at p) { state = keep_touch } in
    emit (draw_button (some b) ++ flip ∷ []) (write_button p b s)

-- KEEP_TOUCH outside every button; the argument is the button touched last.
unfoldable pub on_outside : Option Ptr → Ui → Ui
on_outside none s = set_bt_id 0 s
on_outside (some l) s = set_bt_id 0 (release_button l s)

-- KEEP_TOUCH on the button `m`.
unfoldable pub on_inside : Ptr → Option Ptr → Ui → Ui
on_inside m none s = set_bt_id (s.button_at m).id (press_button m s)
on_inside m (some l) s =
    set_bt_id (s.button_at m).id
      (if (s.button_at l).id == (s.button_at m).id then s else press_button m (release_button l s))

-- The second part is what the call returns, if it returns.
unfoldable pub on_keep : List Ptr → Ui → Ui × Option ℕ
on_keep list s =
    let last = find_button_by_id s.button_at s.rec_touch.bt_id list in
    elim (find_button_by_position s.button_at s.rec_touch list) [
      | none ↦ (on_outside last s, none)
      | some m ↦ (
        on_inside m last s,
        if is_enabled (s.button_at m).fast_touch then some (s.button_at m).id else none,
      )
    ]

unfoldable pub on_end : List Ptr → Ui → Ui × Option ℕ
on_end list s = elim (find_button_by_id s.button_at s.rec_touch.bt_id list) [
  | none ↦ (s, some s.rec_touch.bt_id)
  | some m ↦ (release_button m s, some s.rec_touch.bt_id)
]

-- The `switch` on the state of the touch.
unfoldable pub on_syn : List Ptr → TouchState → Ui → Ui × Option ℕ
on_syn list keep_touch s = on_keep list s
on_syn list end_touch s = on_end list s
on_syn list reset_touch s = (s, none)

unfoldable pub on_event : List Ptr → InputEvent → Ui → Ui × Option ℕ
on_event list e s =
    let (report, t) = get_touch s e s.rec_touch in
    let s' = record s { rec_touch = t } in
    if eqb_ℤ report (pos ev_syn) then on_syn list t.state s' else (s', none)

-- The id that is returned, the events that are left, and the state.
unfoldable pub catch_action_for_button : List InputEvent → List Ptr → Ui → ℕ × List InputEvent × Ui
catch_action_for_button [] list s = (0, [], s)
catch_action_for_button (e ∷ es) list s =
    let (s', returned) = on_event list e s in
    elim returned [ none ↦ catch_action_for_button es list s' | some id ↦ (id, es, s') ]

-- What one key event draws for one key; a press takes its height from the released picture.
unfoldable pub draw_key : InputEvent → Keyboard → List Gfx
draw_key e k =
    if e.type == ev_key
    then ((if e.value == 0
          then lock
            ∷ blit k.release_surface 0 0 k.rs.icon_width k.rs.icon_height k.rs.f_position_x
                k.rs.f_position_y
            ∷ flip
            ∷ unlock
            ∷ flip
            ∷ []
          else [])
        ++ (if e.value == 1
            then lock
              ∷ blit k.press_surface 0 0 k.ps.icon_width k.rs.icon_height k.ps.f_position_x
                  k.ps.f_position_y
              ∷ flip
              ∷ unlock
              ∷ flip
              ∷ []
            else []))
    else []

unfoldable pub draw_keys : InputEvent → List Ptr → Ui → Ui
draw_keys e [] s = s
draw_keys e (p ∷ ps) s = draw_keys e ps (emit (draw_key e (s.keyboard_at p)) s)

-- It returns 0.
unfoldable pub catch_action_for_keyboard : List InputEvent → List Ptr → Ui → Ui
catch_action_for_keyboard [] list s = s
catch_action_for_keyboard (e ∷ es) list s = catch_action_for_keyboard es list (draw_keys e list s)
