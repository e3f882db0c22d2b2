-- ===== src/Widget/Tests.antt =====
-- Runs of the functions of widget.c on a screen with two buttons.
use test_tools.Common.{ℕ, ◌≤◌, ◌≡◌, refl, true, some, none, [], ◌∷◌, ◌==◌, if◌then◌else◌, arith}
use test_tools.Common.Int.{ℤ}
use test_tools.Widget.Types.{Ptr, Touch, keep_touch}
use test_tools.Widget.Setup.{init_param, init_button, init_default_button, init_keyboard}
use test_tools.Widget.Touch.{
  get_touch, istouchingbutton, find_button_by_position, find_button_by_id,
}
use test_tools.Widget.Catch.{
  press_button, release_button, on_inside, on_keep, on_end, on_syn, on_event,
  catch_action_for_button, catch_action_for_keyboard,
}
use test_tools.Widget.Samples.{screen, button_number, two_buttons, no_buttons, move}
use test_tools.Widget.Search.{Fits, FirstTouched, find_button_by_position-FirstTouched}
use test_tools.Widget.Gesture.{run_touch, run_touch_lem, touch_number, reports, last_position}
use test_tools.Widget.Pressed.{DistinctIds, OnlyCurrent, catch-OnlyCurrent}
use test_tools.Widget.Ids.{HasIds, init_param-HasIds, init-HasIds}
use test_tools.Widget.Taps.{syn, to_x, to_y, slide_reports_last, second_tap_not_shown}
use test_tools.Widget.Balance.{run_lock, IsFree, catch_actions-IsFree}
use test_tools.NodeList.{node, button, Heap, add_button}
use test_tools.NodeList.Chain.{end, link}
use test_tools.Widget.Setup.{append_button}
use test_tools.Widget.Nodes.{HoldsButtons, find_node_by_position, find_node_by_id, buttons_in_nodes}

fits : (p : ℕ) → p ≤ 2 → Fits (button_number p)
fits p l = record { horizontal = omega arith; vertical = omega arith }

find_button_by_position-FirstTouched_example :
    FirstTouched button_number two_buttons.rec_touch
      (1 ∷ 2 ∷ [])
      (find_button_by_position button_number two_buttons.rec_touch (1 ∷ 2 ∷ []))
find_button_by_position-FirstTouched_example =
    find_button_by_position-FirstTouched button_number two_buttons.rec_touch (1 ∷ 2 ∷ [])
      (fits 1 (omega arith), (fits 2 (omega arith), tt))

run_touch_lem_example :
    let t = run_touch two_buttons (move ∷ syn ∷ syn ∷ []) two_buttons.rec_touch in
    (touch_number t.state ≡ 2) × (t.x ≡ 120) × (t.y ≡ 20) × (t.bt_id ≡ 1)
unfolding reports last_position
run_touch_lem_example =
    run_touch_lem two_buttons (move ∷ syn ∷ syn ∷ []) two_buttons.rec_touch 0 refl

distinct_ids : DistinctIds (1 ∷ 2 ∷ []) button_number
distinct_ids p q mp mq e = e

only_current : OnlyCurrent (1 ∷ 2 ∷ []) two_buttons
only_current q m h = cc

catch-OnlyCurrent_example :
    OnlyCurrent
      (1 ∷ 2 ∷ [])
      (catch_action_for_button (syn ∷ move ∷ syn ∷ []) (1 ∷ 2 ∷ []) two_buttons).2
catch-OnlyCurrent_example =
    catch-OnlyCurrent (syn ∷ move ∷ syn ∷ []) (1 ∷ 2 ∷ []) two_buttons distinct_ids only_current

init-HasIds_example :
    let s = init_param screen no_buttons in
    HasIds (init_button screen 7 true [] [] 0 0 s)
    × HasIds (init_default_button 7 true 0 0 60 40 0 0 s)
    × HasIds (init_keyboard screen 7 true [] [] 0 0 s)
unfolding init_param
init-HasIds_example =
    init-HasIds screen 7 true [] [] 0 0 60 40 0 0 (init_param screen no_buttons)
      (init_param-HasIds screen no_buttons refl) refl (omega arith)

slide_reports_last_example :
    ((catch_action_for_button (syn ∷ syn ∷ []) (1 ∷ 2 ∷ []) two_buttons).0 ≡ 2)
    × ((catch_action_for_button (syn ∷ syn ∷ []) (1 ∷ 2 ∷ []) two_buttons).1 ≡ [])
unfolding find_button_by_position istouchingbutton
slide_reports_last_example = slide_reports_last [] (1 ∷ 2 ∷ []) two_buttons 2 refl refl refl

second_tap_not_shown_example :
    let s1 = (catch_action_for_button (syn ∷ syn ∷ []) (1 ∷ 2 ∷ []) two_buttons).2 in
    let s2 = (catch_action_for_button (to_x 225 ∷ to_y 25 ∷ syn ∷ []) (1 ∷ 2 ∷ []) s1).2 in
    (s2.drawn ≡ s1.drawn) × (s2.button_at ≡ s1.button_at)
unfolding find_button_by_position istouchingbutton catch_action_for_button on_event get_touch on_syn
    on_keep on_inside find_button_by_id press_button release_button on_end
second_tap_not_shown_example =
    second_tap_not_shown (1 ∷ 2 ∷ []) two_buttons 2 225 25 refl refl refl refl

catch_actions-IsFree_example :
    IsFree (catch_action_for_button (syn ∷ syn ∷ []) (1 ∷ 2 ∷ []) two_buttons).2.drawn
    × IsFree (catch_action_for_keyboard (syn ∷ syn ∷ []) (1 ∷ 2 ∷ []) two_buttons).drawn
unfolding run_lock
catch_actions-IsFree_example = catch_actions-IsFree (syn ∷ syn ∷ []) (1 ∷ 2 ∷ []) two_buttons refl

-- The buttons 1 and 2 in the nodes at 3 and 8.
abbrev node_heap : Heap
node_heap p =
    if p == 3 then some (node (button 1) 8) else if p == 8 then some (node (button 2) 0) else none

node_heap-HoldsButtons : HoldsButtons node_heap 3 two_buttons
node_heap-HoldsButtons = record {
  nodes = (3, 1) ∷ (8, 2) ∷ [];
  chain = link (omega arith) refl refl (link (omega arith) refl refl (end refl));
  buttons = refl;
}

abbrev a_touch : Touch
a_touch = record { x = 15; y = 15; state = keep_touch; bt_id = 0 }

buttons_in_nodes_example :
    (find_node_by_position 3 node_heap two_buttons.button_at a_touch 3
      ≡ some (find_button_by_position two_buttons.button_at a_touch (1 ∷ 2 ∷ [])))
    × (find_node_by_id 3 node_heap two_buttons.button_at 2 3
        ≡ some (find_button_by_id two_buttons.button_at 2 (1 ∷ 2 ∷ [])))
    × ((r : ℤ) × (head : Ptr) × (g : Heap) × (add_button 3 9 node_heap 3 5 ≡ some (r, head, g))
        × HoldsButtons g head (append_button true 5 two_buttons))
buttons_in_nodes_example =
    buttons_in_nodes 3 node_heap 3 two_buttons a_touch 2 9 5 node_heap-HoldsButtons (omega arith)
      refl
