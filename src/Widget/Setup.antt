-- ===== src/Widget/Setup.antt =====
-- The constructors of widget.c: init_param, set_swap, init_backguound, init_button,
-- init_default_button, init_keyboard and set_button_mode. `malloc` is taken to succeed for an object,
-- at the address `fresh`, whose old content the object keeps in the fields that are not assigned;
-- `room` tells whether it succeeds for the list node (`add_button` and `add_keyboard` leave the list
-- alone if not, and their result is not looked at).
use test_tools.Common.{ℕ, Bool, Option, none, some, List, [], ◌∷◌, ◌++◌, ◌==◌, if◌then◌else◌, take}
use test_tools.Common.Int.{ℤ, pos, negsuc}
use test_tools.Widget.Types.{
  Ptr, Ui, MinUi, Position, reset_touch, normal, ButtonMode, custom, default_style, enable, disable,
  flip, blit, emit, write_button, update, add32,
}
use test_tools.Widget.Draw.{draw_default_button, blit_at}

-- `snprintf(resPath, 255, "../..%s", name)`: at most 254 bytes.
pub res_path : List ℕ → List ℕ
res_path name = take 254 (b'.' ∷ b'.' ∷ b'/' ∷ b'.' ∷ b'.' ∷ name)

-- The lists and the objects are what they were; `DEBUG_LOG.txt` is opened and never written.
unfoldable pub init_param : MinUi → Ui → Ui
init_param g s = record s {
  widget_id = 1;
  width_limit = g.fb_width;
  height_limit = g.fb_height;
  swap = 0;
  rec_touch = record (s.rec_touch) { state = reset_touch; bt_id = 0 };
  kb_touch = record { keyboard_id = 0; event_id = 0; state = 0 };
}

unfoldable pub set_swap : Ui → Ui
set_swap s = record s { swap = if s.swap == 1 then 0 else 1 }

unfoldable pub init_backguound : MinUi → List ℕ → ℕ → ℕ → Ui → Ui
unfolding res_path
init_backguound g name x y s =
    let surface = g.create_display_surface (res_path name) in
    emit (blit surface 0 0 (g.get_width surface) (g.get_height surface) x y ∷ flip ∷ []) s

pub position : ℕ → ℕ → ℕ → ℕ → Position
position x y w h = record { f_position_x = x; f_position_y = y; icon_width = w; icon_height = h }

-- `add_button(&button_list, button1)`, the object being complete.
unfoldable pub append_button : Bool → Ptr → Ui → Ui
append_button room p s = if room then record s { button_list = s.button_list ++ p ∷ [] } else s

unfoldable pub init_button : MinUi → (fresh : Ptr) (room : Bool) → List ℕ → List ℕ → ℕ → ℕ → Ui → Ui
unfolding append_button position
init_button g fresh room release_name press_name x y s =
    let rel = g.create_display_surface (res_path release_name) in
    let prs = g.create_display_surface (res_path press_name) in
    let b = record (s.button_at fresh) {
      result = 0;
      style = custom;
      release_surface = rel;
      press_surface = prs;
      release_name = release_name;
      rs = position x y (g.get_width rel) (g.get_height rel);
      ps = position x y (g.get_width prs) (g.get_height prs);
      id = s.widget_id;
      param = none;
      func = none;
      mode = normal;
      draw_button_in_end = enable;
      fast_touch = disable;
    } in
    let s' = record (write_button fresh b s) { widget_id = add32 s.widget_id 1 } in
    append_button room fresh (emit (blit_at rel b.rs ∷ flip ∷ []) s')

unfoldable pub init_default_button :
    (fresh : Ptr) (room : Bool) → (x y width height release_color press_color : ℕ) → Ui → Ui
unfolding append_button position
init_default_button fresh room x y width height release_color press_color s =
    let b = record (s.button_at fresh) {
      result = 0;
      style = default_style;
      default_button = record {
        x = x;
        y = y;
        width = width;
        height = height;
        rcolor = release_color;
        pcolor = press_color;
      };
      rs = position x y width height;
      ps = position x y width height;
      id = s.widget_id;
      param = none;
      func = none;
      mode = normal;
      draw_button_in_end = enable;
      fast_touch = disable;
    } in
    let s' = record (write_button fresh b s) { widget_id = add32 s.widget_id 1 } in
    append_button room fresh (emit (draw_default_button b 0).1 s')

unfoldable pub init_keyboard :
    MinUi → (fresh : Ptr) (room : Bool) → List ℕ → List ℕ → ℕ → ℕ → Ui → Ui
unfolding position
init_keyboard g fresh room release_name press_name x y s =
    let rel = g.create_display_surface (res_path release_name) in
    let prs = g.create_display_surface (res_path press_name) in
    let k = record (s.keyboard_at fresh) {
      release_surface = rel;
      press_surface = prs;
      release_name = release_name;
      rs = position x y (g.get_width rel) (g.get_height rel);
      ps = position x y (g.get_width prs) (g.get_height prs);
      id = s.widget_id;
    } in
    let s' = record s {
      keyboard_at = update s.keyboard_at fresh k;
      widget_id = add32 s.widget_id 1;
      drawn = s.drawn ++ blit_at rel k.rs ∷ flip ∷ [];
    } in
    if room then record s' { keyboard_list = s'.keyboard_list ++ fresh ∷ [] } else s'

unfoldable pub set_button_mode : Option Ptr → ButtonMode → Ui → ℤ × Ui
set_button_mode none m s = (negsuc 0, s)
set_button_mode (some p) m s = (pos 0, write_button p (record (s.button_at p) { mode = m }) s)
