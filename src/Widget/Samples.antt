-- ===== src/Widget/Samples.antt =====
-- A screen, and states of widget.c with two buttons and with none, for the tests.
use test_tools.Common.{ℕ, ◌*◌, none, [], ◌∷◌}
use test_tools.Widget.Types.{
  Ui, MinUi, Button, reset_touch, InputEvent, custom, enable, disable, normal, Position, Keyboard,
}

abbrev pub screen : MinUi
screen = record {
  create_display_surface = λ name. 5;
  get_width = λ surface. 60;
  get_height = λ surface. 40;
  fb_width = 320;
  fb_height = 480;
}

abbrev pub area : ℕ → Position
area x = record { f_position_x = x; f_position_y = 10; icon_width = 60; icon_height = 40 }

-- A button with the number `i`, whose area starts at 100 * i.
abbrev pub button_number : ℕ → Button
button_number i = record {
  id = i;
  mode = normal;
  style = custom;
  draw_button_in_end = enable;
  fast_touch = disable;
  default_button = record { x = 0; y = 0; width = 0; height = 0; rcolor = 0; pcolor = 0 };
  release_name = [];
  state = reset_touch;
  result = 0;
  release_surface = 5;
  press_surface = 6;
  rs = area (100 * i);
  ps = area (100 * i);
  param = none;
  func = none;
}

abbrev pub keyboard_zero : Keyboard
keyboard_zero = record {
  id = 0;
  release_name = [];
  release_surface = 5;
  press_surface = 6;
  rs = area 0;
  ps = area 0;
}

-- The buttons 1 and 2 are listed; a touch has just been put on the second.
abbrev pub two_buttons : Ui
two_buttons = record {
  widget_id = 3;
  rec_touch = record { x = 230; y = 20; state = reset_touch; bt_id = 1 };
  kb_touch = record { keyboard_id = 0; event_id = 0; state = 0 };
  width_limit = 320;
  height_limit = 480;
  swap = 0;
  button_list = 1 ∷ 2 ∷ [];
  keyboard_list = [];
  button_at = button_number;
  keyboard_at = λ p. keyboard_zero;
  drawn = [];
}

abbrev pub no_buttons : Ui
no_buttons = record two_buttons { button_list = [] }

abbrev pub move : InputEvent
move = record { type = 3; code = 53; value = 120 }
