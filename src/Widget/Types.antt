-- ===== src/Widget/Types.antt =====
-- The types and the static variables of widget.h and widget.c. Addresses of buttons and keyboards
-- are numbers, `NULL` is `none`; every `int` and `unsigned` is its 32-bit pattern. A linked list of
-- widgets is the list of the addresses in its nodes (list.c adds at the end: see `NodeList`).
use test_tools.Common.{ℕ, ◌+◌, ◌-◌, ◌%◌, ◌^◌, Option, List, ◌==◌, if◌then◌else◌, ◌++◌}

abbrev pub Ptr : Type 0
Ptr = ℕ

-- Sums and differences of 32-bit patterns.
abbrev pub add32 : ℕ → ℕ → ℕ
add32 a b = (a + b) % 2 ^ 32

abbrev pub sub32 : ℕ → ℕ → ℕ
sub32 a b = (a + 2 ^ 32 - b) % 2 ^ 32

pub data TouchState : Type 0 where
  end_touch keep_touch reset_touch : TouchState

pub data KeyboardState : Type 0 where
  release press : KeyboardState

pub data ButtonMode : Type 0 where
  ecs_listen normal : ButtonMode

pub data ButtonStyle : Type 0 where
  default_style custom : ButtonStyle

pub data Switch : Type 0 where
  disable enable : Switch

-- `state` is assigned the value of a key event, which need not be one of the enumerators.
pub record KeyboardTouch : Type 0 where
  pub keyboard_id : ℕ
  pub event_id : ℕ
  pub state : ℕ

pub record Touch : Type 0 where
  pub x : ℕ
  pub y : ℕ
  pub state : TouchState
  pub bt_id : ℕ

pub record Position : Type 0 where
  pub f_position_x : ℕ
  pub f_position_y : ℕ
  pub icon_width : ℕ
  pub icon_height : ℕ

pub record Keyboard : Type 0 where
  pub id : ℕ
  pub release_name : List ℕ
  pub release_surface : ℕ
  pub press_surface : ℕ
  pub rs : Position
  pub ps : Position

pub record DefaultButtonStyle : Type 0 where
  pub x : ℕ
  pub y : ℕ
  pub width : ℕ
  pub height : ℕ
  pub rcolor : ℕ
  pub pcolor : ℕ

pub record Button : Type 0 where
  pub id : ℕ
  pub mode : ButtonMode
  pub style : ButtonStyle
  pub draw_button_in_end : Switch
  pub fast_touch : Switch
  pub default_button : DefaultButtonStyle
  pub release_name : List ℕ
  pub state : TouchState
  pub result : ℕ
  pub release_surface : ℕ
  pub press_surface : ℕ
  pub rs : Position
  pub ps : Position
  pub param : Option Ptr
  pub func : Option Ptr

-- `struct input_event` of linux/input.h, less its time.
pub record InputEvent : Type 0 where
  pub type : ℕ
  pub code : ℕ
  pub value : ℕ

-- The calls of minui and of the mutex, in the order in which the code makes them.
pub data Gfx : Type 0 where
  lock unlock flip : Gfx
  color : ℕ → ℕ → ℕ → ℕ → Gfx
  fill : ℕ → ℕ → ℕ → ℕ → Gfx
  blit : (surface source_x source_y width height x y : ℕ) → Gfx

-- What the code takes from minui: the surface for a path, its size, and the screen's size.
pub record MinUi : Type 0 where
  pub create_display_surface : List ℕ → ℕ
  pub get_width : ℕ → ℕ
  pub get_height : ℕ → ℕ
  pub fb_width : ℕ
  pub fb_height : ℕ

-- The static variables, the objects at their addresses and the calls made so far.
pub record Ui : Type 0 where
  pub widget_id : ℕ
  pub rec_touch : Touch
  pub kb_touch : KeyboardTouch
  pub width_limit : ℕ
  pub height_limit : ℕ
  pub swap : ℕ
  pub button_list : List Ptr
  pub keyboard_list : List Ptr
  pub button_at : Ptr → Button
  pub keyboard_at : Ptr → Keyboard
  pub drawn : List Gfx

abbrev pub update {ℓ} : {A : Type ℓ} → (Ptr → A) → Ptr → A → Ptr → A
update f p a q = if q == p then a else f q

abbrev pub write_button : Ptr → Button → Ui → Ui
write_button p b s = record s { button_at = update s.button_at p b }

abbrev pub emit : List Gfx → Ui → Ui
emit gs s = record s { drawn = s.drawn ++ gs }
