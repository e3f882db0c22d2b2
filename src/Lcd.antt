-- ===== src/Lcd.antt =====
-- test_lcd/test_lcd.c: the pictures of the display test. The mapped memory is a word of 32 bits for
-- each offset from its start, so that the second buffer starts at a whole word. Widths, heights and
-- places are not negative. What is printed and `usleep` are left out.
pub mod Setup
pub mod Fill
pub mod Pixels
pub mod Frames
pub mod Cells
pub mod Chessboard
pub mod Within
mod Tests
use test_tools.Common.{
  ℕ, zero, suc, ◌+◌, ◌-◌, ◌*◌, ◌/◌, ◌%◌, Bool, true, false, List, [], ◌∷◌, ◌++◌, ltb, if◌then◌else◌,
}
use test_tools.Common.Bytes.{Mem, poke}

-- The fields of `vi` and `fi` that the pictures use and do not change.
pub record Screen : Type 0 where
  pub xres : ℕ
  pub yres : ℕ
  pub bits_per_pixel : ℕ
  pub line_length : ℕ

-- The memory, `buffercount`, the fields of `vi` that change, and what `FBIOPAN_DISPLAY` was called on:
-- the offset of the picture shown and the memory then.
pub record Lcd : Type 0 where
  pub mem : Mem
  pub buffercount : ℕ
  pub yoffset : ℕ
  pub yres_virtual : ℕ
  pub shown : List (ℕ × Mem)

abbrev pub red : ℕ
red = 0xff0000

abbrev pub green : ℕ
green = 0x00ff00

abbrev pub blue : ℕ
blue = 0x0000ff

abbrev pub black : ℕ
black = 0x0

abbrev pub white : ℕ
white = 0xffffff

-- The inner loop of `clear_screen` and `framebuffer_set_color`, for the pixels from `i` on.
pub set_row : ℕ → ℕ → ℕ → ℕ → Mem → Mem
set_row zero i loc color m = m
set_row (suc n) i loc color m = set_row n (suc i) loc color (poke (i + loc) color m)

-- The loop over the rows from `j` on; `stride` words lie between two rows.
pub set_rows : (stride w n j loc color : ℕ) → Mem → Mem
set_rows stride w zero j loc color m = m
set_rows stride w (suc n) j loc color m =
    set_rows stride w n (suc j) loc color (set_row w 0 (j * stride + loc) color m)

module _ (v : Screen) where
  pub stride : ℕ
  stride = v.line_length / (v.bits_per_pixel / 8)

  -- `gr_framebuffer[id].data`, in words.
  pub framebuffer_data : ℕ → ℕ
  framebuffer_data id = id * (v.yres * v.xres * (v.bits_per_pixel / 8)) / 4

  pub clear_screen : (w h loc : ℕ) → Mem → Mem
  clear_screen w h loc m = set_rows w w h 0 loc 0x0 m

  pub framebuffer_set_color : (w h loc color : ℕ) → Mem → Mem
  framebuffer_set_color w h loc color m = set_rows stride w h 0 loc color m

  pub set_active_framebuffer : ℕ → Lcd → Lcd
  set_active_framebuffer n s = if ltb 1 n then s else record s {
    yres_virtual = v.yres * 2;
    yoffset = n * v.yres;
    shown = s.shown ++ (n * v.yres, s.mem) ∷ [];
  }

  -- One turn of the loop of `set_full_screen`.
  pub full_screen : ℕ → Lcd → Lcd
  full_screen color s =
      let c = s.buffercount + 1 in
      set_active_framebuffer (c % 2) (record s {
        buffercount = c;
        mem = framebuffer_set_color v.xres v.yres (framebuffer_data (c % 2)) color s.mem;
      })

  pub full_screens : List ℕ → Lcd → Lcd
  full_screens [] s = s
  full_screens (color ∷ colors) s = full_screens colors (full_screen color s)

  pub set_full_screen : Lcd → Lcd
  set_full_screen s =
      full_screens (red ∷ green ∷ blue ∷ black ∷ white ∷ [])
        (record s { mem = clear_screen v.xres v.yres (framebuffer_data 1) s.mem })

  pub set_three_color : Lcd → Lcd
  set_three_color s =
      let c = s.buffercount + 1 in
      let at = framebuffer_data (c % 2) in
      let w = v.xres in
      let h = v.yres in
      let m1 = framebuffer_set_color w (h / 3) at red s.mem in
      let m2 = framebuffer_set_color w (h / 3) (at + h / 3 * w) green m1 in
      let m3 = framebuffer_set_color w (h / 3) (at + 2 * h / 3 * w) blue m2 in
      set_active_framebuffer (c % 2) (record s { buffercount = c; mem = m3 })

  pub rectangle : (x y w h color bn : ℕ) → Mem → Mem
  rectangle x y w h color bn m =
      framebuffer_set_color w h (framebuffer_data bn + v.xres * y + x) color m

  -- A loop over a row of rectangles, from number `i` on, for a number of turns.
  pub rectangle_row : (turns i j rec_w rec_h first second id : ℕ) → Mem → Mem
  rectangle_row zero i j rec_w rec_h first second id m = m
  rectangle_row (suc n) i j rec_w rec_h first second id m =
      let m1 = rectangle (i * rec_w) (j * rec_h) rec_w rec_h first id m in
      let m2 = rectangle ((i + 1) * rec_w) (j * rec_h) rec_w rec_h second id m1 in
      rectangle_row n (i + 2) j rec_w rec_h first second id m2

  -- The loop over the rows; `for (i = 0; i < l;)` with `i` raised by 2 makes `(l + 1) / 2` turns.
  pub rectangle_rows : (turns j k l rec_w rec_h id : ℕ) → Mem → Mem
  rectangle_rows zero j k l rec_w rec_h id m = m
  rectangle_rows (suc n) j k l rec_w rec_h id m =
      let m1 = rectangle_row ((l + 1) / 2) 0 j rec_w rec_h white black id m in
      let m2 = rectangle_row ((k + 1) / 2) 0 (j + 1) rec_w rec_h black white id m1 in
      rectangle_rows n (j + 2) k l rec_w rec_h id m2

  -- A division by 0 for `x` or `y` at 0 is not modelled.
  pub set_rectangle : ℕ → ℕ → Lcd → Lcd
  set_rectangle x y s =
      let c = s.buffercount + 1 in
      let m1 = clear_screen v.xres v.yres (framebuffer_data 0) s.mem in
      let m2 = clear_screen v.xres v.yres (framebuffer_data 1) m1 in
      let m3 = rectangle_rows ((y + 1) / 2) 0 x y (v.xres / x) (v.yres / y) (c % 2) m2 in
      set_active_framebuffer (c % 2) (record s { buffercount = c; mem = m3 })

  -- Behind `gr_init`.
  pub show_pictures : Lcd → Lcd
  show_pictures s =
      set_rectangle 20 20 (set_three_color (set_full_screen (set_active_framebuffer 0 s)))

  -- The loop that draws the bar of `progress_bar` wider.
  pub progress_loop : (n x y bar_w h : ℕ) → Lcd → Lcd
  progress_loop zero x y bar_w h s = s
  progress_loop (suc n) x y bar_w h s =
      let id = s.buffercount % 2 in
      let s' = set_active_framebuffer id (record s { mem = rectangle x y bar_w h red id s.mem }) in
      progress_loop n x y (bar_w + 1) h (record s' { buffercount = s'.buffercount + 1 })

  -- `w` and `h` are at least 1. The colour of the bar is `red`, not `fill_color`.
  pub progress_bar : (x y w h frame_color fill_color : ℕ) → Lcd → Lcd
  progress_bar x y w h frame_color fill_color s =
      let both = λ (m : Mem).
        clear_screen w h (framebuffer_data 1) (clear_screen w h (framebuffer_data 0) m) in
      let id = s.buffercount % 2 in
      let m1 = rectangle x y w 1 frame_color id (both s.mem) in
      let m2 = rectangle x (y + h - 1) w 1 frame_color id m1 in
      let m3 = rectangle x y 1 h frame_color id m2 in
      let m4 = rectangle (x + w - 1) y 1 h frame_color id m3 in
      let s1 = set_active_framebuffer id (record s { mem = m4 }) in
      let s2 = record s1 { buffercount = s1.buffercount + 1 } in
      let s3 = progress_loop (w - 2) (x + 1) (y + 1) 1 (h - 2) s2 in record s3 { mem = both s3.mem }
