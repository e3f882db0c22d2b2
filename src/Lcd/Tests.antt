-- ===== src/Lcd/Tests.antt =====
-- The pictures of the display test on a small screen.
use test_tools.Common.{
  ℕ, ◌+◌, ◌*◌, ◌%◌, ◌<◌, ◌≡◌, refl, false, List, [], ◌∷◌, ◌++◌, ◌==◌, if◌then◌else◌,
}
use test_tools.Common.Bytes.{Mem}
use test_tools.Common.Int.{pos, negsuc}
use test_tools.Lcd.{
  Screen, Lcd, red, green, blue, black, white, set_full_screen, set_three_color, set_rectangle,
}
use test_tools.Lcd.Setup.{Answers}
use test_tools.Lcd.Pixels.{IsPacked}
use test_tools.Lcd.Frames.{shown_pixel, Plain, set_full_screen-Plain, set_three_color-thirds}
use test_tools.Lcd.Chessboard.{set_rectangle-chessboard}

abbrev small : Screen
small = record { xres = 40; yres = 60; bits_per_pixel = 32; line_length = 160 }

small-IsPacked : IsPacked small
small-IsPacked = record { depth = refl; rows = refl }

abbrev blank : Lcd
blank = record { mem = λ a. 7; buffercount = 0; yoffset = 0; yres_virtual = 60; shown = [] }

set_full_screen-Plain_example :
    (fs : List (ℕ × Mem)) × ((set_full_screen small blank).shown ≡ [] ++ fs)
    × Plain small (red ∷ green ∷ blue ∷ black ∷ white ∷ []) fs
set_full_screen-Plain_example = set_full_screen-Plain small blank small-IsPacked

set_three_color-thirds_example :
    (f : ℕ × Mem) × ((set_three_color small blank).shown ≡ [] ++ f ∷ [])
    × ((x y : ℕ)
        → x < 40
        → y < 20
        → (shown_pixel small f x y ≡ red)
          × (shown_pixel small f x (20 + y) ≡ green)
          × (shown_pixel small f x (40 + y) ≡ blue))
set_three_color-thirds_example = set_three_color-thirds small blank small-IsPacked

set_rectangle-chessboard_example :
    (f : ℕ × Mem) × ((set_rectangle small 20 20 blank).shown ≡ [] ++ f ∷ [])
    × ((i j a b : ℕ)
        → i < 20
        → j < 20
        → a < 2
        → b < 3
        → shown_pixel small f (i * 2 + a) (j * 3 + b) ≡ (if (i + j) % 2 == 0 then white else black))
set_rectangle-chessboard_example = set_rectangle-chessboard small blank 10 small-IsPacked

-- A console and a frame buffer, whose second name is the one that can be opened.
abbrev answers : Answers
answers = record {
  access_tty = pos 0;
  open_tty = pos 3;
  set_graphics = pos 0;
  open_graphics_fb0 = negsuc 0;
  open_fb0 = pos 4;
  fixed_info = pos 0;
  variable_info = pos 0;
  map_failed = false;
}
