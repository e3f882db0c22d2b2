-- ===== src/Widget/Draw.antt =====
-- How widget.c draws: draw_default_button, draw_custom_button and draw_button.
use test_tools.Common.{
  ℕ, ◌/◌, ◌%◌, ◌^◌, Option, none, some, List, [], ◌∷◌, ◌++◌, ◌==◌, if◌then◌else◌,
}
use test_tools.Common.Int.{ℤ, pos, negsuc}
use test_tools.Widget.Types.{
  TouchState, keep_touch, ButtonStyle, default_style, custom, Button, DefaultButtonStyle, Position,
  Gfx, lock, unlock, flip, color, fill, blit, add32, sub32,
}

-- `(unsigned char)((c >> k) & 0x000000FF)`
pub color_byte : ℕ → ℕ → ℕ
color_byte c k = c / 2 ^ k % 2 ^ 8

-- `gr_color(b, g, r, a)` for a colour word.
button_color : ℕ → Gfx
button_color c = color (color_byte c 24) (color_byte c 16) (color_byte c 8) (color_byte c 0)

-- `gr_fill` of the button's area less a border of `m` pixels.
inner_fill : DefaultButtonStyle → ℕ → Gfx
inner_fill d m =
    fill (add32 d.x m) (add32 d.y m) (sub32 (add32 d.x d.width) m) (sub32 (add32 d.y d.height) m)

-- In a state that is neither 0 nor 1 the function returns with the mutex held.
unfoldable pub draw_default_button : Button → ℕ → ℤ × List Gfx
unfolding inner_fill button_color
draw_default_button b state =
    let d = b.default_button in
    let frame =
      lock ∷ color 0 0 0 255 ∷ inner_fill d 0 ∷ color 76 76 76 255 ∷ inner_fill d 3 ∷ [] in
    let done : ℕ → ℤ × List Gfx =
      λ c. (pos 0, frame ++ (button_color c ∷ inner_fill d 5 ∷ flip ∷ unlock ∷ [])) in
    if state == 0 then done d.rcolor else if state == 1 then done d.pcolor else (negsuc 0, frame)

pub blit_at : ℕ → Position → Gfx
blit_at surface p = blit surface 0 0 p.icon_width p.icon_height p.f_position_x p.f_position_y

unfoldable pub draw_custom_button : Button → ℕ → ℤ × List Gfx
unfolding blit_at
draw_custom_button b state =
    if state == 0
    then (pos 0, lock ∷ blit_at b.release_surface b.rs ∷ flip ∷ unlock ∷ [])
    else if state == 1
    then (pos 0, lock ∷ blit_at b.press_surface b.ps ∷ flip ∷ unlock ∷ [])
    else (negsuc 0, [])

draw_styled : ButtonStyle → Button → ℕ → List Gfx
draw_styled default_style b state = (draw_default_button b state).1
draw_styled custom b state = (draw_custom_button b state).1

shown_state : TouchState → ℕ
shown_state keep_touch = 1
shown_state _ = 0

-- It returns 0 on every path, also for `NULL`.
unfoldable pub draw_button : Option Button → List Gfx
unfolding draw_styled shown_state
draw_button none = []
draw_button (some b) = draw_styled b.style b (shown_state b.state)
