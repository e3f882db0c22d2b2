-- ===== src/Lcd/Chessboard.antt =====
-- set_rectangle of test_lcd.c draws a chessboard.
use native.Mathlib.Nat.{mul-le-mul_right, div-mul-le_self, mul_comm}
use test_tools.Common.{
  ℕ, suc, ◌+◌, ◌*◌, ◌/◌, ◌%◌, ◌<◌, ◌≤◌, ◌≡◌, refl, [], ◌∷◌, ◌++◌, arith, ◌∙◌, ◌==◌, if◌then◌else◌,
}
use test_tools.Common.Bytes.{Mem}
use test_tools.Lcd.{
  Screen, Lcd, white, black, clear_screen, framebuffer_data, rectangle_rows, set_rectangle,
}
use test_tools.Lcd.Pixels.{IsPacked}
use test_tools.Lcd.Frames.{shown_pixel, shown_pixel-pixel, set_active-frame}
use test_tools.Lcd.Cells.{rectangle_rows-cell, cell}

-- On a screen without space between its rows, `set_rectangle` with the same even number 2 n of cells
-- across and down shows one frame behind those shown before, in which the cells, of the size of the
-- screen divided by 2 n and rounded down, are white and black in turn, with white in the corner.
pub set_rectangle-chessboard :
    (v : Screen) (s : Lcd) (n : ℕ)
    → IsPacked v
    → (f : ℕ × Mem) × ((set_rectangle v (2 * n) (2 * n) s).shown ≡ s.shown ++ f ∷ [])
      × ((i j a b : ℕ)
          → i < 2 * n
          → j < 2 * n
          → a < v.xres / (2 * n)
          → b < v.yres / (2 * n)
          → shown_pixel v f (i * (v.xres / (2 * n)) + a) (j * (v.yres / (2 * n)) + b)
            ≡ (if (i + j) % 2 == 0 then white else black))
unfolding set_rectangle cell
set_rectangle-chessboard v s n p =
    let id = (s.buffercount + 1) % 2 in
    let cw = v.xres / (2 * n) in
    let ch = v.yres / (2 * n) in
    let m0 =
      clear_screen v v.xres v.yres (framebuffer_data v 1)
        (clear_screen v v.xres v.yres (framebuffer_data v 0) s.mem) in
    let m = rectangle_rows v ((2 * n + 1) / 2) 0 (2 * n) (2 * n) cw ch id m0 in
    let turns : (2 * n + 1) / 2 ≡ n = omega arith in
    let fits : 2 * n * cw ≤ v.xres =
      omega (arith, div-mul-le_self v.xres (2 * n), mul_comm (2 * n) cw) in
    (
      (id * v.yres, m),
      set_active-frame v (s.buffercount + 1) _,
      λ i j a b li lj la lb.
          let inside : suc i * cw ≤ v.xres =
            (let r : suc i * cw ≤ 2 * n * cw = mul-le-mul_right cw li in omega (arith, r, fits)) in
          let t : m (cell v p id cw ch i j a b la lb inside)
              ≡ (if (i + j) % 2 == 0 then white else black) =
            rw (turns) (
              rectangle_rows-cell v p id cw ch i j a b la lb inside n n 0 m0 refl fits li
              ∙ ground arith) in
          shown_pixel-pixel v p id m (i * cw + a) (j * ch + b) ∙ t,
    )
