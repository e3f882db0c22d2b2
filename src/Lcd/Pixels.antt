-- ===== src/Lcd/Pixels.antt =====
-- Rectangles of pixels in test_lcd.c, on a screen without space between its rows.
use native.Mathlib.Nat.{mul-le-mul_right, suc-mul, add-mul, mul_assoc}
use test_tools.Common.{
  ℕ, suc, ◌+◌, ◌*◌, ◌/◌, ◌<◌, ◌≤◌, ◌≡◌, ◌≢◌, inl, inr, Bool-cases, ltb, arith, ◌∙◌, ap, sym,
}
use test_tools.Common.Bytes.{Mem}
use test_tools.Lcd.{Screen, stride, framebuffer_data, framebuffer_set_color}
use test_tools.Lcd.Fill.{framebuffer_set_color-Filled}

-- 32 bits for each pixel, and no space between the rows.
pub record IsPacked (v : Screen) : Type 0 where
  pub depth : v.bits_per_pixel ≡ 32
  pub rows : v.line_length ≡ 4 * v.xres

pub area : (x y w h : ℕ) → x < w → y < h → x + y * w < h * w
area x y w h l m = let r : suc y * w ≤ h * w = mul-le-mul_right w m in omega (arith, r, suc-mul y w)

pub same_pixel : (x y x' y' w : ℕ) → x < w → x' < w → x + y * w ≡ x' + y' * w → (x ≡ x') × (y ≡ y')
same_pixel x y x' y' w l l' e = elim (Bool-cases (ltb y y')) [
  | inl below ↦ absurd (omega (arith, area x y w y' l (ground arith), e))
  | inr above ↦ elim (Bool-cases (ltb y' y)) [
    | inl below ↦ absurd (omega (arith, area x' y' w y l' (ground arith), e))
    | inr other ↦ let at : y ≡ y' = ground arith in (omega (arith, e, ap (λ r. r * w) at), at)
  ]
]

pub stride-packed : (v : Screen) → IsPacked v → stride v ≡ v.xres
unfolding stride
stride-packed v p = rw (p.depth, p.rows) (omega arith)

quarter : (n : ℕ) → n * 4 / 4 ≡ n
quarter n = omega arith

pub data-packed :
    (v : Screen) (id : ℕ) → IsPacked v → framebuffer_data v id ≡ id * (v.yres * v.xres)
unfolding framebuffer_data
data-packed v id p =
    rw (p.depth)
      (ap (λ n. n / 4) (sym (mul_assoc id (v.yres * v.xres) 4)) ∙ quarter (id * (v.yres * v.xres)))

-- The word of a pixel of a buffer.
unfoldable pub pixel : (v : Screen) (id x y : ℕ) → ℕ
pixel v id x y = x + y * v.xres + id * (v.yres * v.xres)

module _ (v : Screen) (p : IsPacked v) (id x y w h c : ℕ) (m : Mem) where
  moved : (i j : ℕ) → i + j * stride v + pixel v id x y ≡ pixel v id (x + i) (y + j)
  unfolding pixel
  moved i j = rw (stride-packed v p) (omega (arith, add-mul y j (v.xres)))

  pub set_color-inside :
      (i j : ℕ)
      → i < w
      → j < h
      → framebuffer_set_color v w h (pixel v id x y) c m (pixel v id (x + i) (y + j)) ≡ c
  set_color-inside i j li lj =
      ap (framebuffer_set_color v w h (pixel v id x y) c m) (sym (moved i j))
      ∙ (framebuffer_set_color-Filled v w h (pixel v id x y) c m).0 i j li lj

  -- A pixel of the same buffer outside the rectangle keeps its colour.
  pub set_color-outside :
      (px py : ℕ)
      → x + w ≤ v.xres
      → px < v.xres
      → ((i j : ℕ) → i < w → j < h → px ≡ x + i → py ≢ y + j)
      → framebuffer_set_color v w h (pixel v id x y) c m (pixel v id px py) ≡ m (pixel v id px py)
  unfolding pixel
  set_color-outside px py fits lx out =
      (framebuffer_set_color-Filled v w h (pixel v id x y) c m).1 (pixel v id px py) λ i j li lj e.
        let (ex, ey) =
          same_pixel px py (x + i) (y + j) v.xres lx (omega arith) (omega (arith, e ∙ moved i j)) in
        out i j li lj ex ey

  -- So does every word behind the two buffers.
  pub set_color-beyond :
      (a : ℕ)
      → id < 2
      → x + w ≤ v.xres
      → y + h ≤ v.yres
      → 2 * (v.yres * v.xres) ≤ a
      → framebuffer_set_color v w h (pixel v id x y) c m a ≡ m a
  unfolding pixel
  set_color-beyond a two fits fits' far =
      (framebuffer_set_color-Filled v w h (pixel v id x y) c m).1 a λ i j li lj e.
        let inside : (x + i) + (y + j) * v.xres < v.yres * v.xres =
          area (x + i) (y + j) v.xres v.yres (omega arith) (omega arith) in
        let below : id * (v.yres * v.xres) ≤ 1 * (v.yres * v.xres) =
          mul-le-mul_right (v.yres * v.xres) (omega arith) in
        omega (arith, e ∙ moved i j, inside, below, far)
