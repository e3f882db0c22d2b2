-- ===== src/Lcd/Frames.antt =====
-- What set_full_screen and set_three_color of test_lcd.c show.
use native.Mathlib.Nat.{add-mul, mul_assoc}
use test_tools.Common.{
  ℕ, ◌+◌, ◌*◌, ◌/◌, ◌%◌, ◌<◌, ◌≤◌, ◌≡◌, List, [], ◌∷◌, ◌++◌, arith, ◌∙◌, ◌⊎◌, inl, ap, sym,
  append_assoc, append-nil,
}
use test_tools.Common.Bytes.{Mem}
use test_tools.Lcd.{
  Screen, Lcd, red, green, blue, black, white, stride, framebuffer_data, framebuffer_set_color,
  set_active_framebuffer, full_screen, full_screens, set_full_screen, set_three_color,
}
use test_tools.Lcd.Pixels.{
  IsPacked, stride-packed, data-packed, pixel, set_color-inside, set_color-outside,
}

-- The pixel that the display shows at `(x, y)` when it starts at the row `f.0` of the memory `f.1`.
abbrev pub shown_pixel : (v : Screen) (f : ℕ × Mem) (x y : ℕ) → ℕ
shown_pixel v f x y = f.1 (x + (y + f.0) * stride v)

pub shown_pixel-pixel :
    (v : Screen) (p : IsPacked v) (id : ℕ) (m : Mem) (x y : ℕ)
    → shown_pixel v (id * v.yres, m) x y ≡ m (pixel v id x y)
unfolding pixel
shown_pixel-pixel v p id m x y = ap m (
    rw (stride-packed v p)
      (omega (arith, add-mul y (id * v.yres) v.xres, mul_assoc id v.yres v.xres)))

-- Frames that show one colour each, all over.
pub Plain : Screen → List ℕ → List (ℕ × Mem) → Type 0
Plain v [] [] = Unit
Plain v (c ∷ cs) (f ∷ fs) =
    ((x y : ℕ) → x < v.xres → y < v.yres → shown_pixel v f x y ≡ c) × Plain v cs fs
Plain v [] (f ∷ fs) = ⊥
Plain v (c ∷ cs) [] = ⊥

pub set_active-frame :
    (v : Screen) (c : ℕ) (s : Lcd)
    → (set_active_framebuffer v (c % 2) s).shown ≡ s.shown ++ ((c % 2) * v.yres, s.mem) ∷ []
unfolding set_active_framebuffer
set_active-frame v c s = ground arith

pub data-pixel : (v : Screen) (p : IsPacked v) (id : ℕ) → framebuffer_data v id ≡ pixel v id 0 0
unfolding pixel
data-pixel v p id = data-packed v id p ∙ omega arith

pub data-row :
    (v : Screen) (p : IsPacked v) (id r : ℕ) → framebuffer_data v id + r * v.xres ≡ pixel v id 0 r
unfolding pixel
data-row v p id r = omega (arith, data-packed v id p)

-- The pixels of a band of rows from `r` on, and those of the rows above and below it.
band-inside :
    (v : Screen) (p : IsPacked v) (id r w h c : ℕ) (m : Mem) (x y : ℕ)
    → x < w
    → y < h
    → framebuffer_set_color v w h (pixel v id 0 r) c m (pixel v id x (r + y)) ≡ c
band-inside v p id r w h c m x y lx ly =
    let ex : x ≡ 0 + x = omega arith in
    ap (λ a. framebuffer_set_color v w h (pixel v id 0 r) c m (pixel v id a (r + y))) ex
    ∙ set_color-inside v p id 0 r w h c m x y lx ly

band-outside :
    (v : Screen) (p : IsPacked v) (id r h c : ℕ) (m : Mem) (x y : ℕ)
    → x < v.xres
    → (y < r) ⊎ (r + h ≤ y)
    → framebuffer_set_color v v.xres h (pixel v id 0 r) c m (pixel v id x y) ≡ m (pixel v id x y)
band-outside v p id r h c m x y lx out =
    set_color-outside v p id 0 r v.xres h c m x y (omega arith) lx (λ i j li lj ex ey. ground arith)

full_screens-Plain :
    (v : Screen) (p : IsPacked v) (cs : List ℕ) (s : Lcd)
    → (fs : List (ℕ × Mem)) × ((full_screens v cs s).shown ≡ s.shown ++ fs) × Plain v cs fs
unfolding full_screens Plain
full_screens-Plain v p [] s = ([], sym (append-nil s.shown), tt)
full_screens-Plain v p (c ∷ cs) s =
    let s' = full_screen v c s in
    let id = (s.buffercount + 1) % 2 in
    let m = framebuffer_set_color v v.xres v.yres (framebuffer_data v id) c s.mem in
    let e : s'.shown ≡ s.shown ++ (id * v.yres, m) ∷ [] =
      (unfold full_screen in set_active-frame v (s.buffercount + 1) _) in
    let (fs, run, plain) = full_screens-Plain v p cs s' in
    (
      (id * v.yres, m) ∷ fs,
      run ∙ ap (λ xs. xs ++ fs) e ∙ append_assoc s.shown ((id * v.yres, m) ∷ []) fs,
      (
        λ x y lx ly.
            let e : y ≡ 0 + y = omega arith in
            shown_pixel-pixel v p id m x y
            ∙ rw (data-pixel v p id) (
                ap
                  (λ b.
                    framebuffer_set_color v v.xres v.yres (pixel v id 0 0) c s.mem (pixel v id x b))
                  e
                ∙ band-inside v p id 0 v.xres v.yres c s.mem x y lx ly),
        plain,
      ),
    )

-- On a screen without space between its rows, `set_full_screen` shows five frames behind those shown
-- before: one all red, one all green, one all blue, one all black and one all white, in this order.
pub set_full_screen-Plain :
    (v : Screen) (s : Lcd)
    → IsPacked v
    → (fs : List (ℕ × Mem)) × ((set_full_screen v s).shown ≡ s.shown ++ fs)
      × Plain v (red ∷ green ∷ blue ∷ black ∷ white ∷ []) fs
unfolding set_full_screen
set_full_screen-Plain v s p = full_screens-Plain v p _ _

-- On a screen without space between its rows, `set_three_color` shows one frame behind those shown
-- before, and with h for a third of the height rounded down and g for two thirds rounded down, its rows
-- are red up to h, green from h up to 2 h, and blue from g up to g + h.
pub set_three_color-thirds :
    (v : Screen) (s : Lcd)
    → IsPacked v
    → (f : ℕ × Mem) × ((set_three_color v s).shown ≡ s.shown ++ f ∷ [])
      × ((x y : ℕ)
          → x < v.xres
          → y < v.yres / 3
          → (shown_pixel v f x y ≡ red)
            × (shown_pixel v f x (v.yres / 3 + y) ≡ green)
            × (shown_pixel v f x (2 * v.yres / 3 + y) ≡ blue))
unfolding set_three_color
set_three_color-thirds v s p =
    let id = (s.buffercount + 1) % 2 in
    let w = v.xres in
    let h = v.yres / 3 in
    let g = 2 * v.yres / 3 in
    let m1 = framebuffer_set_color v w h (pixel v id 0 0) red s.mem in
    let m2 = framebuffer_set_color v w h (pixel v id 0 h) green m1 in
    let m3 = framebuffer_set_color v w h (pixel v id 0 g) blue m2 in
    let le : (h ≤ g) × (h + h ≤ g) × (g + h ≤ v.yres) = omega arith in
    let show = shown_pixel-pixel v p id m3 in
    (
      (id * v.yres, m3),
      rw (data-row v p id h, data-row v p id g, data-pixel v p id)
          (set_active-frame v (s.buffercount + 1) _),
      λ x y lx ly. (
        show x y
            ∙ band-outside v p id g h blue m2 x y lx (inl (omega arith))
            ∙ band-outside v p id h h green m1 x y lx (inl ly)
            ∙ ap m1 (ap (pixel v id x) (omega arith))
            ∙ band-inside v p id 0 w h red s.mem x y lx ly,
        show x (h + y)
            ∙ band-outside v p id g h blue m2 x (h + y) lx (inl (omega arith))
            ∙ band-inside v p id h w h green m1 x y lx ly,
        show x (g + y) ∙ band-inside v p id g w h blue m2 x y lx ly,
      ),
    )
