-- ===== src/Lcd/Cells.antt =====
-- The rows of rectangles that set_rectangle of test_lcd.c draws, cell by cell.
use native.Mathlib.Nat.{mul-le-mul_right, suc-mul, mul_comm}
use test_tools.Common.{
  ℕ, zero, suc, ◌+◌, ◌*◌, ◌/◌, ◌%◌, ◌<◌, ◌≤◌, ◌≡◌, ◌≢◌, refl, ◌&&◌, arith, ◌∙◌, ap, ltb, leb, ◌==◌,
  if◌then◌else◌, Bool-cases, inl, inr,
}
use test_tools.Common.Bytes.{Mem}
use test_tools.Lcd.{
  Screen, white, black, framebuffer_set_color, rectangle, rectangle_row, rectangle_rows,
}
use test_tools.Lcd.Pixels.{
  IsPacked, data-packed, pixel, same_pixel, set_color-inside, set_color-outside,
}

pub rectangle-pixel :
    (v : Screen) (p : IsPacked v) (id x y w h c : ℕ) (m : Mem)
    → rectangle v x y w h c id m ≡ framebuffer_set_color v w h (pixel v id x y) c m
unfolding rectangle pixel
rectangle-pixel v p id x y w h c m =
    ap (λ a. framebuffer_set_color v w h a c m)
      (omega (arith, data-packed v id p, mul_comm v.xres y))

pub narrower : (r s w n : ℕ) → r ≤ s → s * w ≤ n → r * w ≤ n
narrower r s w n le fits =
    let wider : r * w ≤ s * w = mul-le-mul_right w le in omega (arith, wider, fits)

-- A pixel of the cell `(i', j')`, at `(a, b)` from its corner; cells have the size `cw` by `ch`.
module _ (v : Screen) (p : IsPacked v) (id cw ch i' j' a b : ℕ) (la : a < cw) (lb : b < ch)
    (inside : suc i' * cw ≤ v.xres) where
  unfoldable pub cell : ℕ
  cell = pixel v id (i' * cw + a) (j' * ch + b)

  reaches : i' * cw + a < v.xres
  reaches = omega (arith, inside, suc-mul i' cw)

  rectangle-here :
      (i j c : ℕ) (m : Mem) → i' ≡ i → j' ≡ j → rectangle v (i * cw) (j * ch) cw ch c id m cell ≡ c
  unfolding cell
  rectangle-here i j c m ei ej =
      rw (rectangle-pixel v p id (i * cw) (j * ch) cw ch c m, ei, ej)
        (set_color-inside v p id (i * cw) (j * ch) cw ch c m a b la lb)

  rectangle-elsewhere :
      (i j c : ℕ) (m : Mem)
      → suc i * cw ≤ v.xres
      → (i' ≡ i → j' ≢ j)
      → rectangle v (i * cw) (j * ch) cw ch c id m cell ≡ m cell
  unfolding cell
  rectangle-elsewhere i j c m fits other = rw (rectangle-pixel v p id (i * cw) (j * ch) cw ch c m) (
      set_color-outside v p id (i * cw) (j * ch) cw ch c m (i' * cw + a) (j' * ch + b)
        (omega (arith, fits, suc-mul i cw)) reaches
        λ k l lk ll ex ey.
          other (same_pixel a i' k i cw la lk (omega (arith, ex))).1
            (same_pixel b j' l j ch lb ll (omega (arith, ey))).1)

  rectangle-cell :
      (i j c : ℕ) (m : Mem)
      → suc i * cw ≤ v.xres
      → rectangle v (i * cw) (j * ch) cw ch c id m cell
        ≡ (if (i' == i) && (j' == j) then c else m cell)
  rectangle-cell i j c m fits = elim (Bool-cases ((i' == i) && (j' == j))) [
    | inl here ↦ rw here (rectangle-here i j c m (ground arith) (ground arith))
    | inr other ↦ rw other (rectangle-elsewhere i j c m fits (λ e e'. ground arith))
  ]

  -- The colour that a row of rectangles from number `i` on gives to the cell.
  pub rectangle_row-cell :
      (n i j first second : ℕ) (m : Mem)
      → i % 2 ≡ 0
      → (i + 2 * n) * cw ≤ v.xres
      → rectangle_row v n i j cw ch first second id m cell ≡ (
          if (j' == j) && (leb i i' && ltb i' (i + 2 * n))
          then (if i' % 2 == 0 then first else second)
          else m cell)
  unfolding rectangle_row
  rectangle_row-cell zero i j first second m even fits = ground arith
  rectangle_row-cell (suc n) i j first second m even fits =
      let m1 = rectangle v (i * cw) (j * ch) cw ch first id m in
      let m2 = rectangle v ((i + 1) * cw) (j * ch) cw ch second id m1 in
      let fit1 : suc i * cw ≤ v.xres =
        narrower (suc i) (i + 2 * suc n) cw v.xres (omega arith) fits in
      let fit2 : suc (i + 1) * cw ≤ v.xres =
        narrower (suc (i + 1)) (i + 2 * suc n) cw v.xres (omega arith) fits in
      let fit3 : (i + 2 + 2 * n) * cw ≤ v.xres =
        narrower (i + 2 + 2 * n) (i + 2 * suc n) cw v.xres (omega arith) fits in
      rw
        (
          rectangle_row-cell n (i + 2) j first second m2 (omega arith) fit3,
          rectangle-cell (i + 1) j second m1 fit2,
          rectangle-cell i j first m fit1,
        )
        (ground arith)

  whole_row :
      (n j first second : ℕ) (m : Mem)
      → 2 * n * cw ≤ v.xres
      → i' < 2 * n
      → rectangle_row v n 0 j cw ch first second id m cell
        ≡ (if j' == j then (if i' % 2 == 0 then first else second) else m cell)
  whole_row n j first second m fits here =
      rectangle_row-cell n 0 j first second m refl
        (narrower (0 + 2 * n) (2 * n) cw v.xres (omega arith) fits)
      ∙ ground arith

  -- A row that starts white and a row that starts black.
  two_rows :
      (n j : ℕ) (m : Mem)
      → j % 2 ≡ 0
      → 2 * n * cw ≤ v.xres
      → i' < 2 * n
      → rectangle_row v n 0
          (j + 1)
          cw
          ch
          black
          white
          id
          (rectangle_row v n 0 j cw ch white black id m)
          cell
        ≡ (if leb j j' && ltb j' (j + 2)
            then (if (i' + j') % 2 == 0 then white else black)
            else m cell)
  two_rows n j m even fits here =
      whole_row n (j + 1) black white (rectangle_row v n 0 j cw ch white black id m) fits here
      ∙ rw (whole_row n j white black m fits here) (either white black (m cell))
    where
      either :
          (w k x : ℕ)
          → (if j' == j + 1
              then (if i' % 2 == 0 then k else w)
              else if j' == j
              then (if i' % 2 == 0 then w else k)
              else x)
            ≡ (if leb j j' && ltb j' (j + 2) then (if (i' + j') % 2 == 0 then w else k) else x)
      either w k x = ground arith

  -- The colour of the cell behind the rows from number `j` on, with `2 n` cells in each row.
  pub rectangle_rows-cell :
      (n turns j : ℕ) (m : Mem)
      → j % 2 ≡ 0
      → 2 * n * cw ≤ v.xres
      → i' < 2 * n
      → rectangle_rows v turns j (2 * n) (2 * n) cw ch id m cell ≡ (
          if leb j j' && ltb j' (j + 2 * turns)
          then (if (i' + j') % 2 == 0 then white else black)
          else m cell)
  unfolding rectangle_rows
  rectangle_rows-cell n zero j m even fits here = ground arith
  rectangle_rows-cell n (suc turns) j m even fits here =
      let e : (2 * n + 1) / 2 ≡ n = omega arith in
      let m2 =
        rectangle_row v n 0 (j + 1) cw ch black white id
          (rectangle_row v n 0 j cw ch white black id m) in
      rw (e) (
        rectangle_rows-cell n turns (j + 2) m2 (omega arith) fits here
        ∙ rw (two_rows n j m even fits here)
            (joined (if (i' + j') % 2 == 0 then white else black) (m cell)))
    where
      joined :
          (c x : ℕ)
          → (if leb (j + 2) j' && ltb j' (j + 2 + 2 * turns)
              then c
              else if leb j j' && ltb j' (j + 2)
              then c
              else x)
            ≡ (if leb j j' && ltb j' (j + 2 * suc turns) then c else x)
      joined c x = ground arith
