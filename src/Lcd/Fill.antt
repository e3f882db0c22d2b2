-- ===== src/Lcd/Fill.antt =====
-- The two loops that fill a rectangle write all of it and nothing else.
use test_tools.Common.{ℕ, zero, suc, ◌+◌, ◌*◌, ◌<◌, ◌≡◌, ◌≢◌, refl, arith, ◌∙◌, ap, sym}
use test_tools.Common.Bytes.{Mem, poke}
use test_tools.Lcd.{Screen, stride, framebuffer_set_color, set_row, set_rows}

poke-same : (a c : ℕ) (m : Mem) → poke a c m a ≡ c
unfolding poke
poke-same a c m = ground arith

poke-other : (a b c : ℕ) (m : Mem) → b ≢ a → poke a c m b ≡ m b
unfolding poke
poke-other a b c m ne = ground arith

set_row-outside :
    (n i loc c : ℕ) (m : Mem) (a : ℕ)
    → ((k : ℕ) → k < n → a ≢ i + k + loc)
    → set_row n i loc c m a ≡ m a
unfolding set_row
set_row-outside zero i loc c m a out = refl
set_row-outside (suc n) i loc c m a out =
    set_row-outside n (suc i) loc c (poke (i + loc) c m) a
      (λ k l e. out (suc k) (omega arith) (omega arith))
    ∙ poke-other (i + loc) a c m (λ e. out 0 (omega arith) (omega arith))

set_row-inside : (n i loc c : ℕ) (m : Mem) (k : ℕ) → k < n → set_row n i loc c m (i + k + loc) ≡ c
unfolding set_row
set_row-inside zero i loc c m k l = absurd (omega arith)
set_row-inside (suc n) i loc c m zero l =
    let e : i + 0 + loc ≡ i + loc = omega arith in
    rw e (
      set_row-outside n (suc i) loc c (poke (i + loc) c m) (i + loc) (λ k l e. absurd (omega arith))
      ∙ poke-same (i + loc) c m)
set_row-inside (suc n) i loc c m (suc k) l =
    let e : i + suc k + loc ≡ suc i + k + loc = omega arith in
    rw e (set_row-inside n (suc i) loc c (poke (i + loc) c m) k (omega arith))

-- A word that has the colour keeps it.
set_row-keeps : (n i loc c : ℕ) (m : Mem) (a : ℕ) → m a ≡ c → set_row n i loc c m a ≡ c
unfolding set_row
set_row-keeps zero i loc c m a e = e
set_row-keeps (suc n) i loc c m a e =
    set_row-keeps n (suc i) loc c (poke (i + loc) c m) a (unfold poke in ground arith)

set_rows-keeps :
    (pitch w n j loc c : ℕ) (m : Mem) (a : ℕ) → m a ≡ c → set_rows pitch w n j loc c m a ≡ c
unfolding set_rows
set_rows-keeps pitch w zero j loc c m a e = e
set_rows-keeps pitch w (suc n) j loc c m a e =
    set_rows-keeps pitch w n (suc j) loc c (set_row w 0 (j * pitch + loc) c m) a
      (set_row-keeps w 0 (j * pitch + loc) c m a e)

row_next : (j y : ℕ) → suc j + y ≡ j + suc y
row_next j y = omega arith

none_more : (j : ℕ) → j ≡ j + 0
none_more j = omega arith

first : (k r loc : ℕ) → 0 + k + (r + loc) ≡ k + r + loc
first k r loc = omega arith

pub set_rows-outside :
    (pitch w n j loc c : ℕ) (m : Mem) (a : ℕ)
    → ((x y : ℕ) → x < w → y < n → a ≢ x + (j + y) * pitch + loc)
    → set_rows pitch w n j loc c m a ≡ m a
unfolding set_rows
set_rows-outside pitch w zero j loc c m a out = refl
set_rows-outside pitch w (suc n) j loc c m a out =
    set_rows-outside pitch w n (suc j) loc c (set_row w 0 (j * pitch + loc) c m) a (λ x y lx ly e.
      out x (suc y) lx (omega arith) (e ∙ ap (λ r. x + r * pitch + loc) (row_next j y)))
    ∙ set_row-outside w 0 (j * pitch + loc) c m a (λ k l e.
      out k 0 l (omega arith)
        (e ∙ first k (j * pitch) loc ∙ ap (λ r. k + r * pitch + loc) (none_more j)))

pub set_rows-inside :
    (pitch w n j loc c : ℕ) (m : Mem) (x y : ℕ)
    → x < w
    → y < n
    → set_rows pitch w n j loc c m (x + (j + y) * pitch + loc) ≡ c
unfolding set_rows
set_rows-inside pitch w zero j loc c m x y lx ly = absurd (omega arith)
set_rows-inside pitch w (suc n) j loc c m x zero lx ly =
    set_rows-keeps pitch w n (suc j) loc c (set_row w 0 (j * pitch + loc) c m) _ (
      ap (set_row w 0 (j * pitch + loc) c m)
        (sym (first x (j * pitch) loc ∙ ap (λ r. x + r * pitch + loc) (none_more j)))
      ∙ set_row-inside w 0 (j * pitch + loc) c m x lx)
set_rows-inside pitch w (suc n) j loc c m x (suc y) lx ly =
    let e : j + suc y ≡ suc j + y = omega arith in
    rw e (
      set_rows-inside pitch w n (suc j) loc c (set_row w 0 (j * pitch + loc) c m) x y lx
        (omega arith))

from_zero : (y : ℕ) → y ≡ 0 + y
from_zero y = omega arith

-- `framebuffer_set_color` gives its colour to every word of the rectangle and changes no other word.
pub framebuffer_set_color-Filled :
    (v : Screen) (w h loc color : ℕ) (m : Mem)
    → ((x y : ℕ)
        → x < w
        → y < h
        → framebuffer_set_color v w h loc color m (x + y * stride v + loc) ≡ color)
      × ((a : ℕ)
          → ((x y : ℕ) → x < w → y < h → a ≢ x + y * stride v + loc)
          → framebuffer_set_color v w h loc color m a ≡ m a)
unfolding framebuffer_set_color
framebuffer_set_color-Filled v w h loc color m = (
  λ x y lx ly.
      ap (λ r. set_rows (stride v) w h 0 loc color m (x + r * stride v + loc)) (from_zero y)
      ∙ set_rows-inside (stride v) w h 0 loc color m x y lx ly,
  λ a out.
      set_rows-outside (stride v) w h 0 loc color m a
        (λ x y lx ly e. out x y lx ly (e ∙ ap (λ r. x + r * stride v + loc) (sym (from_zero y)))),
)
