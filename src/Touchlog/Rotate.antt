-- ===== src/Touchlog/Rotate.antt =====
-- The two readings of button_select, for a screen that is turned and one that is not.
use test_tools.Common.{ℕ, ◌-◌, ◌*◌, ◌/◌, ◌≤◌, ◌≡◌, ◌≢◌, refl, arith, false}
use test_tools.Common.Int.{ℤ, pos, negsuc, eqb_ℤ}
use test_tools.Touchlog.{button_select}

-- On a screen of 2p by 4q points, a touch is read with F1 = 1 as the touch at the point opposite to it is
-- read without.
pub button_select-turned :
    (p q : ℕ) (f1 : ℤ) (x y : ℕ)
    → f1 ≢ pos 1
    → x ≤ 2 * p
    → y ≤ 4 * q
    → button_select (2 * p) (4 * q) (pos 1) (2 * p - x) (4 * q - y)
      ≡ button_select (2 * p) (4 * q) f1 x y
unfolding button_select
button_select-turned p q f1 x y n lx ly =
    let e : eqb_ℤ f1 (pos 1) ≡ false = other f1 n in
    let e1 : 4 * q * 1 / 4 ≡ q = omega arith in
    let e2 : 2 * p / 2 ≡ p = omega arith in
    let e3 : 4 * q * 3 / 4 ≡ 3 * q = omega arith in rw (e, e1, e2, e3) (ground arith)
  where
    other : (f1 : ℤ) → f1 ≢ pos 1 → eqb_ℤ f1 (pos 1) ≡ false
    other (pos n) h = ground arith
    other (negsuc n) h = refl
