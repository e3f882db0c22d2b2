-- ===== src/Sensors/Current.antt =====
-- test_current/test_current.c: the test of the charging current. A reading is what `atoi` makes of the
-- five bytes read, also where the file has not opened. The button, the event loop behind the test and
-- the places of the pictures are left out.
pub mod Decided
use test_tools.Common.{
  ℕ, Bool, true, false, not, ◌&&◌, Option, none, some, List, [], ◌∷◌, ◌++◌, if◌then◌else◌,
}
use test_tools.Common.Int.{ℤ, pos, negsuc, eqb_ℤ, ltb_ℤ}

-- The pictures that `init_backguound` shows.
pub data Picture : Type 0 where
  current_test stop_charge current_success current_fail : Picture

abbrev pub standard_current : ℕ
standard_current = 100

-- `(ret <= 0) && (charge_flag == 0)`
abbrev pub charges : ℤ → ℤ → Bool
charges ret charge_flag = ltb_ℤ ret (pos 1) && eqb_ℤ charge_flag (pos 0)

-- `while (1)`: `flag` and the pictures, or `none` where the readings given do not end the loop.
pub current_loop : List ℤ → (charge_flag : ℤ) → List Picture → Option (ℤ × List Picture)
current_loop [] charge_flag shown = none
current_loop (ret ∷ rets) charge_flag shown =
    let shown' = if charges ret charge_flag then shown ++ stop_charge ∷ [] else shown in
    let charge_flag' = if charges ret charge_flag then negsuc 0 else charge_flag in
    let rest = current_loop rets charge_flag' shown' in
    if ltb_ℤ (pos 0) ret && ltb_ℤ ret (pos standard_current)
    then some (pos 0, shown')
    else if ltb_ℤ (pos standard_current) ret
    then some (pos 1, shown')
    else rest

-- The exit status of `main` and the pictures that it has shown.
pub test_current : List ℤ → Option (ℤ × List Picture)
test_current rets = elim (current_loop rets (pos 0) (current_test ∷ [])) [
  | none ↦ none
  | some (flag, shown) ↦
      some (flag, shown ++ (if eqb_ℤ flag (pos 0) then current_success else current_fail) ∷ [])
]
