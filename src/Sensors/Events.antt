-- ===== src/Sensors/Events.antt =====
-- test_gyroscope/test_gyroscope.c, test_magnet/test_magnet.c and test_gsensor/test_gsensor.c: three
-- programs that differ in the names of three events only, and read eight lines of the log of
-- `getevent`. A call of `fgets` gives a piece of text, of less than 30 bytes; `buf` is cleared before
-- each, so that a comparison of its first bytes is one of the start of the text.
pub mod Passed
use test_tools.Common.{
  ℕ, zero, suc, ◌+◌, Bool, true, false, not, ◌||◌, Option, none, some, List, [], ◌∷◌, ◌==◌, ltb,
  if◌then◌else◌,
}
use test_tools.Common.Bind.{◌>>=◌}
use test_tools.Common.Int.{ℤ, pos, negsuc}
use test_tools.Common.Text.{bytes, is_prefix}
use test_tools.Touchlog.{Piece}

-- The three names that a program accepts.
pub record Names : Type 0 where
  pub x : List ℕ
  pub y : List ℕ
  pub z : List ℕ

abbrev pub gyroscope : Names
gyroscope = record { x = bytes "0003 003c "; y = bytes "0003 003d "; z = bytes "0003 003e " }

abbrev pub magnet : Names
magnet = record { x = bytes "0003 0010 "; y = bytes "0003 0011 "; z = bytes "0003 000a " }

abbrev pub gsensor : Names
gsensor = record { x = bytes "0003 0000 "; y = bytes "0003 0001 "; z = bytes "0003 0002 " }

abbrev pub sync_line : List ℕ
sync_line = bytes "0000 0000 00000000"

abbrev pub is_event : Names → List ℕ → Bool
is_event ns text = is_prefix ns.x text || (is_prefix ns.y text || is_prefix ns.z text)

-- The tests of a turn: `count_0` behind it, or `none` where `main` returns -1.
pub check_row : Names → List ℕ → ℕ → Option ℕ
check_row ns text count =
    if is_event ns text
    then some count
    else if is_prefix sync_line text
    then some (count + 1)
    else none

-- The loop with `n` rows to go. In the last row a missing line is no error by itself: `buf` is empty.
pub check_rows : Names → ℕ → List Piece → ℕ → Option ℕ
check_rows ns zero pieces count = some count
check_rows ns (suc n) [] count = if ltb 0 n then none else check_row ns [] count
check_rows ns (suc n) (p ∷ pieces) count = do
  count' ← check_row ns p.text count
  elim p.at_end [ true ↦ some count' | false ↦ check_rows ns n pieces count' ]

-- The exit status of `main`; `pieces` is `none` where the file does not open.
pub main : Names → (argc : ℕ) → Option (List Piece) → ℤ
main ns argc none = negsuc 0
main ns argc (some pieces) = if not (argc == 2) then negsuc 0 else elim (check_rows ns 8 pieces 0) [
  | none ↦ negsuc 0
  | some count ↦ if ltb 3 count then negsuc 0 else pos 0
]
