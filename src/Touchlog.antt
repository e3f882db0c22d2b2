-- ===== src/Touchlog.antt =====
-- get_select.c, test_touchscreen/get_coordinate.c and test_pac7673/get_proximity.c: three programs that
-- read the log of `getevent`. A call of `fgets` gives a piece of text; a name that is looked for is
-- followed by at least one more byte there.
pub mod Rotate
pub mod EventNum
mod Tests
use test_tools.Common.{
  ℕ, zero, suc, ◌+◌, ◌*◌, ◌/◌, Bool, true, false, ◌&&◌, Option, none, some, List, [], ◌∷◌, ◌++◌,
  ◌==◌, ltb, if◌then◌else◌, drop,
}
use test_tools.Common.Int.{ℤ, pos, negsuc, eqb_ℤ, ltb_ℤ}
use test_tools.Common.Text.{bytes, strstr}

-- What `fgets` gives, and whether the end of the file is met.
pub record Piece : Type 0 where
  pub text : List ℕ
  pub at_end : Bool

-- The text 10 bytes behind the start of a name.
unfoldable pub value_of : (text name : List ℕ) → Option (List ℕ)
unfolding strstr
value_of text name = elim (strstr text name) [ none ↦ none | some rest ↦ some (drop 10 rest) ]

abbrev pub x_co : List ℕ
x_co = bytes "0003 0035"

abbrev pub y_co : List ℕ
y_co = bytes "0003 0036"

-- With `xres` and `yres` of the screen. `f1`: `atoi(getenv("F1"))`.
unfoldable pub button_select : (xres yres : ℕ) (f1 : ℤ) (x y : ℕ) → ℕ
button_select xres yres f1 x y =
    if eqb_ℤ f1 (pos 1)
    then if ltb y (yres * 1 / 4) && ltb (xres / 2) x
      then 1
      else if ltb y (yres * 1 / 4) && ltb x (xres / 2)
      then 2
      else 3
    else if ltb (yres * 3 / 4) y && ltb x (xres / 2)
    then 1
    else if ltb (yres * 3 / 4) y && ltb (xres / 2) x
    then 2
    else 3

-- The number behind the name, where the piece has it.
abbrev pub read_or : (List ℕ → ℕ) → Option (List ℕ) → ℕ → ℕ
read_or strtol none before = before
read_or strtol (some v) before = strtol v

-- The loop of get_select.c with `rows` to go: the coordinates, or `none` where `main` returns 4.
unfoldable pub select_rows :
    (strtol : List ℕ → ℕ) (rows : ℕ) → List Piece → (x y : ℕ) → Option (ℕ × ℕ)
unfolding value_of
select_rows strtol zero pieces x y = some (x, y)
select_rows strtol (suc rows) [] x y = none
select_rows strtol (suc rows) (p ∷ pieces) x y =
    let x' = read_or strtol (value_of p.text x_co) x in
    let y' = read_or strtol (value_of p.text y_co) y in
    elim p.at_end [ true ↦ some (x', y') | false ↦ select_rows strtol rows pieces x' y' ]

-- `main` of get_select.c with one argument; `pieces` is `none` where the file does not open, `f1` where
-- the variable is not set, which ends the program by a null pointer: `none`.
unfoldable pub get_select :
    (strtol : List ℕ → ℕ) (xres yres : ℕ) (f1 : Option ℤ) (pieces : Option (List Piece)) → Option ℤ
unfolding select_rows button_select
get_select strtol xres yres f1 none = some (negsuc 0)
get_select strtol xres yres f1 (some pieces) = elim (select_rows strtol 5 pieces 0 0) [
  | none ↦ some (pos 4)
  | some (x, y) ↦ elim f1 [ none ↦ none | some v ↦ some (pos (button_select xres yres v x y)) ]
]

-- `count++`
abbrev pub next : ℤ → ℤ
next (pos n) = pos (suc n)
next (negsuc zero) = pos 0
next (negsuc (suc n)) = negsuc n

-- `printf` and `count++`, where the piece has the name.
abbrev pub show : (before behind : List ℕ) → Option (List ℕ) → ℤ × List ℕ → ℤ × List ℕ
show before behind none s = s
show before behind (some v) (count, printed) = (next count, printed ++ before ++ v ++ behind)

-- What is printed and `count`, which the program does not set at first; `none` where `main` returns -1.
unfoldable pub coordinate_rows :
    (rows : ℕ) → List Piece → (count : ℤ) (printed : List ℕ) → Option (ℤ × List ℕ)
unfolding value_of
coordinate_rows zero pieces count printed = some (count, printed)
coordinate_rows (suc rows) [] count printed = none
coordinate_rows (suc rows) (p ∷ pieces) count printed =
    let (count1, printed1) = show (bytes "X:") [] (value_of p.text x_co) (count, printed) in
    let (count2, printed2) =
      show (bytes "Y:") (bytes "\n") (value_of p.text y_co) (count1, printed1) in
    elim p.at_end [
      | true ↦ some (count2, printed2)
      | false ↦ coordinate_rows rows pieces count2 printed2
    ]

-- The end of the two programs: the status with what is printed, -1 where `fgets` fails.
abbrev pub counted : Option (ℤ × List ℕ) → ℤ × List ℕ
counted none = (negsuc 0, [])
counted (some (count, printed)) = if ltb_ℤ (pos 0) count then (pos 0, printed) else (pos 1, printed)

-- `main` of get_coordinate.c with one argument; `count` is what the stack holds.
unfoldable pub get_coordinate : (count : ℤ) → Option (List Piece) → ℤ × List ℕ
unfolding coordinate_rows
get_coordinate count none = (negsuc 0, [])
get_coordinate count (some pieces) = counted (coordinate_rows 50 pieces count [])

-- `process_str`: 48 is '0'.
unfoldable pub process_str : List ℕ → List ℕ
process_str [] = []
process_str (c ∷ cs) = let rest = process_str cs in if c == 48 then rest else c ∷ cs

abbrev pub processed : Option (List ℕ) → Option (List ℕ)
processed none = none
processed (some v) = some (process_str v)

unfoldable pub proximity_rows :
    (rows : ℕ) → List Piece → (count : ℤ) (printed : List ℕ) → Option (ℤ × List ℕ)
unfolding value_of process_str
proximity_rows zero pieces count printed = some (count, printed)
proximity_rows (suc rows) [] count printed = none
proximity_rows (suc rows) (p ∷ pieces) count printed =
    let (count1, printed1) =
      show (bytes "proximity:") [] (processed (value_of p.text (bytes "0003 0009")))
        (count, printed) in
    elim p.at_end [
      | true ↦ some (count1, printed1)
      | false ↦ proximity_rows rows pieces count1 printed1
    ]

-- `main` of get_proximity.c with one argument.
unfoldable pub get_proximity : (count : ℤ) → Option (List Piece) → ℤ × List ℕ
unfolding proximity_rows
get_proximity count none = (negsuc 0, [])
get_proximity count (some pieces) = counted (proximity_rows 50 pieces count [])
