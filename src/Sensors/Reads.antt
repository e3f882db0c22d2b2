-- ===== src/Sensors/Reads.antt =====
-- test_mic/test_mic.c, test_uv/test_uv.c, test_barometer/test_barometer.c and test_gps/test_gps.c: one
-- read of a device file and a look at its bytes. Bytes of a buffer that no read has set are given.
pub mod Pattern
pub mod Switch
use test_tools.Common.{
  ℕ, zero, suc, ◌+◌, ◌%◌, Bool, true, false, not, ◌&&◌, ◌||◌, Option, none, some, List, [], ◌∷◌,
  ◌++◌, ◌==◌, if◌then◌else◌, take, drop, length,
}
use test_tools.Common.Int.{ℤ, pos, negsuc, eqb_ℤ, ltb_ℤ}
use test_tools.Common.Bytes.{Mem, put_bytes, has_bytes, peek}
use test_tools.Common.Text.{bytes, contains}

-- What a call of `read` gives: the bytes, or `none` for a failure.
abbrev pub Data : Type 0
Data = Option (List ℕ)

-- `buf` behind the read.
abbrev pub filled : List ℕ → Mem → Mem
filled bs m = put_bytes 0 bs m

-- The loop of test_mic.c in `n` more turns: `j` and `continue_num`.
pub mic_loop : ℕ → Mem → (j continue_num : ℕ) → ℕ
mic_loop zero buf j num = num
mic_loop (suc n) buf j num =
    let both = mic_loop n buf (j + 2) (num + 1) in
    let second = mic_loop n buf (j + 2) num in
    let first = mic_loop n buf (j + 1) num in
    if not (buf j % 256 == 0x73) then first else if buf (j + 1) % 256 == 0xfa then both else second

-- `main` of test_mic.c; `opens` tells whether the device does.
pub test_mic : (opens : Bool) → Data → Mem → ℤ
test_mic opens input m = if not opens then negsuc 0 else elim input [
  | none ↦ negsuc 0
  | some bs ↦ if mic_loop 9 (filled bs m) 1 0 == 8 then negsuc 0 else pos 0
]

pub test_uv : (opens : Bool) → Data → Mem → ℤ
test_uv opens input m = if not opens then negsuc 0 else elim input [
  | none ↦ negsuc 0
  | some bs ↦ if not (filled bs m 0 == 0) && not (filled bs m 0 == 48) then pos 0 else negsuc 0
]

-- The three files of test_barometer.c: the first, or else the two others.
pub test_barometer : (pressure name enable : Bool) → Data → ℤ
test_barometer pressure name enable input =
    if not pressure && not (name && enable) then negsuc 0 else elim input [
      | none ↦ negsuc 0
      | some bs ↦
          if has_bytes (filled bs (λ a. 0)) 0 (if pressure then bytes "74104" else bytes "pps210a2")
          then pos 0
          else negsuc 0
    ]

-- The bytes up to the first 0, of at most `n`.
abbrev pub until_zero : List ℕ → List ℕ
until_zero [] = []
until_zero (b ∷ bs) = if b == 0 then [] else b ∷ until_zero bs

abbrev pub gp : List ℕ
gp = bytes "$GP"

-- The texts of one digit and a line feed that go to the file of the power switch.
abbrev pub off_text : List ℕ
off_text = 48 ∷ 10 ∷ []

abbrev pub on_text : List ℕ
on_text = 49 ∷ 10 ∷ []

-- The condition on the 128 bytes of `buf`; `strstr` stops at a 0 among them.
abbrev pub is_gps : Mem → Bool
is_gps buf =
    has_bytes buf 0 (0 ∷ gp) || (has_bytes buf 0 gp || contains (until_zero (peek buf 128 0)) gp)

-- A call of `write` on the switch: the text and what the call returns.
abbrev pub Call : Type 0
Call = List ℕ × ℤ

-- `main` of test_gps.c: the exit status and the calls of `write` on the switch. `state` and `port` tell
-- whether the two files open; `off`, `on` and `last` are what the calls of `write` return on a switch that is
-- open, on a descriptor of -1 it is -1. The test of `buf_state[0] = '1'` always holds.
pub test_gps : (state port : Bool) (off on last : ℤ) → Data → Mem → ℤ × List Call
test_gps state port off on last input m =
    if not state
    then (negsuc 0, (off_text, negsuc 0) ∷ [])
    else if not port
    then (negsuc 0, (off_text, last) ∷ [])
    else if not (eqb_ℤ off (pos 2))
    then (negsuc 0, (off_text, off) ∷ (off_text, last) ∷ [])
    else if not (eqb_ℤ on (pos 2))
    then (negsuc 0, (off_text, off) ∷ (on_text, on) ∷ (off_text, last) ∷ [])
    else (
      elim input [
        | none ↦ negsuc 0
        | some bs ↦ if is_gps (filled (take 4 bs) m) then pos 0 else negsuc 0
      ],
      (off_text, off) ∷ (on_text, on) ∷ (off_text, last) ∷ [],
    )
