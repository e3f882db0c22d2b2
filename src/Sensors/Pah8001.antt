-- ===== src/Sensors/Pah8001.antt =====
-- test_heartrate/test_pah8001/test_pah8001.c: the test of the heart-rate sensor. `none` is an overflow
-- of `int`, or fuel that ran out. What `usleep` and `printf` do is left out.
pub mod Readings
pub mod Judgement
use test_tools.Common.{
  ℕ, zero, suc, ◌+◌, ◌-◌, ◌*◌, ◌%◌, ◌^◌, Bool, true, false, not, ◌||◌, Option, none, some, List, [],
  ◌∷◌, ◌==◌, ltb, leb, if◌then◌else◌,
}
use test_tools.Common.Bind.{◌>>=◌}
use test_tools.Common.Int.{ℤ, pos, negsuc, pos_part, ltb_ℤ, eqb_ℤ}

pub record Pah8001Reg : Type 0 where
  pub bank : ℕ
  pub reg_addr : ℕ
  pub reg_val : ℕ

abbrev pub reg_at : ℕ → ℕ → ℕ → Pah8001Reg
reg_at b a v = record { bank = b; reg_addr = a; reg_val = v }

-- The calls of `ioctl` that the driver answers, each with the value that it returns.
pub record Driver {ℓ} (D : Type ℓ) : Type ℓ where
  pub enable_disable : ℕ → D → ℤ × D
  pub test_start : ℕ → D → ℤ × D
  pub test_get : Pah8001Reg → D → ℤ × Pah8001Reg × D
  pub test_end : D → ℤ × D

-- `timeout *= 10` in an `int`.
pub times_ten : ℤ → Option ℤ
times_ten (pos n) = if ltb (n * 10) (2 ^ 31) then some (pos (n * 10)) else none
times_ten (negsuc n) = if leb (n * 10 + 10) (2 ^ 31) then some (negsuc (n * 10 + 9)) else none

abbrev pub decrement : ℤ → ℤ
decrement (pos zero) = negsuc 0
decrement (pos (suc n)) = pos n
decrement (negsuc n) = negsuc (suc n)

abbrev pub fails : ℤ → Bool
fails err = not (eqb_ℤ err (pos 0))

module _ {ℓ} {D : Type ℓ} (drv : Driver D) where
  pub poweron : D → ℤ × D
  poweron d = drv.enable_disable 1 d

  pub poweroff : D → ℤ × D
  poweroff d = drv.enable_disable 0 d

  -- The loop of the first test: the error that ends it, 0 if none does, and `count`.
  pub assembly_loop : ℕ → ℤ → ℕ → Pah8001Reg → D → Option (ℤ × ℕ × D)
  assembly_loop zero timeout count reg d = none
  assembly_loop (suc k) timeout count reg d =
      let (err, reg', d') = drv.test_get reg d in
      let count' = if reg'.reg_val % 8 == 6 then count + 1 else count in
      let rest = assembly_loop k (decrement timeout) count' reg' d' in
      if fails err
      then some (err, count, d')
      else if ltb_ℤ (pos 0) timeout
      then rest
      else some (pos 0, count', d')

  -- `garbage` is what the uninitialised `reg.reg_val` holds.
  pub check_mechanical_assembly : ℕ → ℕ → ℤ → D → Option (ℤ × D)
  check_mechanical_assembly fuel garbage time d = do
    timeout ← times_ten time
    let (err, d1) = drv.test_start 1 d
    let rest = (do
      (err', count, d2) ← assembly_loop fuel timeout 0 (reg_at 0 0x08 garbage) d1
      let (err'', d3) = drv.test_end d2
      if fails err'
          then some (err', d2)
          else if fails err''
          then some (err'', d3)
          else some (if ltb 5 count then pos 0 else negsuc 13, d3))
    if fails err then some (err, d1) else rest

  -- The loop of the second test; an error leaves it by `break`.
  pub frame_loop : ℕ → ℤ → Pah8001Reg → D → Option D
  frame_loop zero timeout reg d = none
  frame_loop (suc k) timeout reg d =
      let (err, reg', d') = drv.test_get reg d in
      let rest = frame_loop k (decrement timeout) reg' d' in
      if fails err then some d' else if ltb_ℤ (pos 0) timeout then rest else some d'

  pub check_frame_average : ℕ → ℕ → ℤ → D → Option (ℤ × D)
  check_frame_average fuel garbage time d = do
    timeout ← times_ten time
    let (err, d1) = drv.test_start 2 d
    let rest = (do
      d2 ← frame_loop fuel timeout (reg_at 1 0x1b garbage) d1
      let (err', d3) = drv.test_end d2
      if fails err' then some (err', d3) else some (pos 0, d3))
    if fails err then some (err, d1) else rest

-- What a call of `getopt_long` yields, with `atoi` of the argument.
pub data CmdOption : Type 0 where
  test : ℤ → CmdOption
  time : ℤ → CmdOption
  help : CmdOption
  unknown : CmdOption

pub data Parsed : Type 0 where
  exits : ℤ → Parsed
  settings : ℤ → ℤ → Parsed

pub parse_options : List CmdOption → (test time : ℤ) → Parsed
parse_options [] te ti =
    if eqb_ℤ te (negsuc 0) || eqb_ℤ ti (negsuc 0) then exits (pos 0) else settings te ti
parse_options (test v ∷ os) te ti = parse_options os v ti
parse_options (time v ∷ os) te ti = parse_options os te v
parse_options (help ∷ os) te ti = exits (pos 0)
parse_options (unknown ∷ os) te ti = exits (negsuc 0)

module _ {ℓ} {D : Type ℓ} (drv : Driver D) where
  -- The `switch` of `main` between `poweron` and `poweroff`.
  pub run_test : ℕ → ℕ → ℤ → ℤ → D → Option (ℤ × D)
  run_test fuel garbage te ti d =
      if eqb_ℤ te (pos 1)
      then check_mechanical_assembly drv fuel garbage ti d
      else if eqb_ℤ te (pos 2)
      then check_frame_average drv fuel garbage ti d
      else some (negsuc 0, d)

  -- `fd` is what `open` returns; the results of `poweron` and `poweroff` are not looked at.
  pub main : ℕ → ℕ → List CmdOption → ℤ → D → Option (ℤ × D)
  main fuel garbage os fd d = elim (parse_options os (negsuc 0) (negsuc 0)) [
    | exits e ↦ some (e, d)
    | settings te ti ↦
        let rest = (do
          (err, d2) ← run_test fuel garbage te ti (poweron drv d).1
          some (err, (poweroff drv d2).1)) in
        if ltb_ℤ fd (pos 0) then some (negsuc 0, d) else rest
  ]
