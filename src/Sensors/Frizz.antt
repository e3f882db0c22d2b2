-- ===== src/Sensors/Frizz.antt =====
-- test_frizz/test_frizz.c: the tests of the sensors behind the frizz hub. What is printed is left out.
pub mod Verdict
use test_tools.Common.{
  ℕ, zero, suc, ◌+◌, Bool, true, false, not, ◌&&◌, ◌||◌, List, [], ◌∷◌, ◌==◌, if◌then◌else◌, get_or,
}
use test_tools.Common.Int.{ℤ, pos, negsuc, ltb_ℤ, eqb_ℤ}

-- `sensor_info`; `raw_data` has 64 words.
pub record SensorInfo : Type 0 where
  pub sensor_id : ℕ
  pub test_loop : ℕ
  pub raw_data : List ℕ

abbrev pub zeros : ℕ → List ℕ
zeros zero = []
zeros (suc n) = 0 ∷ zeros n

abbrev pub info_of : ℕ → SensorInfo
info_of id = record { sensor_id = id; test_loop = 1; raw_data = zeros 64 }

abbrev pub wiped : SensorInfo → SensorInfo
wiped i = record i { raw_data = zeros 64 }

-- `ioctl` with `FRIZZ_IOCTL_FW_TEST`: the value returned and what it makes of the structure.
abbrev pub FwTest : Type 0 → Type 0
FwTest D = SensorInfo → D → ℤ × SensorInfo × D

-- `raw_data[k] != 0x00` for `k` from 1 to `n`.
abbrev pub filled : ℕ → List ℕ → Bool
filled zero ws = true
filled (suc n) ws = filled n ws && not (get_or ws (suc n) 0 == 0)

module _ {D : Type 0} (fw_test : FwTest D) where
  -- The loop of a test, in a turn behind which `try_times` is `n`.
  pub try_loop : ℕ → ℤ → SensorInfo → D → ℤ × SensorInfo × D
  try_loop zero wanted i d = fw_test (wiped i) d
  try_loop (suc n) wanted i d =
      let (cnt, i', d') = fw_test (wiped i) d in
      let rest = try_loop n wanted i' d' in if not (eqb_ℤ cnt wanted) then rest else (cnt, i', d')

  -- What the three tests share: the sensor, the count that ends the loop, the first word, and the
  -- number of words that must not be 0.
  pub sensor_test : ℕ → ℤ → ℕ → ℕ → D → ℤ × D
  sensor_test id wanted header n d =
      let (cnt, i, d') = try_loop 4 wanted (info_of id) d in
      (if (get_or i.raw_data 0 0 == header) && filled n i.raw_data then pos 0 else negsuc 18, d')

  pub frizz_gsensor_test : D → ℤ × D
  frizz_gsensor_test d = sensor_test 0x80 (pos 5) 0xff808004 4 d

  pub frizz_gyro_test : D → ℤ × D
  frizz_gyro_test d = sensor_test 0x82 (pos 6) 0xff808205 5 d

  pub frizz_magent_test : D → ℤ × D
  frizz_magent_test d = sensor_test 0x81 (pos 5) 0xff808104 4 d

-- What a call of `getopt_long` yields.
pub data CmdOption : Type 0 where
  gsensor gyro magnet help unknown : CmdOption

pub record Selected : Type 0 where
  pub has_gsensor : Bool
  pub has_gyro : Bool
  pub has_magnet : Bool

pub data Parsed : Type 0 where
  exits : ℤ → Parsed
  selects : Selected → Parsed

unfoldable pub parse_options : List CmdOption → Selected → Parsed
parse_options [] s = selects s
parse_options (gsensor ∷ os) s = parse_options os (record s { has_gsensor = true })
parse_options (gyro ∷ os) s = parse_options os (record s { has_gyro = true })
parse_options (magnet ∷ os) s = parse_options os (record s { has_magnet = true })
parse_options (help ∷ os) s = exits (pos 0)
parse_options (unknown ∷ os) s = exits (negsuc 0)

abbrev pub none_selected : Selected
none_selected = record { has_gsensor = false; has_gyro = false; has_magnet = false }

module _ {D : Type 0} (fw_test : FwTest D) where
  -- `if (flag) err = test(fd, 0x00);`
  abbrev pub run_if : Bool → (D → ℤ × D) → ℤ × D → ℤ × D
  run_if true test (err, d) = test d
  run_if false test (err, d) = (err, d)

  pub run_selected : Selected → D → ℤ × D
  run_selected s d = run_if s.has_magnet (frizz_magent_test fw_test) (
      run_if s.has_gyro (frizz_gyro_test fw_test)
        (run_if s.has_gsensor (frizz_gsensor_test fw_test) (pos 0, d)))

  -- `fd` is what `open` returns.
  pub main : List CmdOption → ℤ → D → ℤ × D
  main os fd d = elim (parse_options os none_selected) [
    | exits e ↦ (e, d)
    | selects s ↦ if ltb_ℤ fd (pos 0) then (negsuc 0, d) else run_selected s d
  ]
