-- ===== src/Sensors/Tests.antt =====
-- The sensor tests on drivers that count their calls.
use test_tools.Common.{
  ℕ, suc, ◌+◌, ◌*◌, ◌<◌, ◌≤◌, ◌≡◌, ◌↔◌, ◌⊎◌, refl, true, false, List, [], ◌∷◌, some, arith,
}
use test_tools.Common.Int.{ℤ, pos, negsuc}
use test_tools.Common.Text.{bytes, is_prefix}
use test_tools.Touchlog.{Piece}
use test_tools.Sensors.Reads.{test_gps}
use test_tools.Sensors.Reads.Switch.{Switched, test_gps-Switched}
use test_tools.Sensors.Events
use test_tools.Sensors.Events.{gyroscope}
use test_tools.Sensors.Events.Passed.{lines_of, every_known, number_of_syncs, main-zero_iff}
use test_tools.Sensors.Pah8001.{Driver, reg_at, check_mechanical_assembly, check_frame_average}
use test_tools.Sensors.Pah8001.Readings.{sixes, sample}
use test_tools.Sensors.Pah8001.Judgement.{IsCounter, check-Ends, check-zero_iff}
use test_tools.Sensors.Frizz.{FwTest, frizz_gsensor_test, frizz_gyro_test, frizz_magent_test}
use test_tools.Sensors.Frizz.Verdict.{IsGood, final, frizz_tests-zero_iff}

-- Every reading has the low bits 6; the driver counts the readings.
abbrev bright : Driver ℕ
bright = record {
  enable_disable = λ v d. (pos 0, d);
  test_start = λ v d. (pos 0, d);
  test_get = λ reg d. (pos 0, reg_at reg.bank reg.reg_addr 14, suc d);
  test_end = λ d. (pos 0, d);
}

abbrev itself : ℕ → ℕ
itself n = n

bright-IsCounter : IsCounter bright itself
bright-IsCounter = record { of_get = λ reg d. refl; of_start = λ v d. refl; of_end = λ d. refl }

check-Ends_example :
    ((r : ℤ) × (d' : ℕ) × (check_mechanical_assembly bright 11 0 (pos 1) 0 ≡ some (r, d'))
      × (d' ≤ 0 + (1 * 10 + 1)))
    × ((r : ℤ) × (d' : ℕ) × (check_frame_average bright 11 0 (pos 1) 0 ≡ some (r, d'))
        × (d' ≤ 0 + (1 * 10 + 1)))
check-Ends_example = check-Ends bright itself 11 0 1 0 bright-IsCounter (omega arith) (omega arith)

check-zero_iff_example :
    (((d' : ℕ) × (check_mechanical_assembly bright 11 0 (pos 1) 0 ≡ some (pos 0, d'))) ↔ (
      (pos 0 ≡ pos 0)
      × ((sample bright 11 (reg_at 0 8 0) 0).1 ≡ pos 0)
      × (pos 0 ≡ pos 0)
      × (5 < sixes (sample bright 11 (reg_at 0 8 0) 0).0)))
    × (((d' : ℕ) × (check_frame_average bright 11 0 (pos 1) 0 ≡ some (pos 0, d')))
        ↔ ((pos 0 ≡ pos 0) × (pos 0 ≡ pos 0)))
check-zero_iff_example = check-zero_iff bright 11 0 1 0 (omega arith) (omega arith)

-- The hub answers with the data of the gravity sensor, whatever it is asked.
abbrev hub : FwTest ℕ
hub i d = (pos 5, record i { raw_data = 0xff808004 ∷ 1 ∷ 2 ∷ 3 ∷ 4 ∷ [] }, suc d)

frizz_tests-zero_iff_example :
    (((frizz_gsensor_test hub 0).0 ≡ pos 0) ↔ IsGood 0xff808004 4 (final hub 0x80 (pos 5) 0))
    × (((frizz_gyro_test hub 0).0 ≡ pos 0) ↔ IsGood 0xff808205 5 (final hub 0x82 (pos 6) 0))
    × (((frizz_magent_test hub 0).0 ≡ pos 0) ↔ IsGood 0xff808104 4 (final hub 0x81 (pos 5) 0))
frizz_tests-zero_iff_example = frizz_tests-zero_iff hub 0

abbrev piece : List ℕ → Piece
piece t = record { text = t; at_end = false }

-- Two axes of the gyroscope and a sync, and the end of the file behind them.
abbrev short_log : List Piece
short_log =
    piece (bytes "0003 003c 00000001")
    ∷ piece (bytes "0003 003d 00000002")
    ∷ record { text = bytes "0000 0000 00000000"; at_end = true }
    ∷ []

main-zero_iff_example :
    ((Events.main gyroscope 2 (some short_log) ≡ pos 0) ↔ (
      (ts : List (List ℕ)) × (lines_of 8 short_log ≡ some ts)
      × (every_known gyroscope ts ≡ true)
      × (number_of_syncs gyroscope ts ≤ 3)))
    × ((Events.main gyroscope 2 (some short_log) ≡ pos 0)
        ⊎ (Events.main gyroscope 2 (some short_log) ≡ negsuc 0))
main-zero_iff_example = main-zero_iff gyroscope short_log (unfold is_prefix in refl)

-- "$GPR" comes from the port, the rest of `buf` is 0, and the last write fails.
test_gps-Switched_example :
    Switched true
      (negsuc 0)
      (test_gps true true (pos 2) (pos 2) (negsuc 0) (some (bytes "$GPR")) (λ a. 0))
test_gps-Switched_example =
    test_gps-Switched true true (pos 2) (pos 2) (negsuc 0) (some (bytes "$GPR")) (λ a. 0)
