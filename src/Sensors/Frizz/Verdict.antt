-- ===== src/Sensors/Frizz/Verdict.antt =====
-- When the tests of test_frizz.c return 0.
use test_tools.Common.{
  ℕ, zero, suc, ◌<◌, ◌≤◌, ◌≡◌, ◌≢◌, ◌↔◌, refl, true, false, ◌&&◌, List, [], ◌∷◌, ◌==◌,
  if◌then◌else◌, get_or, arith, subst, Bool-cases, inl, inr,
}
use test_tools.Common.Int.{ℤ, pos, negsuc, eqb_ℤ}
use test_tools.Sensors.Frizz.{
  SensorInfo, info_of, wiped, FwTest, try_loop, filled, sensor_test, frizz_gsensor_test,
  frizz_gyro_test, frizz_magent_test, CmdOption, Selected, selects, parse_options, none_selected,
  run_selected, main, run_if,
}

-- The data of a sensor that works: the first word is the header, the next `n` are not 0.
pub record IsGood (header n : ℕ) (ws : List ℕ) : Type 0 where
  pub first : get_or ws 0 0 ≡ header
  pub others : (k : ℕ) → 0 < k → k ≤ n → get_or ws k 0 ≢ 0

filled-true :
    (n : ℕ) (ws : List ℕ) → filled n ws ≡ true → (k : ℕ) → 0 < k → k ≤ n → get_or ws k 0 ≢ 0
filled-true zero ws e k l m = absurd (omega arith)
filled-true (suc n) ws e k l m = elim (Bool-cases (k == suc n)) [
  | inl same ↦ let at : k ≡ suc n = ground arith in rw at (ground arith)
  | inr other ↦ filled-true n ws (ground arith) k l (ground arith)
]

filled_of :
    (n : ℕ) (ws : List ℕ) → ((k : ℕ) → 0 < k → k ≤ n → get_or ws k 0 ≢ 0) → filled n ws ≡ true
filled_of zero ws h = refl
filled_of (suc n) ws h =
    let ih : filled n ws ≡ true = filled_of n ws (λ k l m. h k l (omega arith)) in
    let top : get_or ws (suc n) 0 ≢ 0 = h (suc n) (omega arith) (omega arith) in ground arith

verdict_iff :
    (header n : ℕ) (ws : List ℕ)
    → ((if (get_or ws 0 0 == header) && filled n ws then pos 0 else negsuc 18) ≡ pos 0)
      ↔ IsGood header n ws
verdict_iff header n ws = (
  λ e. record { first = ground arith; others = filled-true n ws (ground arith) },
  λ g. ground (arith, filled_of n ws g.others, g.first),
)

module _ {D : Type 0} (fw_test : FwTest D) where
  -- The answers of a number of calls, each with the structure of the one before, wiped.
  abbrev pub answers : ℕ → SensorInfo → D → List (ℤ × SensorInfo × D)
  answers zero i d = []
  answers (suc n) i d =
      fw_test (wiped i) d ∷ answers n (fw_test (wiped i) d).1 (fw_test (wiped i) d).2

  -- The first answer with the wanted count, else the last; `x` if there is none.
  abbrev pub chosen : ℤ → (ℤ × SensorInfo × D) → List (ℤ × SensorInfo × D) → ℤ × SensorInfo × D
  chosen wanted x [] = x
  chosen wanted x (a ∷ as') = if eqb_ℤ a.0 wanted then a else chosen wanted a as'

  try_loop-chosen :
      (n : ℕ) (wanted : ℤ) (x : ℤ × SensorInfo × D) (i : SensorInfo) (d : D)
      → try_loop fw_test n wanted i d ≡ chosen wanted x (answers (suc n) i d)
  unfolding try_loop
  try_loop-chosen zero wanted x i d = ground arith
  try_loop-chosen (suc n) wanted x i d = elim (Bool-cases (eqb_ℤ (fw_test (wiped i) d).0 wanted)) [
    | inl e ↦ rw e refl
    | inr e ↦ rw e (
        try_loop-chosen n wanted (fw_test (wiped i) d) (fw_test (wiped i) d).1
          (fw_test (wiped i) d).2)
  ]

  -- The data that a test looks at.
  pub final : ℕ → ℤ → D → List ℕ
  final id wanted d = (chosen wanted (pos 0, info_of id, d) (answers 5 (info_of id) d)).1.raw_data

  try_loop-final :
      (id : ℕ) (wanted : ℤ) (d : D)
      → (try_loop fw_test 4 wanted (info_of id) d).1.raw_data ≡ final id wanted d
  unfolding final
  try_loop-final id wanted d =
      rw (try_loop-chosen 4 wanted (pos 0, info_of id, d) (info_of id) d) refl

  sensor_test-zero_iff :
      (id : ℕ) (wanted : ℤ) (header n : ℕ) (d : D)
      → ((sensor_test fw_test id wanted header n d).0 ≡ pos 0) ↔ IsGood header n (final id wanted d)
  unfolding sensor_test
  sensor_test-zero_iff id wanted header n d =
      subst (λ ws. ((sensor_test fw_test id wanted header n d).0 ≡ pos 0) ↔ IsGood header n ws)
        (try_loop-final id wanted d)
        (verdict_iff header n (try_loop fw_test 4 wanted (info_of id) d).1.raw_data)

  -- Each of the three tests returns 0 exactly if the first word of the data is the header of its
  -- sensor and the words behind it, four or five, are not 0; the data are those of the first of at
  -- most five calls that returns the wanted count, and of the fifth call if none does.
  pub frizz_tests-zero_iff :
      (d : D)
      → (((frizz_gsensor_test fw_test d).0 ≡ pos 0) ↔ IsGood 0xff808004 4 (final 0x80 (pos 5) d))
        × (((frizz_gyro_test fw_test d).0 ≡ pos 0) ↔ IsGood 0xff808205 5 (final 0x82 (pos 6) d))
        × (((frizz_magent_test fw_test d).0 ≡ pos 0) ↔ IsGood 0xff808104 4 (final 0x81 (pos 5) d))
  unfolding frizz_gsensor_test frizz_gyro_test frizz_magent_test
  frizz_tests-zero_iff d = (
    sensor_test-zero_iff 0x80 (pos 5) 0xff808004 4 d,
    sensor_test-zero_iff 0x82 (pos 6) 0xff808205 5 d,
    sensor_test-zero_iff 0x81 (pos 5) 0xff808104 4 d,
  )

  -- With the device opened, `main` ends with the result of the last of the selected tests, in the
  -- order gsensor, gyro, magnet, and with 0 if none is selected: what the tests before it have
  -- returned is lost.
  pub main-last :
      (os : List CmdOption) (fd : ℕ) (s : Selected) (d : D)
      → parse_options os none_selected ≡ selects s
      → (s.has_magnet ≡ true
          → (d' : D) × (main fw_test os (pos fd) d ≡ frizz_magent_test fw_test d'))
        × (s.has_magnet ≡ false
            → s.has_gyro ≡ true
            → (d' : D) × (main fw_test os (pos fd) d ≡ frizz_gyro_test fw_test d'))
        × (s.has_magnet ≡ false
            → s.has_gyro ≡ false
            → s.has_gsensor ≡ true
            → main fw_test os (pos fd) d ≡ frizz_gsensor_test fw_test d)
        × (s.has_magnet ≡ false
            → s.has_gyro ≡ false
            → s.has_gsensor ≡ false
            → main fw_test os (pos fd) d ≡ (pos 0, d))
  unfolding main run_selected
  main-last os fd s d e =
      let run : main fw_test os (pos fd) d ≡ run_selected fw_test s d =
        rw (main, e) (ground arith) in
      let first = run_if fw_test s.has_gsensor (frizz_gsensor_test fw_test) (pos 0, d) in
      let second = run_if fw_test s.has_gyro (frizz_gyro_test fw_test) first in
      (
        λ m. (second.1, rw (run, m) refl),
        λ m g. (first.1, rw (run, m, g) refl),
        λ m g a. rw (run, m, g, a) refl,
        λ m g a. rw (run, m, g, a) refl,
      )
