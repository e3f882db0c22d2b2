-- ===== src/Sensors/Pah8001/Judgement.antt =====
-- What the tests of test_pah8001.c conclude from the readings, and that they end.
use test_tools.Common.{
  ℕ, zero, suc, ◌+◌, ◌*◌, ◌^◌, ◌<◌, ◌≤◌, ◌≡◌, refl, ◌↔◌, Option, some, ltb, arith, Bool-cases, inl,
  inr, if◌then◌else◌,
}
use test_tools.Common.Int.{ℤ, pos, negsuc}
use test_tools.Sensors.Pah8001.{
  Pah8001Reg, reg_at, Driver, times_ten, fails, check_mechanical_assembly, check_frame_average,
}
use test_tools.Sensors.Pah8001.Readings.{sixes, sample, assembly_loop-sample, frame_loop-sample}

-- A number that the driver keeps of the readings made.
pub record IsCounter {ℓ} {D : Type ℓ} (drv : Driver D) (made : D → ℕ) : Type ℓ where
  pub of_get : (reg : Pah8001Reg) (d : D) → made (drv.test_get reg d).2 ≡ suc (made d)
  pub of_start : (v : ℕ) (d : D) → made (drv.test_start v d).1 ≡ made d
  pub of_end : (d : D) → made (drv.test_end d).1 ≡ made d

-- The number that `timeout *= 10` leaves for a time of at least 0.
times_ten_lem : (t : ℕ) → t * 10 < 2 ^ 31 → times_ten (pos t) ≡ some (pos (t * 10))
unfolding times_ten
times_ten_lem t lt = ground arith

module _ {ℓ} {D : Type ℓ} (err err' err'' : ℤ) (count : ℕ) (d1 d2 d3 : D) where
  -- The result and the driver, from the three steps of a test and the number of sixes.
  abbrev assembly_verdict : ℤ × D
  assembly_verdict =
      if fails err
      then (err, d1)
      else if fails err'
      then (err', d2)
      else if fails err''
      then (err'', d3)
      else (if ltb 5 count then pos 0 else negsuc 13, d3)

  abbrev frame_verdict : ℤ × D
  frame_verdict = if fails err then (err, d1) else if fails err'' then (err'', d3) else (pos 0, d3)

  assembly_passed :
      (o : Option (ℤ × D))
      → o ≡ some assembly_verdict
      → ((d' : D) × (o ≡ some (pos 0, d')))
        ↔ ((err ≡ pos 0) × (err' ≡ pos 0) × (err'' ≡ pos 0) × (5 < count))
  assembly_passed o run = (λ (d', e). ground arith, λ (e, e', e'', l). (d3, ground arith))

  frame_passed :
      (o : Option (ℤ × D))
      → o ≡ some frame_verdict
      → ((d' : D) × (o ≡ some (pos 0, d'))) ↔ ((err ≡ pos 0) × (err'' ≡ pos 0))
  frame_passed o run = (λ (d', e). ground arith, λ (e, e'). (d3, ground arith))

  ended :
      (made : D → ℕ) (n : ℕ)
      → made d1 ≤ n
      → made d2 ≤ n
      → made d3 ≤ n
      → (made assembly_verdict.1 ≤ n) × (made frame_verdict.1 ≤ n)
  ended made n l1 l2 l3 = (ground arith, ground arith)

module _ {ℓ} {D : Type ℓ} (drv : Driver D) where
  made-sample :
      (made : D → ℕ) (c : IsCounter drv made) (n : ℕ) (reg : Pah8001Reg) (d : D)
      → made (sample drv n reg d).2 ≤ made d + n
  unfolding sample
  made-sample made c zero reg d = omega arith
  made-sample made c (suc n) reg d =
      let (err, reg', d') = drv.test_get reg d in
      let ih = made-sample made c n reg' d' in
      elim (Bool-cases (fails err)) [
        | inl e ↦ rw e (omega (arith, c.of_get reg d))
        | inr e ↦ rw e (omega (arith, c.of_get reg d))
      ]

  -- The first test, on what the readings give.
  assembly_lem :
      (k garbage t : ℕ) (d : D)
      → t * 10 < 2 ^ 31
      → t * 10 < k
      → let (err, d1) = drv.test_start 1 d in
        let (vs, err', d2) = sample drv (suc (t * 10)) (reg_at 0 8 garbage) d1 in
        let (err'', d3) = drv.test_end d2 in
        check_mechanical_assembly drv k garbage (pos t) d
        ≡ some (assembly_verdict err err' err'' (sixes vs) d1 d2 d3)
  unfolding check_mechanical_assembly
  assembly_lem k garbage t d small fuel =
      let (err, d1) = drv.test_start 1 d in
      rw
        (
          times_ten_lem t small,
          assembly_loop-sample drv k (t * 10) 0 (pos (t * 10)) (reg_at 0 8 garbage) d1 refl fuel,
        )
        (ground arith)

  frame_lem :
      (k garbage t : ℕ) (d : D)
      → t * 10 < 2 ^ 31
      → t * 10 < k
      → let (err, d1) = drv.test_start 2 d in
        let (vs, err', d2) = sample drv (suc (t * 10)) (reg_at 1 0x1b garbage) d1 in
        let (err'', d3) = drv.test_end d2 in
        check_frame_average drv k garbage (pos t) d
        ≡ some (frame_verdict err (pos 0) err'' 0 d1 d2 d3)
  unfolding check_frame_average
  frame_lem k garbage t d small fuel =
      let (err, d1) = drv.test_start 2 d in
      rw
        (
          times_ten_lem t small,
          frame_loop-sample drv k (t * 10) (pos (t * 10)) (reg_at 1 0x1b garbage) d1 refl fuel,
        )
        (ground arith)

  -- If `made` counts the readings, both tests end with fuel for ten readings a second and one more,
  -- for a time in seconds that ten times fit in an `int`, and they make no more readings than that,
  -- whatever the driver answers.
  pub check-Ends :
      (made : D → ℕ) (k garbage t : ℕ) (d : D)
      → IsCounter drv made
      → t * 10 < 2 ^ 31
      → t * 10 < k
      → ((r : ℤ) × (d' : D) × (check_mechanical_assembly drv k garbage (pos t) d ≡ some (r, d'))
          × (made d' ≤ made d + (t * 10 + 1)))
        × ((r : ℤ) × (d' : D) × (check_frame_average drv k garbage (pos t) d ≡ some (r, d'))
            × (made d' ≤ made d + (t * 10 + 1)))
  check-Ends made k garbage t d c small fuel =
      let n = made d + (t * 10 + 1) in
      let (err, d1) = drv.test_start 1 d in
      let (err2, e1) = drv.test_start 2 d in
      let (vs, err', d2) = sample drv (suc (t * 10)) (reg_at 0 8 garbage) d1 in
      let (ws, lost, e2) = sample drv (suc (t * 10)) (reg_at 1 0x1b garbage) e1 in
      let (err'', d3) = drv.test_end d2 in
      let (err2'', e3) = drv.test_end e2 in
      let started : made d1 ≡ made d = c.of_start 1 d in
      let started' : made e1 ≡ made d = c.of_start 2 d in
      let read = made-sample made c (suc (t * 10)) (reg_at 0 8 garbage) d1 in
      let read' = made-sample made c (suc (t * 10)) (reg_at 1 0x1b garbage) e1 in
      let stopped : made d3 ≡ made d2 = c.of_end d2 in
      let stopped' : made e3 ≡ made e2 = c.of_end e2 in
      (
        (
          _,
          _,
          assembly_lem k garbage t d small fuel,
          (ended err err' err'' (sixes vs) d1 d2 d3 made n (omega arith) (omega arith)
              (omega arith)).0,
        ),
        (
          _,
          _,
          frame_lem k garbage t d small fuel,
          (ended err2 (pos 0) err2'' 0 e1 e2 e3 made n (omega arith) (omega arith) (omega arith)).1,
        ),
      )

  -- For a time of `t` seconds that ten times fit in an `int`, and fuel above ten times the time: the
  -- first test returns 0 exactly if the driver lets it start and end, all `10 t + 1` readings succeed
  -- and more than five of them have the low bits 6; the second returns 0 exactly if the driver lets it
  -- start and end, whatever the readings were.
  pub check-zero_iff :
      (k garbage t : ℕ) (d : D)
      → t * 10 < 2 ^ 31
      → t * 10 < k
      → let (err, d1) = drv.test_start 1 d in
        let (vs, err', d2) = sample drv (suc (t * 10)) (reg_at 0 8 garbage) d1 in
        let (err2, e1) = drv.test_start 2 d in
        let (ws, lost, e2) = sample drv (suc (t * 10)) (reg_at 1 0x1b garbage) e1 in
        (((d' : D) × (check_mechanical_assembly drv k garbage (pos t) d ≡ some (pos 0, d')))
          ↔ ((err ≡ pos 0) × (err' ≡ pos 0) × ((drv.test_end d2).0 ≡ pos 0) × (5 < sixes vs)))
        × (((d' : D) × (check_frame_average drv k garbage (pos t) d ≡ some (pos 0, d')))
            ↔ ((err2 ≡ pos 0) × ((drv.test_end e2).0 ≡ pos 0)))
  check-zero_iff k garbage t d small fuel =
      let (err, d1) = drv.test_start 1 d in
      let (vs, err', d2) = sample drv (suc (t * 10)) (reg_at 0 8 garbage) d1 in
      let (err2, e1) = drv.test_start 2 d in
      let (ws, lost, e2) = sample drv (suc (t * 10)) (reg_at 1 0x1b garbage) e1 in
      (
        assembly_passed err err' (drv.test_end d2).0 (sixes vs) d1 d2 (drv.test_end d2).1 _
            (assembly_lem k garbage t d small fuel),
        frame_passed err2 (pos 0) (drv.test_end e2).0 0 e1 e2 (drv.test_end e2).1 _
            (frame_lem k garbage t d small fuel),
      )
