-- ===== src/Sensors/Pah8001/Readings.antt =====
-- The readings that the two tests make, and that the tests end.
use test_tools.Common.{
  ℕ, zero, suc, ◌+◌, ◌%◌, ◌<◌, ◌≡◌, refl, true, false, some, List, [], ◌∷◌, ◌==◌, if◌then◌else◌,
  arith, ◌∙◌, Bool-cases, inl, inr,
}
use test_tools.Common.Int.{ℤ, pos, negsuc, pos_part}
use test_tools.Sensors.Pah8001.{Pah8001Reg, Driver, fails, assembly_loop, frame_loop}

-- The number of values with the low bits 6.
abbrev pub sixes : List ℕ → ℕ
sixes [] = 0
sixes (v ∷ vs) = if v % 8 == 6 then suc (sixes vs) else sixes vs

module _ {ℓ} {D : Type ℓ} (drv : Driver D) where
  -- At most `n` readings: the values before the first error, that error or 0, and the driver.
  unfoldable pub sample : ℕ → Pah8001Reg → D → List ℕ × ℤ × D
  sample zero reg d = ([], pos 0, d)
  sample (suc n) reg d =
      let (err, reg', d') = drv.test_get reg d in
      let (vs, e, d'') = sample n reg' d' in
      if fails err then ([], err, d') else (reg'.reg_val ∷ vs, e, d'')

  -- What the readings of `n + 1` turns leave, in a turn that fails and in one that does not.
  sample-fails :
      (n : ℕ) (reg : Pah8001Reg) (d : D)
      → fails (drv.test_get reg d).0 ≡ true
      → sample (suc n) reg d ≡ ([], (drv.test_get reg d).0, (drv.test_get reg d).2)
  unfolding sample
  sample-fails n reg d e = rw (sample, e) refl

  sample-goes_on :
      (n : ℕ) (reg : Pah8001Reg) (d : D)
      → fails (drv.test_get reg d).0 ≡ false
      → let (err, reg', d') = drv.test_get reg d in
        let (vs, e, d'') = sample n reg' d' in sample (suc n) reg d ≡ (reg'.reg_val ∷ vs, e, d'')
  unfolding sample
  sample-goes_on n reg d e = rw (sample, e) refl

  assembly_loop-fails :
      (k count : ℕ) (timeout : ℤ) (reg : Pah8001Reg) (d : D)
      → fails (drv.test_get reg d).0 ≡ true
      → assembly_loop drv (suc k) timeout count reg d
        ≡ some ((drv.test_get reg d).0, count, (drv.test_get reg d).2)
  unfolding assembly_loop
  assembly_loop-fails k count timeout reg d e = rw e refl

  abbrev count_six : ℕ → ℕ → ℕ
  count_six v count = if v % 8 == 6 then count + 1 else count

  assembly_loop-last :
      (k count : ℕ) (timeout : ℤ) (reg : Pah8001Reg) (d : D)
      → pos_part timeout ≡ 0
      → fails (drv.test_get reg d).0 ≡ false
      → let (err, reg', d') = drv.test_get reg d in
        assembly_loop drv (suc k) timeout count reg d
        ≡ some (pos 0, count_six reg'.reg_val count, d')
  unfolding assembly_loop
  assembly_loop-last k count (pos n) reg d z e = rw (z, e) refl
  assembly_loop-last k count (negsuc n) reg d z e = rw e (ground arith)

  assembly_loop-next :
      (k n count : ℕ) (reg : Pah8001Reg) (d : D)
      → fails (drv.test_get reg d).0 ≡ false
      → let (err, reg', d') = drv.test_get reg d in
        assembly_loop drv (suc k) (pos (suc n)) count reg d
        ≡ assembly_loop drv k (pos n) (count_six reg'.reg_val count) reg' d'
  unfolding assembly_loop
  assembly_loop-next k n count reg d e = rw e (ground arith)

  count_six-sixes :
      (v count : ℕ) (vs : List ℕ) → count_six v count + sixes vs ≡ count + sixes (v ∷ vs)
  count_six-sixes v count vs = ground arith

  -- With fuel for the turns, the loop with `timeout` at `n` makes up to `n + 1` readings, or one if it
  -- is negative, and counts the sixes.
  pub assembly_loop-sample :
      (k n count : ℕ) (timeout : ℤ) (reg : Pah8001Reg) (d : D)
      → pos_part timeout ≡ n
      → n < k
      → let (vs, e, d') = sample (suc n) reg d in
        assembly_loop drv k timeout count reg d ≡ some (e, count + sixes vs, d')
  assembly_loop-sample zero n count timeout reg d z lt = absurd (omega arith)
  assembly_loop-sample (suc k) zero count timeout reg d z lt =
      elim (Bool-cases (fails (drv.test_get reg d).0)) [
        | inl e ↦
            rw (sample-fails 0 reg d e, assembly_loop-fails k count timeout reg d e) (ground arith)
        | inr e ↦
            rw (sample-goes_on 0 reg d e, assembly_loop-last k count timeout reg d z e)
              (unfold sample in ground arith)
      ]
  assembly_loop-sample (suc k) (suc n) count (negsuc t) reg d z lt = absurd (omega (arith, z))
  assembly_loop-sample (suc k) (suc n) count (pos zero) reg d z lt = absurd (omega (arith, z))
  assembly_loop-sample (suc k) (suc n) count (pos (suc t)) reg d z lt =
      elim (Bool-cases (fails (drv.test_get reg d).0)) [
        | inl e ↦
            rw (sample-fails (suc n) reg d e, assembly_loop-fails k count (pos (suc t)) reg d e)
              (ground arith)
        | inr e ↦
            let (err, reg', d') = drv.test_get reg d in
            let ih =
              assembly_loop-sample k n (count_six reg'.reg_val count) (pos t) reg' d' (omega arith)
                (omega arith) in
            rw (sample-goes_on (suc n) reg d e, assembly_loop-next k t count reg d e, ih)
              (rw (count_six-sixes reg'.reg_val count (sample (suc n) reg' d').0) refl)
      ]

  frame_loop-turn :
      (k : ℕ) (timeout : ℤ) (reg : Pah8001Reg) (d : D)
      → (fails (drv.test_get reg d).0 ≡ true
          → frame_loop drv (suc k) timeout reg d ≡ some (drv.test_get reg d).2)
        × (fails (drv.test_get reg d).0 ≡ false
            → pos_part timeout ≡ 0
            → frame_loop drv (suc k) timeout reg d ≡ some (drv.test_get reg d).2)
  unfolding frame_loop
  frame_loop-turn k (pos n) reg d = (λ e. rw e refl, λ e z. rw (e, z) refl)
  frame_loop-turn k (negsuc n) reg d = (λ e. rw e refl, λ e z. rw e (ground arith))

  frame_loop-next :
      (k n : ℕ) (reg : Pah8001Reg) (d : D)
      → fails (drv.test_get reg d).0 ≡ false
      → let (err, reg', d') = drv.test_get reg d in
        frame_loop drv (suc k) (pos (suc n)) reg d ≡ frame_loop drv k (pos n) reg' d'
  unfolding frame_loop
  frame_loop-next k n reg d e = rw e (ground arith)

  pub frame_loop-sample :
      (k n : ℕ) (timeout : ℤ) (reg : Pah8001Reg) (d : D)
      → pos_part timeout ≡ n
      → n < k
      → frame_loop drv k timeout reg d ≡ some (sample (suc n) reg d).2
  frame_loop-sample zero n timeout reg d z lt = absurd (omega arith)
  frame_loop-sample (suc k) zero timeout reg d z lt =
      elim (Bool-cases (fails (drv.test_get reg d).0)) [
        | inl e ↦ rw (sample-fails 0 reg d e) ((frame_loop-turn k timeout reg d).0 e)
        | inr e ↦
            rw (sample-goes_on 0 reg d e)
              ((frame_loop-turn k timeout reg d).1 e z ∙ (unfold sample in refl))
      ]
  frame_loop-sample (suc k) (suc n) (negsuc t) reg d z lt = absurd (omega (arith, z))
  frame_loop-sample (suc k) (suc n) (pos zero) reg d z lt = absurd (omega (arith, z))
  frame_loop-sample (suc k) (suc n) (pos (suc t)) reg d z lt =
      elim (Bool-cases (fails (drv.test_get reg d).0)) [
        | inl e ↦ rw (sample-fails (suc n) reg d e) ((frame_loop-turn k (pos (suc t)) reg d).0 e)
        | inr e ↦
            let (err, reg', d') = drv.test_get reg d in
            rw (sample-goes_on (suc n) reg d e) (
              frame_loop-next k t reg d e
              ∙ frame_loop-sample k n (pos t) reg' d' (omega arith) (omega arith))
      ]
