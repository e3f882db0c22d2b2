-- ===== src/Sensors/Current/Decided.antt =====
-- Which reading decides the test of the current.
use test_tools.Common.{
  ℕ, ◌<◌, ◌≡◌, ◌≢◌, Bool, true, false, ◌&&◌, ◌||◌, some, List, [], ◌∷◌, ◌++◌, arith, if◌then◌else◌,
  All, ltb, Bool-cases, inl, inr,
}
use test_tools.Common.Int.{ℤ, pos, negsuc, ltb_ℤ, eqb_ℤ}
use test_tools.Sensors.Current.{
  Picture, standard_current, current_test, stop_charge, current_success, current_fail, charges,
  current_loop, test_current,
}

-- A reading that does not end the loop.
abbrev pub waits : ℤ → Bool
waits ret = ltb_ℤ ret (pos 1) || eqb_ℤ ret (pos 100)

-- Some reading is not positive.
abbrev pub charging : List ℤ → Bool
charging [] = false
charging (r ∷ rs) = ltb_ℤ r (pos 1) || charging rs

goes_on :
    (w : ℤ)
    → waits w ≡ true
    → ((ltb_ℤ (pos 0) w && ltb_ℤ w (pos standard_current)) ≡ false)
      × (ltb_ℤ (pos standard_current) w ≡ false)
goes_on (pos n) h = (ground arith, ground arith)
goes_on (negsuc n) h = (ground arith, ground arith)

-- Once the battery is known to be charged, the other readings show nothing.
charged :
    (ws : List ℤ) (n : ℕ) (rets : List ℤ) (shown : List Picture)
    → All (λ r. waits r ≡ true) ws
    → 0 < n
    → n ≢ 100
    → current_loop (ws ++ pos n ∷ rets) (negsuc 0) shown
      ≡ some (if ltb n 100 then pos 0 else pos 1, shown)
unfolding current_loop
charged [] n rets shown a l ne = ground arith
charged (w ∷ ws) n rets shown (h, a) l ne =
    let (e, e') = goes_on w h in
    let quiet : charges w (negsuc 0) ≡ false = ground arith in
    rw (e, e', quiet) (charged ws n rets shown a l ne)

uncharged :
    (ws : List ℤ) (n : ℕ) (rets : List ℤ) (shown : List Picture)
    → All (λ r. waits r ≡ true) ws
    → 0 < n
    → n ≢ 100
    → current_loop (ws ++ pos n ∷ rets) (pos 0) shown
      ≡ some (
        if ltb n 100 then pos 0 else pos 1,
        if charging ws then shown ++ stop_charge ∷ [] else shown,
      )
unfolding current_loop
uncharged [] n rets shown a l ne = ground arith
uncharged (w ∷ ws) n rets shown (h, a) l ne =
    let (e, e') = goes_on w h in
    elim (Bool-cases (ltb_ℤ w (pos 1))) [
      | inl low ↦
          let told : charges w (pos 0) ≡ true = ground arith in
          rw (e, e', told, low) (charged ws n rets (shown ++ stop_charge ∷ []) a l ne)
      | inr high ↦
          let quiet : charges w (pos 0) ≡ false = ground arith in
          rw (e, e', quiet, high) (uncharged ws n rets shown a l ne)
    ]

-- The first reading that is positive and not 100 decides, whatever follows: the exit status is 0 below
-- 100 and 1 above; and a picture asks once to stop the charging, exactly if a reading before it was
-- not positive.
pub test_current-decided :
    (ws : List ℤ) (n : ℕ) (rets : List ℤ)
    → All (λ r. waits r ≡ true) ws
    → 0 < n
    → n ≢ 100
    → let asks = if charging ws then current_test ∷ stop_charge ∷ [] else current_test ∷ [] in
      test_current (ws ++ pos n ∷ rets)
      ≡ some (
          if ltb n 100
          then (pos 0, asks ++ current_success ∷ [])
          else (pos 1, asks ++ current_fail ∷ []))
unfolding test_current
test_current-decided ws n rets a l ne =
    rw (test_current, uncharged ws n rets (current_test ∷ []) a l ne) (ground arith)
