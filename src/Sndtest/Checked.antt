-- ===== src/Sndtest/Checked.antt =====
-- What check_arg lets through.
use test_tools.Common.{
  ℕ, ◌<◌, ◌≡◌, refl, subst, Bool, true, false, ◌&&◌, ◌||◌, not, List, [], ◌∷◌, arith, if◌then◌else◌,
}
use test_tools.Common.Int.{ℤ, pos, negsuc, ltb_ℤ}
use test_tools.Sndtest.Options.{
  RunParams, init_params, Outcome, refused, overran, well, Locals, unset, take_pair, take_pairs,
  given, adopt, check_arg,
}

-- Exactly one of the two modes is on, and the time is not 0.
pub record Valid (p : RunParams) : Type 0 where
  pub one : (p.replay_enable || p.record_enable) ≡ true
  pub alone : (p.replay_enable && p.record_enable) ≡ false
  pub lasts : 0 < p.second

-- The options leave the time to the end.
record Timed (o : Outcome (Locals × RunParams)) : Type 0 where
  holds : (s : Locals × RunParams) → o ≡ well s → 0 < s.1.second

Timed-some : (l : Locals) (p : RunParams) → 0 < p.second → Timed (well (l, p))
Timed-some l p h = record {
  holds = λ s e. subst (λ (o : Outcome (Locals × RunParams)). time o) e h;
}
  where
    time : Outcome (Locals × RunParams) → Type 0
    time refused = Unit
    time overran = Unit
    time (well (l, p)) = 0 < p.second

Timed-refused : Timed refused
Timed-refused = record { holds = λ s e. absurd (ground arith) }

Timed-overran : Timed overran
Timed-overran = record { holds = λ s e. absurd (ground arith) }

Timed-if :
    (b : Bool) (x y : Outcome (Locals × RunParams)) → Timed x → Timed y → Timed (if b then x else y)
Timed-if true x y h k = h
Timed-if false x y h k = k

take_pair-Timed :
    (atoi : List ℕ → ℤ) (arg val : List ℕ) (l : Locals) (p : RunParams)
    → 0 < p.second
    → Timed (take_pair atoi arg val (l, p))
unfolding take_pair
take_pair-Timed atoi arg val l p h = record { holds = λ s e. ground arith }

take_pairs-Timed :
    (atoi : List ℕ → ℤ) (args : List (List ℕ)) (s : Locals × RunParams)
    → 0 < s.1.second
    → Timed (take_pairs atoi args s)
unfolding take_pairs
take_pairs-Timed atoi [] s h = Timed-some s.0 s.1 h
take_pairs-Timed atoi (arg ∷ []) s h = Timed-refused
take_pairs-Timed atoi (arg ∷ val ∷ args) s h =
    go (take_pair atoi arg val s) (take_pair-Timed atoi arg val s.0 s.1 h)
      (λ s'. take_pairs-Timed atoi args s')
  where
    go :
        (r : Outcome (Locals × RunParams))
        → Timed r
        → ((s' : Locals × RunParams) → 0 < s'.1.second → Timed (take_pairs atoi args s'))
        → Timed
            (elim r [ refused ↦ refused | overran ↦ overran | well s' ↦ take_pairs atoi args s' ])
    go refused t ih = Timed-refused
    go overran t ih = Timed-overran
    go (well s') t ih = ih s' (t.holds s' refl)

adopt-second : (l : Locals) (p : RunParams) → 0 < p.second → 0 < (adopt l p).second
unfolding adopt
adopt-second l p h = go l.second
  where
    go : (n : ℤ) → 0 < (if ltb_ℤ (pos 0) n then given n p.second else p.second)
    go (pos n) = ground arith
    go (negsuc n) = ground arith

only_one :
    (a b : Bool) (q p : RunParams)
    → (if a && b then refused else if not (a || b) then refused else well q) ≡ well p
    → ((a || b) ≡ true) × ((a && b) ≡ false) × (q ≡ p)
only_one true true q p e = absurd (ground arith)
only_one false false q p e = absurd (ground arith)
only_one true false q p e = (refl, refl, ground arith)
only_one false true q p e = (refl, refl, ground arith)

-- Whatever the arguments, if check_arg returns 0 and has copied no name of more than 126 bytes to the 127
-- bytes of its buffer, then exactly one of the two modes is on and the time is not 0.
pub check_arg-Valid :
    (atoi : List ℕ → ℤ) (args : List (List ℕ)) (p : RunParams)
    → check_arg atoi args init_params ≡ well p
    → Valid p
unfolding check_arg
check_arg-Valid atoi [] p e = absurd (ground arith)
check_arg-Valid atoi (arg ∷ args) p e =
    go (take_pairs atoi (arg ∷ args) (unset, init_params))
      (take_pairs-Timed atoi (arg ∷ args) (unset, init_params) (unfold init_params in omega arith))
      e
  where
    checked : Outcome (Locals × RunParams) → Outcome RunParams
    checked r = elim r [
      | refused ↦ refused
      | overran ↦ overran
      | well (l, p') ↦
          if p'.replay_enable && p'.record_enable
          then refused
          else if not (p'.replay_enable || p'.record_enable)
          then refused
          else well (adopt l p')
    ]

    go : (r : Outcome (Locals × RunParams)) → Timed r → checked r ≡ well p → Valid p
    go refused t e = absurd (ground arith)
    go overran t e = absurd (ground arith)
    go (well (l, p')) t e =
        let (one, alone, same) = only_one p'.replay_enable p'.record_enable (adopt l p') p e in
        subst Valid same (record {
          one = unfold adopt in one;
          alone = unfold adopt in alone;
          lasts = adopt-second l p' (t.holds (l, p') refl);
        })
