-- ===== src/Hci/Refused.antt =====
-- Options that test_bluetooth.c refuses.
use test_tools.Common.{
  ℕ, ◌<◌, ◌≡◌, refl, true, false, Option, none, List, [], ◌∷◌, ◌++◌, ◌==◌, length, arith, ◌∙◌,
  Bool-cases, inl, inr,
}
use test_tools.Common.Int.{ℤ, pos, ltb_ℤ}
use test_tools.Hci.Uart.{Port, done}
use test_tools.Hci.Options.{
  Settings, Parsed, exits, returns, parse_scopcm, parse_i2s, parse_tosleep,
}
use test_tools.Hci.Program.{CmdOption, scopcm, i2s, tosleep, parse_option, parse_cmd_line, main}

-- `parse_cmd_line` goes on behind an option as this does.
abbrev next : (Settings → Parsed) → Parsed → Parsed
next go (exits status) = exits status
next go (returns ret s) = elim (ret == 0) [ true ↦ go s | false ↦ returns 1 s ]

parse_cmd_line-next :
    (open_fd : List ℕ → ℤ) (speed : ℕ → ℕ) (o : CmdOption) (os : List CmdOption)
    (name : Option (List ℕ)) (s : Settings)
    → parse_cmd_line open_fd speed (o ∷ os) name s
      ≡ next (parse_cmd_line open_fd speed os name) (parse_option open_fd speed o s)
unfolding parse_cmd_line
parse_cmd_line-next open_fd speed o os name s = go (parse_option open_fd speed o s)
  where
    go :
        (r : Parsed)
        → elim r [
          | exits status ↦ exits status
          | returns ret s' ↦ elim (ret == 0) [
            | true ↦ parse_cmd_line open_fd speed os name s'
            | false ↦ returns 1 s'
          ]
        ]
          ≡ next (parse_cmd_line open_fd speed os name) r
    go (exits status) = refl
    go (returns ret s') = refl

next-accepted :
    (go : Settings → Parsed) (r : Parsed) (s1 : Settings)
    → next go r ≡ returns 0 s1
    → (s' : Settings) × (r ≡ returns 0 s') × (go s' ≡ returns 0 s1)
next-accepted go (exits status) s1 e = cc
next-accepted go (returns ret s') s1 e = elim (Bool-cases (ret == 0)) [
  | inl h ↦ (let z : ret ≡ 0 = ground arith in (s', rw z refl, rw (h, next) at e))
  | inr h ↦ absurd (let e' : returns 1 s' ≡ returns 0 s1 = rw (h, next) at e in cc)
]

-- Options that are accepted are gone through, whatever follows.
parse_cmd_line-append :
    (open_fd : List ℕ → ℤ) (speed : ℕ → ℕ) (os os' : List CmdOption) (name : Option (List ℕ))
    (s s1 : Settings)
    → parse_cmd_line open_fd speed os none s ≡ returns 0 s1
    → parse_cmd_line open_fd speed (os ++ os') name s ≡ parse_cmd_line open_fd speed os' name s1
parse_cmd_line-append open_fd speed [] os' name s s1 e =
    let h : s ≡ s1 = (unfold parse_cmd_line in cc) in rw h refl
parse_cmd_line-append open_fd speed (o ∷ os) os' name s s1 e =
    let (s', er, eg) =
      next-accepted (parse_cmd_line open_fd speed os none) (parse_option open_fd speed o s) s1
        (rw (parse_cmd_line-next open_fd speed o os none s) at e) in
    parse_cmd_line-next open_fd speed o (os ++ os') name s
    ∙ rw er (parse_cmd_line-append open_fd speed os os' name s' s1 eg)

main-refused :
    (open_fd : List ℕ → ℤ) (speed : ℕ → ℕ) (os os' : List CmdOption) (o : CmdOption)
    (name : Option (List ℕ)) (s s1 s2 : Settings) (u : Port)
    → parse_cmd_line open_fd speed os none s ≡ returns 0 s1
    → parse_option open_fd speed o s1 ≡ returns 1 s2
    → main open_fd speed (os ++ o ∷ os') name s u ≡ done (1, u)
unfolding main
main-refused open_fd speed os os' o name s s1 s2 u e eo =
    let h : parse_cmd_line open_fd speed (os ++ o ∷ os') name s ≡ returns 1 s2 =
      parse_cmd_line-append open_fd speed os (o ∷ os') name s s1 e
      ∙ parse_cmd_line-next open_fd speed o os' name s1
      ∙ rw eo refl in
    rw (h, main) refl

parse_scopcm-refused :
    (vs : List ℤ) (s : Settings) → length vs < 10 → parse_scopcm vs s ≡ returns 1 s
unfolding parse_scopcm
parse_scopcm-refused (p0 ∷ p1 ∷ p2 ∷ p3 ∷ p4 ∷ p5 ∷ p6 ∷ p7 ∷ p8 ∷ p9 ∷ rest) s l =
    absurd (omega arith)
parse_scopcm-refused vs s l = refl

parse_i2s-refused : (vs : List ℤ) (s : Settings) → length vs < 4 → parse_i2s vs s ≡ returns 1 s
unfolding parse_i2s
parse_i2s-refused (p0 ∷ p1 ∷ p2 ∷ p3 ∷ rest) s l = absurd (omega arith)
parse_i2s-refused vs s l = refl

-- Behind any options that are accepted and whatever follows, --scopcm with fewer than ten numbers,
-- --i2s with fewer than four, and --tosleep with a number that is not positive end the program with
-- the exit status 1, and nothing has been sent or read.
pub main-bad_option :
    (open_fd : List ℕ → ℤ) (speed : ℕ → ℕ) (os os' : List CmdOption) (name : Option (List ℕ))
    (s s1 : Settings) (u : Port) (vs ws : List ℤ) (v : ℤ)
    → parse_cmd_line open_fd speed os none s ≡ returns 0 s1
    → length vs < 10
    → length ws < 4
    → ltb_ℤ (pos 0) v ≡ false
    → (main open_fd speed (os ++ scopcm vs ∷ os') name s u ≡ done (1, u))
      × (main open_fd speed (os ++ i2s ws ∷ os') name s u ≡ done (1, u))
      × (main open_fd speed (os ++ tosleep v ∷ os') name s u ≡ done (1, u))
unfolding parse_option parse_tosleep
main-bad_option open_fd speed os os' name s s1 u vs ws v e nv nw h = (
  main-refused open_fd speed os os' (scopcm vs) name s s1 s1 u e (parse_scopcm-refused vs s1 nv),
  main-refused open_fd speed os os' (i2s ws) name s s1 s1 u e (parse_i2s-refused ws s1 nw),
  main-refused open_fd speed os os' (tosleep v) name s s1 (record s1 { tosleep = v }) u e
      (rw h refl),
)
