-- ===== src/Sndkit/Device.antt =====
-- The name of the device that `main` opens after -D.
use test_tools.Common.{
  ℕ, zero, suc, ◌≤◌, ◌≡◌, ◌≢◌, refl, Bool, true, false, ◌&&◌, not, List, [], ◌∷◌, ◌++◌, arith, ◌==◌,
  ltb, ==_of_ne, if◌then◌else◌, length, drop, drop-append, append_assoc, All, ◌∙◌, sym, ap, subst,
  inl,
}
use test_tools.Sndkit.Io.{Sink, End}
use test_tools.Sndkit.Options.{
  CmdOption, device, Settings, initial, default_snd_dev, strncpy, c_string, Parsed, exits, goes_on,
  parse_option, parse_options,
}
use test_tools.Sndkit.Program.{World, Done, conversion, run, main}
use test_tools.Sndkit.Keeps.{Other, Keeps, parse_options-Keeps}
use test_tools.Sndkit.Opened.{Opens, run-Opens}

-- A name has no zero byte.
abbrev pub NoZero : List ℕ → Type 0
NoZero text = All (λ b. b ≢ 0) text

pub c_string-append : (text rest : List ℕ) → NoZero text → c_string (text ++ 0 ∷ rest) ≡ text
unfolding c_string
c_string-append [] rest h = refl
c_string-append (b ∷ bs) rest h = rw (==_of_ne b 0 h.0, c_string-append bs rest h.1) refl

-- The test of `NoZero`.
abbrev pub nonzero : List ℕ → Bool
nonzero [] = true
nonzero (b ∷ bs) = not (b == 0) && nonzero bs

pub nonzero-NoZero : (l : List ℕ) → nonzero l ≡ true → NoZero l
nonzero-NoZero [] e = tt
nonzero-NoZero (b ∷ bs) e = (λ z. ground arith, nonzero-NoZero bs (ground arith))

NoZero-append : (xs ys : List ℕ) → NoZero xs → NoZero ys → NoZero (xs ++ ys)
NoZero-append [] ys h k = k
NoZero-append (x ∷ xs) ys h k = (h.0, NoZero-append xs ys h.1 k)

NoZero-drop : (n : ℕ) (xs : List ℕ) → NoZero xs → NoZero (drop n xs)
NoZero-drop zero xs h = h
NoZero-drop (suc n) [] h = tt
NoZero-drop (suc n) (x ∷ xs) h = NoZero-drop n xs h.1

-- The name that the device has after -D with a name of at most 12 bytes: the rest of the default name
-- stands behind it.
abbrev pub overlaid : List ℕ → List ℕ
overlaid name = name ++ drop (length name) default_snd_dev

c_string-overlaid :
    (name garbage : List ℕ)
    → NoZero name
    → length name ≤ 12
    → c_string (strncpy (default_snd_dev ++ 0 ∷ garbage) name) ≡ overlaid name
c_string-overlaid name garbage h l =
    let tail = drop (length name) default_snd_dev in
    ap (λ r. c_string (name ++ r)) (drop-append (length name) default_snd_dev (0 ∷ garbage) l)
    ∙ ap c_string (sym (append_assoc name tail (0 ∷ garbage)))
    ∙ c_string-append (overlaid name) garbage (
        NoZero-append name tail h
          (NoZero-drop (length name) default_snd_dev (nonzero-NoZero default_snd_dev refl)))

if-Opens :
    (a b : Bool) (name : List ℕ) (x y : End × Sink) (z : Done)
    → Opens name z
    → Opens name (if a then conversion x else if b then conversion y else z)
if-Opens true b name x y z h = inl refl
if-Opens false true name x y z h = inl refl
if-Opens false false name x y z h = h

main-Opens :
    (w : World) (garbage : List ℕ) (options : List CmdOption) (name : List ℕ) (r : Parsed)
    → parse_options options (initial garbage) ≡ r
    → ((s : Settings) → r ≡ goes_on s → c_string s.snd_dev ≡ name)
    → Opens name (main w garbage options)
unfolding main
main-Opens w garbage options name (exits code) e k = rw (e, main) (inl refl)
main-Opens w garbage options name (goes_on s) e k =
    rw (e, main)
      (if-Opens s.convert_raw_to_wav s.is_strip_wav name _ _ (run w s)
        (subst (λ n. Opens n (run w s)) (k s refl) (run-Opens w s)))

Keeps-goes_on : (s s' : Settings) (r : Parsed) → Keeps s r → r ≡ goes_on s' → s'.snd_dev ≡ s.snd_dev
Keeps-goes_on s s' r k e = subst (Keeps s) e k

-- If the first option is -D with a name of at most 12 bytes, none of them 0, and no other option is -D,
-- then `main` opens no device or the one whose name is the given name with the rest of "/dev/snd/dsp"
-- behind it: not the one that was asked for, unless the name is of the same length.
pub main-device :
    (w : World) (garbage name : List ℕ) (options : List CmdOption)
    → NoZero name
    → length name ≤ 12
    → All Other options
    → Opens (overlaid name) (main w garbage (device name ∷ options))
main-device w garbage name options h l o =
    let s1 = record (initial garbage) { snd_dev = strncpy (default_snd_dev ++ 0 ∷ garbage) name } in
    let f : ltb 127 (length name) ≡ false = ground arith in
    let e : parse_options (device name ∷ options) (initial garbage) ≡ parse_options options s1 =
      unfold parse_options parse_option initial in rw (parse_options, parse_option, f) refl in
    main-Opens w garbage (device name ∷ options) (overlaid name) (parse_options options s1) e
      (λ s es.
        ap c_string
          (Keeps-goes_on s1 s (parse_options options s1) (parse_options-Keeps options s1 o) es)
        ∙ c_string-overlaid name garbage h l)
