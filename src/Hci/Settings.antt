-- ===== src/Hci/Settings.antt =====
-- What the options of test_bluetooth.c put into the commands.
use test_tools.Common.{
  ◌⊎◌, ℕ, ◌+◌, ◌*◌, ◌/◌, ◌%◌, ◌^◌, ◌<◌, ◌≡◌, inl, inr, refl, Bool, true, false, List, [], ◌∷◌, ◌==◌,
  if◌then◌else◌, length, arith, ltb, ◌&&◌, Bool-cases, ap,
}
use test_tools.Common.Int.{pos}
use test_tools.Hci.Options.{
  Settings, returns, encode_baud_rate, baud_rates, validate_baudrate, parse_baudrate,
}

-- The rate that four bytes give, least significant first.
abbrev pub decode_rate : List ℕ → ℕ
decode_rate [] = 0
decode_rate (b ∷ bs) = b + decode_rate bs * 2 ^ 8

abbrev pub mem : ℕ → List ℕ → Bool
mem r [] = false
mem r (b ∷ bs) = if b == r then true else mem r bs

validate_baudrate_lem :
    (speed : ℕ → ℕ) (table : List ℕ) (rate value : ℕ)
    → validate_baudrate speed table (pos rate) value
      ≡ (if mem rate table then (1, speed rate) else (0, value))
unfolding validate_baudrate
validate_baudrate_lem speed [] rate value = refl
validate_baudrate_lem speed (b ∷ table) rate value = elim (Bool-cases (b == rate)) [
  | inl e ↦ rw e (let e' : b ≡ rate = ground arith in ap (λ r. (1, speed r)) e')
  | inr e ↦ rw e (validate_baudrate_lem speed table rate value)
]

abbrev in_range : List ℕ → Bool
in_range [] = true
in_range (b ∷ table) = ltb 0 b && ltb b (2 ^ 32) && in_range table

validate_baudrate-known :
    (table : List ℕ) (rate : ℕ)
    → in_range table ≡ true
    → mem rate table ≡ true
    → (0 < rate) × (rate < 2 ^ 32)
validate_baudrate-known [] rate a h = cc
validate_baudrate-known (b ∷ table) rate a h = elim (Bool-cases (b == rate)) [
  | inl e ↦ (ground arith, ground arith)
  | inr e ↦ validate_baudrate-known table rate (ground arith) (rw e at h)
]

-- What parse_baudrate puts into the command, and the speed of the port.
abbrev pub with_rate : ℕ → List ℕ → Settings → Settings
with_rate value cmd s = record s { termios_baudrate = value; hci_update_baud_rate = cmd }

-- If the rate is one of the table, parse_baudrate sets the speed of the port to its constant and
-- replaces the last four of the ten bytes of the command by the rate, least significant byte first;
-- it leaves everything as it is if the rate is not in the table. It returns 0 in both cases.
pub parse_baudrate_lem :
    (speed : ℕ → ℕ) (rate h0 h1 h2 h3 h4 h5 a b c d : ℕ) (s : Settings)
    → s.hci_update_baud_rate ≡ h0 ∷ h1 ∷ h2 ∷ h3 ∷ h4 ∷ h5 ∷ a ∷ b ∷ c ∷ d ∷ []
    → ((mem rate baud_rates ≡ true)
        × (bs : List ℕ) × (length bs ≡ 4)
        × (decode_rate bs ≡ rate)
        × (parse_baudrate speed (pos rate) s
            ≡ returns 0 (with_rate (speed rate) (h0 ∷ h1 ∷ h2 ∷ h3 ∷ h4 ∷ h5 ∷ bs) s)))
      ⊎ ((mem rate baud_rates ≡ false) × (parse_baudrate speed (pos rate) s ≡ returns 0 s))
unfolding parse_baudrate encode_baud_rate
parse_baudrate_lem speed rate h0 h1 h2 h3 h4 h5 a b c d s e =
    elim (Bool-cases (mem rate baud_rates)) [
      | inl h ↦
          let (l, l') = validate_baudrate-known baud_rates rate refl h in
          let ew : rate % 2 ^ 32 ≡ rate = omega arith in
          let ez : (rate == 0) ≡ false = ground arith in
          inl (
            h,
            rate % 2 ^ 8
                ∷ rate / 2 ^ 8 % 2 ^ 8
                ∷ rate / 2 ^ 16 % 2 ^ 8
                ∷ rate / 2 ^ 24 % 2 ^ 8
                ∷ [],
            refl,
            omega arith,
            rw (validate_baudrate_lem speed baud_rates rate s.termios_baudrate, h, ew, ez, e) refl,
          )
      | inr h ↦ inr (h, rw (validate_baudrate_lem speed baud_rates rate s.termios_baudrate, h) refl)
    ]
