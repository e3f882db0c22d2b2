-- ===== src/Hci/Frames.antt =====
-- The options keep the commands of test_bluetooth.c well formed.
use test_tools.Common.{
  ℕ, zero, suc, ◌+◌, ◌<◌, ◌≤◌, ◌≡◌, inl, inr, refl, true, false, Option, none, some, List, [], ◌∷◌,
  ◌==◌, set, length, map, take, arith, All, Bool-cases, Option-cases, ◌∙◌, ap, length-set,
}
use test_tools.Common.Int.{ℤ, pos, negsuc, eqb_ℤ}
use test_tools.Common.Text.{bytes}
use test_tools.Hci.Options.{
  Settings, Parsed, exits, returns, byte, store, encode_baud_rate, baud_rates, validate_baudrate,
  parse_baudrate, parse_bdaddr, parse_scopcm, parse_i2s, parse_tosleep, parse_patchram,
  after_last_dot, same_letters,
}
use test_tools.Hci.Program.{
  CmdOption, patchram, baudrate, bd_addr, scopcm, i2s, parse_option, parse_cmd_line,
}

-- A command of bytes with the given head of four bytes, the last of which is the number of the bytes
-- behind them.
pub record IsCommand (h0 h1 h2 n : ℕ) (cmd : List ℕ) : Type 0 where
  pub head : take 4 cmd ≡ h0 ∷ h1 ∷ h2 ∷ n ∷ []
  pub size : length cmd ≡ 4 + n
  pub range : All (λ v. v < 256) cmd

-- The five commands that options change.
pub record IsCommands (s : Settings) : Type 0 where
  pub rate : IsCommand 0x01 0x18 0xfc 0x06 s.hci_update_baud_rate
  pub address : IsCommand 0x01 0x01 0xfc 0x06 s.hci_write_bd_addr
  pub sco : IsCommand 0x01 0x1c 0xfc 0x05 s.hci_write_sco_pcm_int
  pub pcm : IsCommand 0x01 0x1e 0xfc 0x05 s.hci_write_pcm_data_format
  pub interface : IsCommand 0x01 0x6d 0xfc 0x04 s.hci_write_i2spcm_interface_param

take-set : (k i v : ℕ) (xs : List ℕ) → k ≤ i → take k (set xs i v) ≡ take k xs
take-set zero i v xs l = refl
take-set (suc k) i v [] l = refl
take-set (suc k) zero v (x ∷ xs) l = absurd (omega arith)
take-set (suc k) (suc i) v (x ∷ xs) l = ap (◌∷◌ x) (take-set k i v xs (omega arith))

All-set :
    (i v : ℕ) (xs : List ℕ) → v < 256 → All (λ v. v < 256) xs → All (λ v. v < 256) (set xs i v)
All-set i v [] l a = a
All-set zero v (x ∷ xs) l (h, a) = (l, a)
All-set (suc i) v (x ∷ xs) l (h, a) = (h, All-set i v xs l a)

set-IsCommand :
    {h0 h1 h2 n : ℕ} (i v : ℕ) (cmd : List ℕ)
    → 4 ≤ i
    → v < 256
    → IsCommand h0 h1 h2 n cmd
    → IsCommand h0 h1 h2 n (set cmd i v)
set-IsCommand i v cmd l lv c = record {
  head = take-set 4 i v cmd l ∙ c.head;
  size = length-set cmd i v ∙ c.size;
  range = All-set i v cmd lv c.range;
}

store-IsCommand :
    {h0 h1 h2 n : ℕ} (i : ℕ) (vs cmd : List ℕ)
    → 4 ≤ i
    → All (λ v. v < 256) vs
    → IsCommand h0 h1 h2 n cmd
    → IsCommand h0 h1 h2 n (store i vs cmd)
unfolding store
store-IsCommand i [] cmd l a c = c
store-IsCommand i (v ∷ vs) cmd l (lv, a) c =
    store-IsCommand (i + 1) vs (set cmd i v) (omega arith) a (set-IsCommand i v cmd l lv c)

byte-small : (vs : List ℤ) → All (λ v. v < 256) (map byte vs)
byte-small [] = tt
byte-small (pos n ∷ vs) = (omega arith, byte-small vs)
byte-small (negsuc n ∷ vs) = (omega arith, byte-small vs)

store_bytes-IsCommand :
    {h0 h1 h2 n : ℕ} (i : ℕ) (vs : List ℤ) (cmd : List ℕ)
    → 4 ≤ i
    → IsCommand h0 h1 h2 n cmd
    → IsCommand h0 h1 h2 n (store i (map byte vs) cmd)
store_bytes-IsCommand i vs cmd l c = store-IsCommand i (map byte vs) cmd l (byte-small vs) c

encode-IsCommand :
    {h0 h1 h2 n : ℕ} (rate : ℕ) (cmd : List ℕ)
    → IsCommand h0 h1 h2 n cmd
    → IsCommand h0 h1 h2 n (encode_baud_rate rate 6 cmd)
unfolding encode_baud_rate
encode-IsCommand rate cmd c = elim (Bool-cases (rate == 0)) [
  | inl e ↦ rw e c
  | inr e ↦ rw e (
      set-IsCommand 6 _ _ (omega arith) (omega arith) (
        set-IsCommand 7 _ _ (omega arith) (omega arith) (
          set-IsCommand 8 _ _ (omega arith) (omega arith)
            (set-IsCommand 9 _ cmd (omega arith) (omega arith) c))))
]

-- What holds of the settings where a function returns.
abbrev pub Returns : (Settings → Type 0) → Parsed → Type 0
Returns P (exits status) = Unit
Returns P (returns ret s) = P s

parse_patchram-IsCommands :
    (open_fd : List ℕ → ℤ) (name : List ℕ) (s : Settings)
    → IsCommands s
    → Returns IsCommands (parse_patchram open_fd name s)
unfolding parse_patchram
parse_patchram-IsCommands open_fd name s c = elim (Option-cases (after_last_dot name)) [
  | inl e ↦ rw (e, Returns) tt
  | inr (p, e) ↦ elim (Bool-cases (same_letters (bytes "hcd") p)) [
    | inr e' ↦ rw (e, e', Returns) tt
    | inl e' ↦ elim (Bool-cases (eqb_ℤ (open_fd name) (negsuc 0))) [
      | inl e'' ↦ rw (e, e', e'', Returns) tt
      | inr e'' ↦
          rw (e, e', e'', Returns)
            (record {
              rate = c.rate;
              address = c.address;
              sco = c.sco;
              pcm = c.pcm;
              interface = c.interface;
            })
    ]
  ]
]

parse_baudrate-IsCommands :
    (speed : ℕ → ℕ) (v : ℤ) (s : Settings)
    → IsCommands s
    → Returns IsCommands (parse_baudrate speed v s)
unfolding parse_baudrate
parse_baudrate-IsCommands speed v s c = record {
  rate = elim (Bool-cases ((validate_baudrate speed baud_rates v s.termios_baudrate).0 == 0)) [
    | inl e ↦ rw e c.rate
    | inr e ↦ rw e (encode-IsCommand _ s.hci_update_baud_rate c.rate)
  ];
  address = c.address;
  sco = c.sco;
  pcm = c.pcm;
  interface = c.interface;
}

parse_scopcm-IsCommands :
    (vs : List ℤ) (s : Settings) → IsCommands s → Returns IsCommands (parse_scopcm vs s)
unfolding parse_scopcm
parse_scopcm-IsCommands (p0 ∷ p1 ∷ p2 ∷ p3 ∷ p4 ∷ p5 ∷ p6 ∷ p7 ∷ p8 ∷ p9 ∷ rest) s c = record {
  rate = c.rate;
  address = c.address;
  sco = store_bytes-IsCommand 4 (p0 ∷ p1 ∷ p2 ∷ p3 ∷ p4 ∷ []) _ (omega arith) c.sco;
  pcm = store_bytes-IsCommand 4 (p5 ∷ p6 ∷ p7 ∷ p8 ∷ p9 ∷ []) _ (omega arith) c.pcm;
  interface = c.interface;
}
parse_scopcm-IsCommands vs s c = c

parse_i2s-IsCommands :
    (vs : List ℤ) (s : Settings) → IsCommands s → Returns IsCommands (parse_i2s vs s)
unfolding parse_i2s
parse_i2s-IsCommands (p0 ∷ p1 ∷ p2 ∷ p3 ∷ rest) s c = record {
  rate = c.rate;
  address = c.address;
  sco = c.sco;
  pcm = c.pcm;
  interface = store_bytes-IsCommand 4 (p0 ∷ p1 ∷ p2 ∷ p3 ∷ []) _ (omega arith) c.interface;
}
parse_i2s-IsCommands vs s c = c

same-IsCommands :
    (s s' : Settings)
    → s'.hci_update_baud_rate ≡ s.hci_update_baud_rate
    → s'.hci_write_bd_addr ≡ s.hci_write_bd_addr
    → s'.hci_write_sco_pcm_int ≡ s.hci_write_sco_pcm_int
    → s'.hci_write_pcm_data_format ≡ s.hci_write_pcm_data_format
    → s'.hci_write_i2spcm_interface_param ≡ s.hci_write_i2spcm_interface_param
    → IsCommands s
    → IsCommands s'
same-IsCommands s s' e1 e2 e3 e4 e5 c = record {
  rate = rw e1 c.rate;
  address = rw e2 c.address;
  sco = rw e3 c.sco;
  pcm = rw e4 c.pcm;
  interface = rw e5 c.interface;
}

parse_option-IsCommands :
    (open_fd : List ℕ → ℤ) (speed : ℕ → ℕ) (o : CmdOption) (s : Settings)
    → IsCommands s
    → Returns IsCommands (parse_option open_fd speed o s)
unfolding parse_option parse_bdaddr parse_tosleep
parse_option-IsCommands open_fd speed (patchram name) s c =
    parse_patchram-IsCommands open_fd name s c
parse_option-IsCommands open_fd speed (baudrate v) s c = parse_baudrate-IsCommands speed v s c
parse_option-IsCommands open_fd speed (bd_addr b5 b4 b3 b2 b1 b0) s c = record {
  rate = c.rate;
  address = store_bytes-IsCommand 4 (b0 ∷ b1 ∷ b2 ∷ b3 ∷ b4 ∷ b5 ∷ []) _ (omega arith) c.address;
  sco = c.sco;
  pcm = c.pcm;
  interface = c.interface;
}
parse_option-IsCommands open_fd speed (scopcm vs) s c = parse_scopcm-IsCommands vs s c
parse_option-IsCommands open_fd speed (i2s vs) s c = parse_i2s-IsCommands vs s c
parse_option-IsCommands open_fd speed o s c = same-IsCommands s _ refl refl refl refl refl c

-- Whatever options are given, the five commands that options change keep, from their values at the
-- start of the program on, their heads of four bytes, the length that the head gives, and bytes as
-- elements, wherever parse_cmd_line returns.
pub parse_cmd_line-IsCommands :
    (open_fd : List ℕ → ℤ) (speed : ℕ → ℕ) (os : List CmdOption) (port : Option (List ℕ))
    (s : Settings)
    → IsCommands s
    → Returns IsCommands (parse_cmd_line open_fd speed os port s)
unfolding parse_cmd_line
parse_cmd_line-IsCommands open_fd speed [] none s c = c
parse_cmd_line-IsCommands open_fd speed [] (some p) s c =
    same-IsCommands s _ refl refl refl refl refl c
parse_cmd_line-IsCommands open_fd speed (o ∷ os) port s c =
    rest (parse_option open_fd speed o s) (parse_option-IsCommands open_fd speed o s c)
      λ s' h. parse_cmd_line-IsCommands open_fd speed os port s' h
  where
    rest :
        (r : Parsed)
        → Returns IsCommands r
        → ((s' : Settings)
            → IsCommands s'
            → Returns IsCommands (parse_cmd_line open_fd speed os port s'))
        → Returns IsCommands (elim r [
          | exits status ↦ exits status
          | returns ret s' ↦ elim (ret == 0) [
            | true ↦ parse_cmd_line open_fd speed os port s'
            | false ↦ returns 1 s'
          ]
        ])
    rest (exits status) h go = tt
    rest (returns ret s') h go = elim (Bool-cases (ret == 0)) [
      | inl e ↦ rw (e, Returns) (go s' h)
      | inr e ↦ rw (e, Returns) h
    ]
