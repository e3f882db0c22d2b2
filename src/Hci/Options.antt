-- ===== src/Hci/Options.antt =====
-- The options of test_bluetooth.c. What `getopt_long_only` yields is a list of options, each with what
-- `atoi` or `sscanf` reads in its argument; `open_fd` is the system's `open`, and `speed` gives the
-- constant of termios.h for a rate. An `int` is put into a byte by its low eight bits.
use test_tools.Common.{
  ℕ, ◌+◌, ◌-◌, ◌/◌, ◌%◌, ◌^◌, Bool, true, false, Option, none, some, List, [], ◌∷◌, ◌==◌, ◌&&◌, not,
  leb, if◌then◌else◌, set, map,
}
use test_tools.Common.Int.{ℤ, pos, negsuc, ltb_ℤ, eqb_ℤ}
use test_tools.Common.Text.{bytes}

-- The variables that the options set.
pub record Settings : Type 0 where
  pub uart_fd : ℤ
  pub hcdfile_fd : ℤ
  pub termios_baudrate : ℕ
  pub bdaddr_flag : ℕ
  pub enable_lpm : ℕ
  pub enable_hci : ℕ
  pub use_baudrate_for_download : ℕ
  pub debug : ℕ
  pub scopcm : ℕ
  pub i2s : ℕ
  pub no2bytes : ℕ
  pub tosleep : ℤ
  pub hci_update_baud_rate : List ℕ
  pub hci_write_bd_addr : List ℕ
  pub hci_write_sco_pcm_int : List ℕ
  pub hci_write_pcm_data_format : List ℕ
  pub hci_write_i2spcm_interface_param : List ℕ

-- The values at the start of the program.
abbrev pub initial : Settings
initial = record {
  uart_fd = negsuc 0;
  hcdfile_fd = negsuc 0;
  termios_baudrate = 0;
  bdaddr_flag = 0;
  enable_lpm = 0;
  enable_hci = 0;
  use_baudrate_for_download = 0;
  debug = 0;
  scopcm = 0;
  i2s = 0;
  no2bytes = 0;
  tosleep = pos 0;
  hci_update_baud_rate = 0x01 ∷ 0x18 ∷ 0xfc ∷ 0x06 ∷ 0 ∷ 0 ∷ 0 ∷ 0 ∷ 0 ∷ 0 ∷ [];
  hci_write_bd_addr = 0x01 ∷ 0x01 ∷ 0xfc ∷ 0x06 ∷ 0 ∷ 0 ∷ 0 ∷ 0 ∷ 0 ∷ 0 ∷ [];
  hci_write_sco_pcm_int = 0x01 ∷ 0x1c ∷ 0xfc ∷ 0x05 ∷ 0 ∷ 0 ∷ 0 ∷ 0 ∷ 0 ∷ [];
  hci_write_pcm_data_format = 0x01 ∷ 0x1e ∷ 0xfc ∷ 0x05 ∷ 0 ∷ 0 ∷ 0 ∷ 0 ∷ 0 ∷ [];
  hci_write_i2spcm_interface_param = 0x01 ∷ 0x6d ∷ 0xfc ∷ 0x04 ∷ 0 ∷ 0 ∷ 0 ∷ 0 ∷ [];
}

-- The program exits, or the function returns a number.
pub data Parsed : Type 0 where
  exits : ℕ → Parsed
  returns : ℕ → Settings → Parsed

abbrev pub byte : ℤ → ℕ
byte (pos n) = n % 2 ^ 8
byte (negsuc n) = 255 - n % 2 ^ 8

-- `list[at + i] = values[i]` for each of the values.
unfoldable pub store : ℕ → List ℕ → List ℕ → List ℕ
store at [] list = list
store at (v ∷ vs) list = store (at + 1) vs (set list at v)

abbrev lower : ℕ → ℕ
lower c = if leb 65 c && leb c 90 then c + 32 else c

-- `strcasecmp(a, b) == 0`
unfoldable pub same_letters : List ℕ → List ℕ → Bool
same_letters [] [] = true
same_letters (x ∷ xs) (y ∷ ys) = (lower x == lower y) && same_letters xs ys
same_letters _ _ = false

-- What follows the last '.', `strrchr(optarg, '.') + 1`.
unfoldable pub after_last_dot : List ℕ → Option (List ℕ)
after_last_dot [] = none
after_last_dot (c ∷ cs) = elim (after_last_dot cs) [
  | some p ↦ some p
  | none ↦ if c == 46 then some cs else none
]

unfoldable pub parse_patchram : (List ℕ → ℤ) → List ℕ → Settings → Parsed
unfolding after_last_dot same_letters
parse_patchram open_fd optarg s = elim (after_last_dot optarg) [
  | none ↦ exits 3
  | some p ↦
      if not (same_letters (bytes "hcd") p)
      then exits 4
      else if eqb_ℤ (open_fd optarg) (negsuc 0)
      then exits 5
      else returns 0 (record s { hcdfile_fd = open_fd optarg })
]

-- The four bytes, least significant first; a rate of 0 writes nothing.
unfoldable pub encode_baud_rate : ℕ → ℕ → List ℕ → List ℕ
encode_baud_rate baud_rate at list =
    if baud_rate == 0
    then list
    else let l3 = set list (at + 3) (baud_rate / 2 ^ 24 % 2 ^ 8) in
      let l2 = set l3 (at + 2) (baud_rate / 2 ^ 16 % 2 ^ 8) in
      let l1 = set l2 (at + 1) (baud_rate / 2 ^ 8 % 2 ^ 8) in set l1 at (baud_rate % 2 ^ 8)

abbrev pub baud_rates : List ℕ
baud_rates =
    115200 ∷ 230400 ∷ 460800 ∷ 500000 ∷ 576000 ∷ 921600 ∷ 1000000 ∷ 1152000 ∷ 1500000 ∷ 2000000
    ∷ 2500000 ∷ 3000000 ∷ 3500000 ∷ 4000000 ∷ []

-- The loop over the table: `*value`, and whether the rate is in it.
unfoldable pub validate_baudrate : (ℕ → ℕ) → List ℕ → ℤ → ℕ → ℕ × ℕ
validate_baudrate speed [] baud_rate value = (0, value)
validate_baudrate speed (b ∷ table) baud_rate value =
    if eqb_ℤ (pos b) baud_rate then (1, speed b) else validate_baudrate speed table baud_rate value

-- The rate as the `uint` that it is passed as.
abbrev word : ℤ → ℕ
word (pos n) = n % 2 ^ 32
word (negsuc n) = 2 ^ 32 - 1 - n % 2 ^ 32

unfoldable pub parse_baudrate : (ℕ → ℕ) → ℤ → Settings → Parsed
unfolding validate_baudrate encode_baud_rate
parse_baudrate speed baudrate s =
    let (valid, value) = validate_baudrate speed baud_rates baudrate s.termios_baudrate in
    returns 0 (record s {
      termios_baudrate = value;
      hci_update_baud_rate =
          if valid == 0
          then s.hci_update_baud_rate
          else encode_baud_rate (word baudrate) 6 s.hci_update_baud_rate;
    })

-- `bd_addr` holds the six numbers in the order in which they stand in the argument.
unfoldable pub parse_bdaddr : (b5 b4 b3 b2 b1 b0 : ℤ) → Settings → Parsed
unfolding store
parse_bdaddr b5 b4 b3 b2 b1 b0 s = returns 0 (record s {
  hci_write_bd_addr = store 4 (map byte (b0 ∷ b1 ∷ b2 ∷ b3 ∷ b4 ∷ b5 ∷ [])) s.hci_write_bd_addr;
  bdaddr_flag = 1;
})

-- The argument is the numbers that stand in it, with commas between them; `sscanf` reads the first ten and
-- does not look at what follows.
unfoldable pub parse_scopcm : List ℤ → Settings → Parsed
unfolding store
parse_scopcm (p0 ∷ p1 ∷ p2 ∷ p3 ∷ p4 ∷ p5 ∷ p6 ∷ p7 ∷ p8 ∷ p9 ∷ rest) s = returns 0 (record s {
  scopcm = 1;
  hci_write_sco_pcm_int = store 4 (map byte (p0 ∷ p1 ∷ p2 ∷ p3 ∷ p4 ∷ [])) s.hci_write_sco_pcm_int;
  hci_write_pcm_data_format =
      store 4 (map byte (p5 ∷ p6 ∷ p7 ∷ p8 ∷ p9 ∷ [])) s.hci_write_pcm_data_format;
})
parse_scopcm params s = returns 1 s

-- `sscanf` reads the first four.
unfoldable pub parse_i2s : List ℤ → Settings → Parsed
unfolding store
parse_i2s (p0 ∷ p1 ∷ p2 ∷ p3 ∷ rest) s = returns 0 (record s {
  i2s = 1;
  hci_write_i2spcm_interface_param =
      store 4 (map byte (p0 ∷ p1 ∷ p2 ∷ p3 ∷ [])) s.hci_write_i2spcm_interface_param;
})
parse_i2s params s = returns 1 s

unfoldable pub parse_tosleep : ℤ → Settings → Parsed
parse_tosleep value s =
    returns (if ltb_ℤ (pos 0) value then 0 else 1) (record s { tosleep = value })
