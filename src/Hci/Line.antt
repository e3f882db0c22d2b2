-- ===== src/Hci/Line.antt =====
-- The settings of the serial line in test_bluetooth.c. The structure of the terminal settings and the
-- functions of the C library on it are an argument.
use test_tools.Common.{ℕ, suc, Option, some, if◌then◌else◌}
use test_tools.Common.Int.{ℤ, pos, ltb_ℤ}

pub record Library {ℓ} (T : Type ℓ) : Type ℓ where
  pub cfmakeraw : T → T
  pub or_crtscts : T → T
  pub cfsetospeed : ℕ → T → T
  pub cfsetispeed : ℕ → T → T

-- The variable `termios`, the settings of the line, and the number of calls of `tcflush`.
pub record SerialLine {ℓ} (T : Type ℓ) : Type ℓ where
  pub termios : T
  pub current : T
  pub flushed : ℕ

-- The code of 115200 bauds.
abbrev pub b115200 : ℕ
b115200 = 4098

module _ {ℓ} {T : Type ℓ} (lib : Library T) where
  tcsetattr : SerialLine T → SerialLine T
  tcsetattr s = record s { current = s.termios }

  tcflush : SerialLine T → SerialLine T
  tcflush s = record s { flushed = suc s.flushed }

  -- Both speeds, in `termios` and on the line: the end of proc_baudrate, and of the download.
  pub set_speed : ℕ → SerialLine T → SerialLine T
  unfolding tcsetattr
  set_speed speed s =
      tcsetattr (record s { termios = lib.cfsetispeed speed (lib.cfsetospeed speed s.termios) })

  pub init_uart : SerialLine T → SerialLine T
  unfolding tcsetattr tcflush set_speed
  init_uart s =
      let s1 = tcflush s in
      let s2 = record s1 { termios = lib.or_crtscts (lib.cfmakeraw s1.current) } in
      let s3 = tcflush (tcsetattr s2) in
      let s4 = tcflush (tcflush (tcsetattr s3)) in set_speed b115200 s4

-- What the port is used for: the line discipline and the protocol.
pub record Discipline : Type 0 where
  pub line : Option ℕ
  pub proto : Option ℕ

abbrev pub n_hci : ℕ
n_hci = 15

abbrev pub hci_uart_h4 : ℕ
hci_uart_h4 = 0

-- `set_line` and `set_proto` are what the two calls of `ioctl` return; a negative one changes nothing.
pub proc_enable_hci : (set_line set_proto : ℤ) → Discipline → Discipline
proc_enable_hci set_line set_proto d =
    if ltb_ℤ set_line (pos 0)
    then d
    else if ltb_ℤ set_proto (pos 0)
    then record d { line = some n_hci }
    else record d { line = some n_hci; proto = some hci_uart_h4 }
