-- ===== src/Hci/Program.antt =====
-- The command line and `main` of test_bluetooth.c.
use test_tools.Common.{ℕ, ◌==◌, true, false, not, Option, none, some, List, [], ◌∷◌, if◌then◌else◌}
use test_tools.Common.Int.{ℤ, pos, ltb_ℤ}
use test_tools.Hci.Options.{
  Settings, Parsed, exits, returns, parse_patchram, parse_baudrate, parse_bdaddr, parse_scopcm,
  parse_i2s, parse_tosleep,
}
use test_tools.Hci.Uart.{Port, Outcome, done, ◌>>=◌}
use test_tools.Hci.Commands.{
  proc_reset, proc_read_bd_addr, proc_set_event_filter, proc_write_scan_enable,
  proc_enable_device_under_test_mode,
}

-- `if (...) exit(code);` or the rest of the program: the exit status and the port.
unfoldable pub exit_if : ℕ → ℕ × Port → (Port → Outcome (ℕ × Port)) → Outcome (ℕ × Port)
exit_if code (r, s) rest = elim (r == 0) [ true ↦ rest s | false ↦ done (code, s) ]

-- The commands, behind `init_uart`.
unfoldable pub run_commands : Port → Outcome (ℕ × Port)
unfolding exit_if proc_reset proc_read_bd_addr proc_set_event_filter proc_write_scan_enable
    proc_enable_device_under_test_mode
run_commands s0 = do
  r1 ← proc_reset s0
  exit_if 3 r1 λ s1. do
    r2 ← proc_read_bd_addr s1
    exit_if 4 r2 λ s2. do
      r3 ← proc_set_event_filter s2
      exit_if 5 r3 λ s3. do
        r4 ← proc_write_scan_enable s3
        exit_if 6 r4
            λ s4. do r5 ← proc_enable_device_under_test_mode s4; exit_if 7 r5 λ s5. done (0, s5)

-- What a call of `getopt_long_only` yields.
pub data CmdOption : Type 0 where
  patchram : List ℕ → CmdOption
  baudrate : ℤ → CmdOption
  bd_addr : (b5 b4 b3 b2 b1 b0 : ℤ) → CmdOption
  enable_lpm enable_hci use_baudrate_for_download : CmdOption
  scopcm : List ℤ → CmdOption
  i2s : List ℤ → CmdOption
  no2bytes : CmdOption
  tosleep : ℤ → CmdOption
  debug : CmdOption
  unknown : CmdOption

-- One turn of the loop: `(*parse[option_index])(optarg)`, the flag for -d, or only the usage text.
unfoldable pub parse_option : (List ℕ → ℤ) → (ℕ → ℕ) → CmdOption → Settings → Parsed
unfolding parse_patchram parse_baudrate parse_bdaddr parse_scopcm parse_i2s parse_tosleep
parse_option open_fd speed (patchram name) s = parse_patchram open_fd name s
parse_option open_fd speed (baudrate v) s = parse_baudrate speed v s
parse_option open_fd speed (bd_addr b5 b4 b3 b2 b1 b0) s = parse_bdaddr b5 b4 b3 b2 b1 b0 s
parse_option open_fd speed enable_lpm s = returns 0 (record s { enable_lpm = 1 })
parse_option open_fd speed enable_hci s = returns 0 (record s { enable_hci = 1 })
parse_option open_fd speed use_baudrate_for_download s =
    returns 0 (record s { use_baudrate_for_download = 1 })
parse_option open_fd speed (scopcm vs) s = parse_scopcm vs s
parse_option open_fd speed (i2s vs) s = parse_i2s vs s
parse_option open_fd speed no2bytes s = returns 0 (record s { no2bytes = 1 })
parse_option open_fd speed (tosleep v) s = parse_tosleep v s
parse_option open_fd speed debug s = returns 0 (record s { debug = 1 })
parse_option open_fd speed unknown s = returns 0 s

-- `port` is the argument behind the options, if there is one.
unfoldable pub parse_cmd_line :
    (List ℕ → ℤ) → (ℕ → ℕ) → List CmdOption → Option (List ℕ) → Settings → Parsed
unfolding parse_option
parse_cmd_line open_fd speed [] none s = returns 0 s
parse_cmd_line open_fd speed [] (some port) s = returns 0 (record s { uart_fd = open_fd port })
parse_cmd_line open_fd speed (o ∷ os) port s = elim (parse_option open_fd speed o s) [
  | exits status ↦ exits status
  | returns ret s' ↦ elim (ret == 0) [
    | true ↦ parse_cmd_line open_fd speed os port s'
    | false ↦ returns 1 s'
  ]
]

-- `main` from the command line on: the exit status and the port.
unfoldable pub main :
    (List ℕ → ℤ) → (ℕ → ℕ) → List CmdOption → Option (List ℕ) → Settings → Port → Outcome (ℕ × Port)
unfolding parse_cmd_line run_commands
main open_fd speed os port s0 u0 = elim (parse_cmd_line open_fd speed os port s0) [
  | exits status ↦ done (status, u0)
  | returns ret s ↦
      if not (ret == 0)
      then done (1, u0)
      else if ltb_ℤ s.uart_fd (pos 0)
      then done (2, u0)
      else run_commands u0
]
