-- ===== src/Hci/Commands.antt =====
-- The commands of test_bluetooth.c and what each makes of the answer. A value of `memcmp` that is not
-- 0 is given as 1; the code only tests it.
use test_tools.Common.{ℕ, true, false, List, [], ◌∷◌, ◌==◌, if◌then◌else◌}
use test_tools.Common.Bytes.{Mem, has_bytes}
use test_tools.Hci.Uart.{Port, Outcome, done, ◌>>=◌, hci_send_cmd, hci_reset, read_event}

abbrev pub hci_read_bd_addr : List ℕ
hci_read_bd_addr = 0x01 ∷ 0x09 ∷ 0x10 ∷ 0x00 ∷ []

abbrev pub hci_set_event_filter : List ℕ
hci_set_event_filter = 0x01 ∷ 0x05 ∷ 0x0c ∷ 0x03 ∷ 0x02 ∷ 0x00 ∷ 0x02 ∷ []

abbrev pub hci_write_scan_enable : List ℕ
hci_write_scan_enable = 0x01 ∷ 0x1a ∷ 0x0c ∷ 0x01 ∷ 0x03 ∷ []

abbrev pub hci_enable_device_under_test_mode : List ℕ
hci_enable_device_under_test_mode = 0x01 ∷ 0x03 ∷ 0x18 ∷ 0x00 ∷ []

abbrev pub success_hci_reset_recevied : List ℕ
success_hci_reset_recevied = 0x04 ∷ 0x0e ∷ 0x04 ∷ 0x01 ∷ 0x03 ∷ 0x0c ∷ 0x00 ∷ []

abbrev pub success_hci_set_event_filter_recevied : List ℕ
success_hci_set_event_filter_recevied = 0x04 ∷ 0x0e ∷ 0x04 ∷ 0x01 ∷ 0x05 ∷ 0x0c ∷ 0x00 ∷ []

abbrev pub success_hci_write_scan_enable_recevied : List ℕ
success_hci_write_scan_enable_recevied = 0x04 ∷ 0x0e ∷ 0x04 ∷ 0x01 ∷ 0x1a ∷ 0x0c ∷ 0x00 ∷ []

abbrev pub success_hci_enable_device_under_test_mode_recevied : List ℕ
success_hci_enable_device_under_test_mode_recevied =
    0x04 ∷ 0x0e ∷ 0x04 ∷ 0x01 ∷ 0x03 ∷ 0x18 ∷ 0x00 ∷ []

unfoldable pub memcmp : Mem → ℕ → List ℕ → ℕ
memcmp m a bs = if has_bytes m a bs then 0 else 1

-- `if (count == 7) return memcmp(buffer, expected, count); return 1;`
unfoldable pub check_seven : List ℕ → ℕ × Port → ℕ
unfolding memcmp
check_seven expected (count, s) = if count == 7 then memcmp s.buffer 0 expected else 1

unfoldable pub proc_reset : Port → Outcome (ℕ × Port)
unfolding check_seven
proc_reset s = do
  (count, s') ← read_event (record (hci_send_cmd hci_reset s) { armed = true })
  let s'' = record s' { armed = false }
  done (check_seven success_hci_reset_recevied (count, s''), s'')

unfoldable pub proc_read_bd_addr : Port → Outcome (ℕ × Port)
unfolding memcmp
proc_read_bd_addr s = do
  (count, s') ← read_event (hci_send_cmd hci_read_bd_addr s)
  done (if count == 13 then memcmp s'.buffer 6 (0x00 ∷ []) else 1, s')

unfoldable pub proc_set_event_filter : Port → Outcome (ℕ × Port)
unfolding check_seven
proc_set_event_filter s = do
  (count, s') ← read_event (hci_send_cmd hci_set_event_filter s)
  done (check_seven success_hci_set_event_filter_recevied (count, s'), s')

unfoldable pub proc_write_scan_enable : Port → Outcome (ℕ × Port)
unfolding check_seven
proc_write_scan_enable s = do
  (count, s') ← read_event (hci_send_cmd hci_write_scan_enable s)
  done (check_seven success_hci_write_scan_enable_recevied (count, s'), s')

unfoldable pub proc_enable_device_under_test_mode : Port → Outcome (ℕ × Port)
unfolding check_seven
proc_enable_device_under_test_mode s = do
  (count, s') ← read_event (hci_send_cmd hci_enable_device_under_test_mode s)
  done (check_seven success_hci_enable_device_under_test_mode_recevied (count, s'), s')
