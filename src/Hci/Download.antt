-- ===== src/Hci/Download.antt =====
-- The commands of test_bluetooth.c that follow the settings, and the download of a firmware file. A
-- call of `read` on the file gives what is left of it, up to the number asked for.
use test_tools.Common.{ℕ, zero, suc, ◌+◌, List, [], ◌∷◌, ◌==◌, if◌then◌else◌, length, take, drop}
use test_tools.Common.Bytes.{peek, poke, put_bytes}
use test_tools.Hci.Uart.{
  Port, Outcome, done, waits, ◌>>=◌, Arrival, received, failed, alarm, expired, hci_send_cmd,
  read_event,
}
use test_tools.Hci.Options.{Settings}
use test_tools.Hci.Commands.{proc_reset}

abbrev pub hci_download_minidriver : List ℕ
hci_download_minidriver = 0x01 ∷ 0x2e ∷ 0xfc ∷ 0x00 ∷ []

abbrev pub hci_write_sleep_mode : List ℕ
hci_write_sleep_mode =
    0x01 ∷ 0x27 ∷ 0xfc ∷ 0x0c ∷ 1 ∷ 1 ∷ 1 ∷ 1 ∷ 1 ∷ 1 ∷ 1 ∷ 0 ∷ 0 ∷ 0 ∷ 0 ∷ 0 ∷ []

-- A command whose answer is read and not looked at.
unfoldable pub command : List ℕ → Port → Outcome Port
command cmd s = do (count, s') ← read_event (hci_send_cmd cmd s); done s'

-- Behind it the speed of the port is set.
unfoldable pub proc_baudrate : Settings → Port → Outcome Port
unfolding command
proc_baudrate o s = command o.hci_update_baud_rate s

unfoldable pub proc_bdaddr : Settings → Port → Outcome Port
unfolding command
proc_bdaddr o s = command o.hci_write_bd_addr s

unfoldable pub proc_enable_lpm : Port → Outcome Port
unfolding command
proc_enable_lpm s = command hci_write_sleep_mode s

unfoldable pub proc_scopcm : Settings → Port → Outcome Port
unfolding command
proc_scopcm o s = do s' ← command o.hci_write_sco_pcm_int s; command o.hci_write_pcm_data_format s'

unfoldable pub proc_i2s : Settings → Port → Outcome Port
unfolding command
proc_i2s o s = command o.hci_write_i2spcm_interface_param s

-- One call of `read` for at most `suc n` bytes to the start of `buffer`; its result is not looked at.
unfoldable pub read_some : ℕ → List Arrival → Port → Outcome Port
unfolding expired
read_some n [] s = waits
read_some n (received bs ∷ rest) s = done (record s {
  buffer = put_bytes 0 (take (suc n) bs) s.buffer;
  input = received (drop (suc n) bs) ∷ rest;
})
read_some n (failed ∷ rest) s = done (record s { input = rest })
read_some n (alarm ∷ rest) s = read_some n rest (if s.armed then expired s else s)

-- The loop `while (read(hcdfile_fd, &buffer[1], 3))`; a turn takes at least one byte of the file.
unfoldable pub download_loop : ℕ → List ℕ → Port → Outcome Port
unfolding command peek
download_loop zero file s = waits
download_loop (suc k) file s =
    let m1 = poke 0 1 (put_bytes 1 (take 3 file) s.buffer) in
    let len = m1 3 in
    let m2 = put_bytes 4 (take len (drop 3 file)) m1 in
    let more = (do
      s' ← command (peek m2 (len + 4) 0) (record s { buffer = m2 })
      download_loop k (drop len (drop 3 file)) s') in
    if length file == 0 then done s else more

-- With the file opened; the result of proc_reset is not looked at.
unfoldable pub proc_patchram : Settings → List ℕ → Port → Outcome Port
unfolding download_loop command read_some proc_reset
proc_patchram o file s = do
  s1 ← command hci_download_minidriver s
  s2 ← (if o.no2bytes == 0 then read_some 1 s1.input s1 else done s1)
  s3 ← download_loop (length file + 1) file s2
  (r, s4) ← proc_reset s3
  done s4
