-- ===== src/Hci/Exit.antt =====
-- The exit status of the Bluetooth test.
use test_tools.Common.{
  ℕ, ◌≡◌, refl, Bool, true, false, List, [], ◌∷◌, ◌++◌, if◌then◌else◌, drop, Option, arith,
}
use test_tools.Hci.Uart.{Port, Outcome, done, ◌>>=◌}
use test_tools.Hci.Commands.{
  success_hci_reset_recevied, success_hci_set_event_filter_recevied,
  success_hci_write_scan_enable_recevied, success_hci_enable_device_under_test_mode_recevied,
}
use test_tools.Common.Int.{ℤ, pos, ltb_ℤ}
use test_tools.Hci.Options.{Settings, returns}
use test_tools.Hci.Program.{exit_if, run_commands, CmdOption, parse_cmd_line, main}
use test_tools.Hci.Packets.{stream, no_failure}
use test_tools.Hci.Replies.{
  Packet, wire, eqb_list, is_address, code, Answered, proc_reset-Answered,
  proc_read_bd_addr-Answered, proc_set_event_filter-Answered, proc_write_scan_enable-Answered,
  proc_enable_device_under_test_mode-Answered,
}

-- The status of the first check that fails, 0 if none does.
abbrev pub first_refused : List (ℕ × Bool) → ℕ
first_refused [] = 0
first_refused ((status, accepted) ∷ checks) = if accepted then first_refused checks else status

abbrev Finished : ℕ → Outcome (ℕ × Port) → Type 0
Finished r o = (port : Port) × (o ≡ done (r, port))

exit_if-Finished :
    (status : ℕ) (accepted : Bool) (checks : List (ℕ × Bool)) (extra : List ℕ)
    (o : Outcome (ℕ × Port)) (rest : Port → Outcome (ℕ × Port))
    → Answered (code accepted) extra o
    → ((u : Port)
        → no_failure u.input ≡ true
        → stream u.input ≡ extra
        → Finished (first_refused checks) (rest u))
    → Finished (first_refused ((status, accepted) ∷ checks)) (o >>= λ r. exit_if status r rest)
unfolding exit_if
exit_if-Finished status true checks extra o rest x go =
    let (port, e) = go x.port x.fine x.left in (port, rw (x.result) e)
exit_if-Finished status false checks extra o rest x go = (x.port, rw (x.result) refl)

-- The checks of the test on its five answers, each with the exit status that it has if it fails.
abbrev pub checks_of : (p1 p2 p3 p4 p5 : Packet) → List (ℕ × Bool)
checks_of p1 p2 p3 p4 p5 =
    (3, eqb_list (wire p1) success_hci_reset_recevied)
    ∷ (4, is_address (wire p2))
    ∷ (5, eqb_list (wire p3) success_hci_set_event_filter_recevied)
    ∷ (6, eqb_list (wire p4) success_hci_write_scan_enable_recevied)
    ∷ (7, eqb_list (wire p5) success_hci_enable_device_under_test_mode_recevied)
    ∷ []

run_commands-first_refused :
    (s : Port) (p1 p2 p3 p4 p5 : Packet) (extra : List ℕ)
    → no_failure s.input ≡ true
    → stream s.input ≡ wire p1 ++ (wire p2 ++ (wire p3 ++ (wire p4 ++ (wire p5 ++ extra))))
    → (port : Port) × (run_commands s ≡ done (first_refused (checks_of p1 p2 p3 p4 p5), port))
unfolding run_commands
run_commands-first_refused s p1 p2 p3 p4 p5 extra f e =
    let checks = checks_of p1 p2 p3 p4 p5 in
    exit_if-Finished 3 _ (drop 1 checks) _ _ _ (proc_reset-Answered s p1 _ f e) λ s1 f1 e1.
      exit_if-Finished 4 _ (drop 2 checks) _ _ _ (proc_read_bd_addr-Answered s1 p2 _ f1 e1)
        λ s2 f2 e2.
          exit_if-Finished 5 _ (drop 3 checks) _ _ _ (proc_set_event_filter-Answered s2 p3 _ f2 e2)
            λ s3 f3 e3.
              exit_if-Finished 6 _ (drop 4 checks) _ _ _
                (proc_write_scan_enable-Answered s3 p4 _ f3 e3)
                λ s4 f4 e4.
                  exit_if-Finished 7 _ [] _ _ _
                    (proc_enable_device_under_test_mode-Answered s4 p5 _ f4 e4)
                    λ s5 f5 e5. (s5, refl)

-- If the options are accepted and the port opens, and then the port brings five packets, whatever
-- follows, and no call of `read` fails, the test ends with the exit status of the first answer that
-- is not the expected one: 3 for the reset, 4 for the address (13 bytes with the status 0), 5 for the
-- event filter, 6 for the scan and 7 for the test mode, and 0 if all five are as expected, however
-- the packets are cut into pieces.
pub main-first_refused :
    (open_fd : List ℕ → ℤ) (speed : ℕ → ℕ) (os : List CmdOption) (name : Option (List ℕ))
    (s0 s : Settings) (fd : ℕ) (u : Port) (p1 p2 p3 p4 p5 : Packet) (extra : List ℕ)
    → parse_cmd_line open_fd speed os name s0 ≡ returns 0 s
    → s.uart_fd ≡ pos fd
    → no_failure u.input ≡ true
    → stream u.input ≡ wire p1 ++ (wire p2 ++ (wire p3 ++ (wire p4 ++ (wire p5 ++ extra))))
    → (port : Port) × (main open_fd speed os name s0 u
        ≡ done (first_refused (checks_of p1 p2 p3 p4 p5), port))
unfolding main
main-first_refused open_fd speed os name s0 s fd u p1 p2 p3 p4 p5 extra ep ef f e =
    let (port, er) = run_commands-first_refused u p1 p2 p3 p4 p5 extra f e in
    let el : ltb_ℤ (pos fd) (pos 0) ≡ false = ground arith in (port, rw (ep, ef, el, main) er)
