-- ===== src/Hci/Tests.antt =====
-- Runs of the Bluetooth test.
use test_tools.Common.{ℕ, ◌≡◌, refl, false, none, some, List, [], ◌∷◌, ◌++◌, arith}
use test_tools.Common.Int.{ℤ, pos}
use test_tools.Common.Text.{bytes}
use test_tools.Hci.Uart.{Outcome, Port, Arrival, received, alarm, done, read_event}
use test_tools.Hci.Options.{Settings, initial}
use test_tools.Hci.Program.{
  CmdOption, debug, baudrate, i2s, scopcm, tosleep, parse_option, parse_cmd_line, main,
}
use test_tools.Hci.Packets.{stream, no_failure, Reads, read_event-Reads}
use test_tools.Hci.Replies.{Packet, wire}
use test_tools.Hci.Exit.{main-first_refused}
use test_tools.Hci.Download.{download_loop, proc_patchram}
use test_tools.Hci.Patchram.{Resets, proc_patchram-Sent}
use test_tools.Hci.Firmware.{Record, in_file, Sent, download_loop-Sent}
use test_tools.Hci.Refused.{main-bad_option}
use test_tools.Hci.Frames.{IsCommands, Returns, parse_cmd_line-IsCommands}

-- The answer to a command with these two bytes: it is complete, with the status 0.
abbrev complete : ℕ → ℕ → Packet
complete lo hi = record { indicator = 4; event = 14; params = 1 ∷ lo ∷ hi ∷ 0 ∷ [] }

abbrev address : Packet
address = record { indicator = 4; event = 14; params = 1 ∷ 9 ∷ 16 ∷ 0 ∷ 1 ∷ 2 ∷ 3 ∷ 4 ∷ 5 ∷ 6 ∷ [] }

-- Five answers in three pieces, with an alarm before the second.
abbrev answers : List Arrival
answers =
    received (4 ∷ 14 ∷ [])
    ∷ alarm
    ∷ received (4 ∷ 1 ∷ 3 ∷ 12 ∷ 0 ∷ wire address ++ wire (complete 5 12))
    ∷ received (wire (complete 26 12) ++ wire (complete 3 24))
    ∷ []

abbrev port_with : List Arrival → Port
port_with input = record { buffer = λ a. 0; input = input; sent = []; armed = false }

abbrev always_three : List ℕ → ℤ
always_three name = pos 3

read_event-Reads_example :
    Reads
      (4 ∷ 14 ∷ 4 ∷ 1 ∷ 3 ∷ 12 ∷ 0 ∷ [])
      (9 ∷ [])
      0
      (λ a. 0)
      []
      false
      (read_event
        (port_with (received (4 ∷ 14 ∷ []) ∷ received (4 ∷ 1 ∷ 3 ∷ 12 ∷ 0 ∷ 9 ∷ []) ∷ [])))
unfolding stream no_failure
read_event-Reads_example =
    read_event-Reads
      (port_with (received (4 ∷ 14 ∷ []) ∷ received (4 ∷ 1 ∷ 3 ∷ 12 ∷ 0 ∷ 9 ∷ []) ∷ [])) 4 14 4
      (1 ∷ 3 ∷ 12 ∷ 0 ∷ []) (9 ∷ []) refl refl refl

main-first_refused_example :
    (port : Port) × (main always_three
        (λ r. r)
        (debug ∷ [])
        (some (bytes "/dev/ttyS0"))
        initial
        (port_with answers)
      ≡ done (0, port))
unfolding stream no_failure parse_cmd_line parse_option
main-first_refused_example =
    main-first_refused always_three (λ r. r) (debug ∷ []) (some (bytes "/dev/ttyS0")) initial
      (record initial { debug = 1; uart_fd = pos 3 }) 3 (port_with answers) (complete 3 12) address
      (complete 5 12) (complete 26 12) (complete 3 24) [] refl refl refl refl

initial-IsCommands : IsCommands initial
initial-IsCommands = record {
  rate = record { head = refl; size = refl; range = (ground arith) };
  address = record { head = refl; size = refl; range = (ground arith) };
  sco = record { head = refl; size = refl; range = (ground arith) };
  pcm = record { head = refl; size = refl; range = (ground arith) };
  interface = record { head = refl; size = refl; range = (ground arith) };
}

parse_cmd_line-IsCommands_example : Returns IsCommands (
    parse_cmd_line always_three
      (λ r. r)
      (baudrate (pos 115200) ∷ i2s (pos 1 ∷ []) ∷ [])
      none
      initial)
parse_cmd_line-IsCommands_example =
    parse_cmd_line-IsCommands always_three (λ r. r) (baudrate (pos 115200) ∷ i2s (pos 1 ∷ []) ∷ [])
      none initial initial-IsCommands

abbrev one_record : Record
one_record = record { low = 76; high = 252; params = 1 ∷ 2 ∷ [] }

download_loop-Sent_example :
    Sent (port_with (received (wire (complete 76 252)) ∷ [])) ((1 ∷ in_file one_record) ∷ []) [] (
      download_loop 9
        (76 ∷ 252 ∷ 2 ∷ 1 ∷ 2 ∷ [])
        (port_with (received (wire (complete 76 252)) ∷ [])))
unfolding stream no_failure
download_loop-Sent_example =
    download_loop-Sent 9 (one_record ∷ []) (complete 76 252 ∷ []) []
      (port_with (received (wire (complete 76 252)) ∷ [])) (omega arith) refl refl refl refl

abbrev run : CmdOption → Outcome (ℕ × Port)
run o = main always_three (λ r. r) (debug ∷ o ∷ []) none initial (port_with answers)

main-bad_option_example :
    (run (scopcm (pos 1 ∷ [])) ≡ done (1, port_with answers))
    × (run (i2s (pos 1 ∷ [])) ≡ done (1, port_with answers))
    × (run (tosleep (pos 0)) ≡ done (1, port_with answers))
unfolding parse_cmd_line parse_option
main-bad_option_example =
    main-bad_option always_three (λ r. r) (debug ∷ []) [] none initial
      (record initial { debug = 1 }) (port_with answers) (pos 1 ∷ []) (pos 1 ∷ []) (pos 0) refl
      (omega arith) (omega arith) refl

-- The alarm comes while the reset is waited for.
abbrev download_answers : List Arrival
download_answers =
    received (wire (complete 46 252) ++ wire (complete 76 252))
    ∷ received (4 ∷ 14 ∷ [])
    ∷ alarm
    ∷ received (4 ∷ 1 ∷ 3 ∷ 12 ∷ 0 ∷ [])
    ∷ []

abbrev one_piece : Settings
one_piece = record initial { no2bytes = 1 }

proc_patchram-Sent_example :
    (port : Port) × (proc_patchram one_piece
        (76 ∷ 252 ∷ 2 ∷ 1 ∷ 2 ∷ [])
        (port_with download_answers)
      ≡ done port)
    × Resets
        ((1 ∷ 46 ∷ 252 ∷ 0 ∷ []) ∷ (1 ∷ in_file one_record) ∷ (1 ∷ 3 ∷ 12 ∷ 0 ∷ []) ∷ [])
        port.sent
    × (stream port.input ≡ [])
    × (port.armed ≡ false)
unfolding stream no_failure
proc_patchram-Sent_example =
    proc_patchram-Sent one_piece (one_record ∷ []) (complete 76 252 ∷ []) (complete 46 252)
      (complete 3 12) [] (port_with download_answers) refl refl refl refl refl
