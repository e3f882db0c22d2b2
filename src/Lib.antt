-- ===== src/Lib.antt =====
-- Verification of the factory tests in jz_pretest.
--
-- The tests are small C programs that a shell script starts one after the other; each shows or reads
-- something on the device and ends with an exit status, 0 for a passed test. Modelled are the toolkit
-- of the tests with a screen and two of its programs, the two sound programs with their WAV code, the
-- Bluetooth test, the display test, the tests of single sensors, the program that writes the VCOM
-- voltage, and the readers of the log of getevent.
--
-- The parts, their files and their source:
--   NodeList (jz_pretest/test_keyboard/list.c, list.h): singly linked lists of widgets, on a heap from
--     addresses to nodes. One function per function of list.c; what two C functions share, text for
--     text, is one definition (insert_node, add_node). `none` is a read through NULL. Refine has the
--     calls on the heap and the same calls on a plain list of cells.
--   Widget (jz_pretest/test_keyboard/widget.c, widget.h): Types has the structures and the static
--     variables (record Ui), Draw the drawing, Setup the init_* functions and set_button_mode, Touch
--     the touch state and the searches, Device the search for the input device, Catch the two event
--     handlers, Listen the event loop. The calls of minui and of the mutex are recorded in order in
--     `drawn`. The lists of widgets are here the lists of the addresses that NodeList keeps in nodes;
--     Nodes has the searches along the nodes, and joins the two.
--     catch_action_for_button is split at its switch (on_syn, on_keep, on_end) and at the tests for
--     the button touched last (on_inside, on_outside).
--   KeyTest (jz_pretest/test_keyboard/inputevent.c) and TouchTest
--     (jz_pretest/test_touchscreen/test_touchbutton.c): the two programs on Widget, with their
--     callbacks.
--   Wav (jz_pretest/test_speaker/sndkit_only_replay/wav.c, wav.h): the head of a WAV file and the
--     conversion of samples in place, on a memory of bytes.
--   Sndkit (jz_pretest/test_speaker/sndkit_only_replay/sndkit.c), on Wav: Io has the loop that writes
--     all of a buffer, Formats the tables, Play and Record the two loops on the device, Files makewav
--     and strip_wav, Options the command line and Program main.
--   Sndtest (jz_pretest/test_audio/oss_test/sndtest.c, sndtest.h, param.h): Options has the command
--     line, Audio the devices and files, Run the two loops and main.
--   Vcom (jz_pretest/test_write_vcom_vol/vcom.c): Table has the table of partitions and the scan of
--     its text, Emmc the reads and writes on the card, Program main.
--   Touchlog (jz_pretest/get_select.c, test_touchscreen/get_coordinate.c,
--     test_pac7673/get_proximity.c, test_eventnum.c): the readers of the log of getevent.
--   Lcd (jz_pretest/test_lcd/test_lcd.c): the pictures of the display test on the mapped memory, which is
--     given in words of 32 bits, with the frames that are shown as a list; Setup the opening and closing
--     of the display.
--   Sensors (jz_pretest/test_heartrate/test_pah8001/test_pah8001.c, test_frizz/test_frizz.c,
--     test_gyroscope/test_gyroscope.c, test_magnet/test_magnet.c, test_gsensor/test_gsensor.c,
--     test_mic/test_mic.c, test_uv/test_uv.c, test_barometer/test_barometer.c, test_gps/test_gps.c,
--     test_current/test_current.c, test_heartrate/test_pah8001/pah8001_stop.c): Pah8001 and Frizz on a
--     driver that is an argument, Events the three tests that differ in names only, Reads the four
--     that look at the bytes of one read, Current the loop on the current, Stop on Widget.
--   Hci (jz_pretest/test_bluetooth/test_bluetooth.c): Uart has the serial port with read_event,
--     Commands the five commands of the test, Options and Program the command line and main, and
--     Download the functions whose calls in main are commented out, with the firmware download; Line
--     the settings of the serial line.
--   Common: numbers, lists, texts and memories that the parts share.
--
-- What comes from outside is an argument. The event loop gets the returns of epoll_wait with their
-- events as a list (Wake, Source), and whether epoll_ctl takes the descriptors; the serial port gets
-- what its calls of read meet as a list (Arrival), with failures and alarms; minui gives the surfaces
-- and sizes (MinUi); the files and devices of the sound programs are lists of what their calls of read
-- give and of how much those of write take (Read, Ack, Turn), with the driver's answers to ioctl
-- (World); sscanf and strtol are functions; `open`, the lines of /proc/bus/input/devices, what getopt,
-- atoi and sscanf make of the arguments, and the addresses that malloc returns are arguments too. A
-- callback is a function on the state.
--
-- Numbers: unsigned and int are 32-bit patterns in Widget and Wav, with the wrap-around written out:
-- in Wav the steps over a JUNK and a fmt chunk and `*head_len`, while the places in memory do not
-- wrap (a memory that repeats after 2^32 bytes is one of 32-bit pointers), and the lengths of the
-- conversions are not negative. The length of a recording in Sndkit and the lengths and the count of
-- bytes in Sndtest are `int`s as 32-bit words too; an overflow wraps. Else numbers have no upper
-- bound; a sign is written as ℤ where the code tests it. Loops over a list of events or of widgets
-- are recursion on the list. The walks over the heap in NodeList and the loop of wav_32bit_to_24bit
-- are recursion on fuel; the theorems take any fuel above the length of the list and show that a
-- result comes; wav_32bit_to_24bit and the download get more fuel than they make turns. The copy
-- loops of Sndkit get one turn more than there are bytes, and each turn takes a byte or more; the
-- other loops of the sound programs are recursion on what is read or written.
--
-- The loops of test_pah8001.c get fuel for ten readings a second; the theorems take any fuel above
-- that and show that a result comes. The five tries of test_frizz.c, the eight lines of the tests on
-- events and the loops of test_lcd.c, which count up to a bound, are recursion on what is left of them.
--
-- Not modelled: what is printed, the debug output, errno and the time that usleep takes; of
-- test_bluetooth.c read_default_bdaddr; what sndtest.c does behind a file name that overflows its
-- buffer, texts that overflow their buffers in Touchlog, a negative number of channels in sndkit.c,
-- an offset of 2^31 or more in vcom.c, negative sizes and places and a chessboard of no rows or no
-- columns, which is a division by 0, in test_lcd.c; the button of test_current.c, the C++ test of the
-- vibrator, the shell scripts, and the copies of soundcard.h and libnetutils with netcfg.c.
pub mod Common
pub mod NodeList
pub mod Wav
pub mod Sndkit
pub mod Vcom
pub mod Sndtest
pub mod Touchlog
pub mod Widget
pub mod Hci
pub mod KeyTest
pub mod TouchTest
pub mod Sensors
pub mod Lcd
