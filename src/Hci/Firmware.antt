-- ===== src/Hci/Firmware.antt =====
-- The download sends a firmware file record by record.
use test_tools.Common.{
  ℕ, zero, suc, ◌+◌, ◌<◌, ◌≡◌, refl, true, false, List, [], ◌∷◌, ◌++◌, ◌==◌, length, arith, ◌∙◌,
  sym, append_assoc, append-nil, length-append, take-length-append, drop-length-append,
}
use test_tools.Common.Bytes.{peek, peek-put_bytes, put_bytes-below, Mem, poke, put_bytes}
use test_tools.Hci.Uart.{Port, Outcome, done, ◌>>=◌, hci_send_cmd}
use test_tools.Hci.Download.{command, download_loop}
use test_tools.Hci.Packets.{stream, no_failure, read_event-Reads}
use test_tools.Hci.Replies.{Packet, wire}

-- A record of the file: two bytes for the operation, and the parameters behind their number.
pub record Record : Type 0 where
  pub low : ℕ
  pub high : ℕ
  pub params : List ℕ

-- The record in the file; the command for it has the byte 1 in front.
abbrev pub in_file : Record → List ℕ
in_file r = r.low ∷ r.high ∷ length r.params ∷ r.params

abbrev pub file_of : List Record → List ℕ
file_of [] = []
file_of (r ∷ rs) = in_file r ++ file_of rs

abbrev pub commands_of : List Record → List (List ℕ)
commands_of [] = []
commands_of (r ∷ rs) = (1 ∷ in_file r) ∷ commands_of rs

-- One answer for each record, whatever follows.
abbrev pub answers_to : List Record → List Packet → List ℕ → List ℕ
answers_to [] ps extra = extra
answers_to (r ∷ rs) [] extra = extra
answers_to (r ∷ rs) (p ∷ ps) extra = wire p ++ answers_to rs ps extra

-- What the commands leave: they have been sent, and the answers read.
pub record Sent (s : Port) (cmds : List (List ℕ)) (extra : List ℕ) (o : Outcome Port) : Type 0 where
  pub port : Port
  pub result : o ≡ done port
  pub sent : port.sent ≡ s.sent ++ cmds
  pub left : stream port.input ≡ extra
  pub fine : no_failure port.input ≡ true
  pub armed : port.armed ≡ false

pub command-Sent :
    (cmd : List ℕ) (s : Port) (p : Packet) (extra : List ℕ)
    → no_failure s.input ≡ true
    → stream s.input ≡ wire p ++ extra
    → s.armed ≡ false
    → Sent s (cmd ∷ []) extra (command cmd s)
unfolding command hci_send_cmd
command-Sent cmd s p extra f e a =
    let x =
      read_event-Reads (hci_send_cmd cmd s) p.indicator p.event (length p.params) p.params extra f e
        refl in
    record {
      port = x.port;
      result = rw (x.result) refl;
      sent = x.sent_as a;
      left = x.left;
      fine = x.fine;
      armed = x.armed_as ∙ a;
    }

-- `buffer` with the record `r` behind a first byte 1.
abbrev loaded : Record → Mem → Mem
loaded r m = put_bytes 4 r.params (poke 0 1 (put_bytes 1 (r.low ∷ r.high ∷ length r.params ∷ []) m))

peek-loaded : (r : Record) (m : Mem) → peek (loaded r m) (length r.params + 4) 0 ≡ 1 ∷ in_file r
unfolding peek
peek-loaded r m =
    let m1 = poke 0 1 (put_bytes 1 (r.low ∷ r.high ∷ length r.params ∷ []) m) in
    let e : length r.params + 4 ≡ suc (suc (suc (suc (length r.params)))) = omega arith in
    let b0 : loaded r m 0 ≡ 1 =
      put_bytes-below 4 r.params m1 0 (omega arith) ∙ (unfold poke put_bytes in refl) in
    let b1 : loaded r m 1 ≡ r.low =
      put_bytes-below 4 r.params m1 1 (omega arith) ∙ (unfold poke put_bytes in refl) in
    let b2 : loaded r m 2 ≡ r.high =
      put_bytes-below 4 r.params m1 2 (omega arith) ∙ (unfold poke put_bytes in refl) in
    let b3 : loaded r m 3 ≡ length r.params =
      put_bytes-below 4 r.params m1 3 (omega arith) ∙ (unfold poke put_bytes in refl) in
    rw (e, b0, b1, b2, b3, peek-put_bytes 4 r.params m1) refl

-- One turn of the loop, on a record and what follows it in the file.
download_loop-record :
    (k : ℕ) (r : Record) (file : List ℕ) (s : Port)
    → download_loop (suc k) (in_file r ++ file) s ≡ (
        command (1 ∷ in_file r) (record s { buffer = loaded r s.buffer }) >>= λ s'.
        download_loop k file s')
unfolding download_loop
download_loop-record k r file s =
    let m1 = poke 0 1 (put_bytes 1 (r.low ∷ r.high ∷ length r.params ∷ []) s.buffer) in
    let e : m1 3 ≡ length r.params = (unfold poke put_bytes in refl) in
    let ez : (length (in_file r ++ file) == 0) ≡ false = ground arith in
    rw
      (
        ez,
        e,
        take-length-append r.params file,
        drop-length-append r.params file,
        peek-loaded r s.buffer,
      )
      refl

-- If a firmware file is a sequence of records, and the port brings one packet for each, the alarm is
-- not set and no call of `read` fails, then the download ends with fuel for the length of the file;
-- it has sent each record with the byte 1 in front, in order and nothing else, and read the answers.
pub download_loop-Sent :
    (k : ℕ) (rs : List Record) (ps : List Packet) (extra : List ℕ) (s : Port)
    → length (file_of rs) < k
    → length ps ≡ length rs
    → no_failure s.input ≡ true
    → stream s.input ≡ answers_to rs ps extra
    → s.armed ≡ false
    → Sent s (commands_of rs) extra (download_loop k (file_of rs) s)
unfolding download_loop
download_loop-Sent zero rs ps extra s lk lp f e a = absurd (omega arith)
download_loop-Sent (suc k) [] ps extra s lk lp f e a = record {
  port = s;
  result = refl;
  sent = sym (append-nil s.sent);
  left = e;
  fine = f;
  armed = a;
}
download_loop-Sent (suc k) (r ∷ rs) [] extra s lk lp f e a = absurd (omega arith)
download_loop-Sent (suc k) (r ∷ rs) (p ∷ ps) extra s lk lp f e a =
    let m2 = loaded r s.buffer in
    let x =
      command-Sent (1 ∷ in_file r) (record s { buffer = m2 }) p (answers_to rs ps extra) f e a in
    let y =
      download_loop-Sent k rs ps extra x.port (omega (arith, length-append r.params (file_of rs)))
        (omega arith) x.fine x.left x.armed in
    record {
      port = y.port;
      result = download_loop-record k r (file_of rs) s ∙ rw (x.result) (y.result);
      sent = y.sent ∙ rw (x.sent, append_assoc) refl;
      left = y.left;
      fine = y.fine;
      armed = y.armed;
    }
