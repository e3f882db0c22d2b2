-- ===== src/Hci/Patchram.antt =====
-- proc_patchram of test_bluetooth.c as a whole.
use test_tools.Common.{
  ℕ, zero, suc, ◌+◌, ◌-◌, ◌≡◌, refl, Bool, true, false, List, [], ◌∷◌, ◌++◌, ◌==◌, length, arith,
  ◌∙◌, subst, ltb, take, append_assoc, Bool-cases, inl, inr,
}
use test_tools.Common.Bytes.{Mem, put_bytes}
use test_tools.Hci.Uart.{
  Arrival, received, failed, alarm, Port, Outcome, done, waits, outside, ◌>>=◌, hci_reset,
  hci_send_cmd, expired, read_loop, read_event,
}
use test_tools.Hci.Commands.{success_hci_reset_recevied, check_seven, proc_reset}
use test_tools.Hci.Options.{Settings}
use test_tools.Hci.Download.{hci_download_minidriver, proc_patchram}
use test_tools.Hci.Packets.{stream, no_failure, read_event-Reads}
use test_tools.Hci.Replies.{Packet, wire}
use test_tools.Hci.Firmware.{
  Record, file_of, commands_of, answers_to, command-Sent, download_loop-Sent,
}

-- The commands sent are the old ones and some more resets, which the alarm sends again.
pub data Resets : List (List ℕ) → List (List ℕ) → Type 0 where
  no_more : {old : List (List ℕ)} → Resets old old
  one_more : {old new : List (List ℕ)} → Resets (old ++ hci_reset ∷ []) new → Resets old new

abbrev Ends : (Port → Type 0) → Outcome (ℕ × Port) → Type 0
Ends q (done (n, s)) = q s
Ends q waits = Unit
Ends q outside = Unit

Ends-map :
    {q r : Port → Type 0} (o : Outcome (ℕ × Port)) → ((s : Port) → q s → r s) → Ends q o → Ends r o
Ends-map (done (n, s)) f e = f s e
Ends-map waits f e = tt
Ends-map outside f e = tt

Ends-bind :
    {q : Port → Type 0} (r : Port → Type 0) (o : Outcome (ℕ × Port))
    (k : ℕ × Port → Outcome (ℕ × Port))
    → Ends q o
    → ((n : ℕ) (s : Port) → q s → Ends r (k (n, s)))
    → Ends r (o >>= k)
Ends-bind r (done (n, s)) k e f = f n s e
Ends-bind r waits k e f = tt
Ends-bind r outside k e f = tt

Resets-trans : {a b c : List (List ℕ)} → Resets a b → Resets b c → Resets a c
Resets-trans no_more r = r
Resets-trans (one_more q) r = one_more (Resets-trans q r)

read_loop-Resets :
    (input : List Arrival) (i len : ℕ) (m : Mem) (sent : List (List ℕ)) (armed : Bool)
    → Ends (λ s. Resets sent s.sent) (read_loop input i len m sent armed)
unfolding read_loop expired hci_send_cmd
read_loop-Resets input i zero m sent armed = no_more
read_loop-Resets [] i (suc n) m sent armed = tt
read_loop-Resets (received bs ∷ rest) i (suc n) m sent armed =
    elim (Bool-cases (ltb (length bs) (suc n))) [
      | inl l ↦ rw l (
          read_loop-Resets rest (i + length bs) (suc n - length bs)
            (put_bytes i (take (suc n) bs) m) sent armed)
      | inr l ↦ rw l no_more
    ]
read_loop-Resets (failed ∷ rest) zero (suc n) m sent armed = tt
read_loop-Resets (failed ∷ rest) (suc i) (suc n) m sent armed =
    read_loop-Resets rest i (suc (suc n)) m sent armed
read_loop-Resets (alarm ∷ rest) i (suc n) m sent true =
    Ends-map (read_loop rest i (suc n) m (sent ++ hci_reset ∷ []) true) (λ s r. one_more r)
      (read_loop-Resets rest i (suc n) m (sent ++ hci_reset ∷ []) true)
read_loop-Resets (alarm ∷ rest) i (suc n) m sent false =
    read_loop-Resets rest i (suc n) m sent false

read_event-Resets : (s : Port) → Ends (λ t. Resets s.sent t.sent) (read_event s)
unfolding read_event
read_event-Resets s =
    Ends-bind (λ u. Resets s.sent u.sent) (read_loop s.input 0 3 s.buffer s.sent s.armed) _
      (read_loop-Resets s.input 0 3 s.buffer s.sent s.armed)
      λ n t r.
        Ends-map (read_loop t.input n (t.buffer 2) t.buffer t.sent t.armed)
          (λ u r'. Resets-trans r r')
          (read_loop-Resets t.input n (t.buffer 2) t.buffer t.sent t.armed)

-- What proc_reset leaves.
record WasReset (s : Port) (extra : List ℕ) : Type 0 where
  port : Port
  r : ℕ
  result : proc_reset s ≡ done (r, port)
  sent : Resets (s.sent ++ hci_reset ∷ []) port.sent
  left : stream port.input ≡ extra
  armed : port.armed ≡ false

proc_reset-WasReset :
    (s : Port) (p : Packet) (extra : List ℕ)
    → no_failure s.input ≡ true
    → stream s.input ≡ wire p ++ extra
    → WasReset s extra
unfolding proc_reset hci_send_cmd
proc_reset-WasReset s p extra f e =
    let s' : Port = record (hci_send_cmd hci_reset s) { armed = true } in
    let x = read_event-Reads s' p.indicator p.event (length p.params) p.params extra f e refl in
    let port : Port = record (x.port) { armed = false } in
    record {
      port = port;
      r = check_seven success_hci_reset_recevied (0 + length (wire p), port);
      result = rw (x.result) refl;
      sent = subst (Ends (λ t. Resets s'.sent t.sent)) x.result (read_event-Resets s');
      left = x.left;
      armed = refl;
    }

regroup : (a b c d : List (List ℕ)) → ((a ++ b) ++ c) ++ d ≡ a ++ (b ++ (c ++ d))
regroup a b c d = append_assoc (a ++ b) c d ∙ append_assoc a b (c ++ d)

-- If the option for the two extra bytes is off, the firmware file is a sequence of records, the port
-- brings one packet for the first command, one for each record and one for the reset, whatever
-- follows, no call of `read` fails and the alarm is not set, then proc_patchram ends; it has sent the
-- command that starts the download, each record with the byte 1 in front, in order, the reset, and
-- then nothing but more resets, which the alarm sends; the answers are read and the alarm is off.
pub proc_patchram-Sent :
    (o : Settings) (rs : List Record) (ps : List Packet) (p q : Packet) (extra : List ℕ) (s : Port)
    → (o.no2bytes == 0) ≡ false
    → length ps ≡ length rs
    → no_failure s.input ≡ true
    → stream s.input ≡ wire p ++ answers_to rs ps (wire q ++ extra)
    → s.armed ≡ false
    → (port : Port) × (proc_patchram o (file_of rs) s ≡ done port)
      × Resets (s.sent ++ (hci_download_minidriver ∷ (commands_of rs ++ hci_reset ∷ []))) port.sent
      × (stream port.input ≡ extra)
      × (port.armed ≡ false)
unfolding proc_patchram
proc_patchram-Sent o rs ps p q extra s no2 lp f e a =
    let x = command-Sent hci_download_minidriver s p (answers_to rs ps (wire q ++ extra)) f e a in
    let y =
      download_loop-Sent (length (file_of rs) + 1) rs ps (wire q ++ extra) x.port (omega arith) lp
        x.fine x.left x.armed in
    let z = proc_reset-WasReset y.port q extra y.fine y.left in
    (
      z.port,
      rw (x.result, no2, y.result, z.result) refl,
      subst (λ l. Resets l z.port.sent)
          (rw (y.sent, x.sent)
            (regroup s.sent (hci_download_minidriver ∷ []) (commands_of rs) (hci_reset ∷ [])))
          z.sent,
      z.left,
      z.armed,
    )
