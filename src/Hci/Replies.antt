-- ===== src/Hci/Replies.antt =====
-- What each command makes of the packet that answers it.
use test_tools.Common.{
  ℕ, zero, suc, ◌+◌, ◌<◌, ◌≡◌, refl, Bool, true, false, ◌&&◌, List, [], ◌∷◌, ◌++◌, arith, ◌==◌,
  if◌then◌else◌, length, get_or, ◌∙◌, ap, Bool-cases, inl, inr, ==_refl,
}
use test_tools.Common.Bytes.{put_bytes-below, Mem, poke, put_bytes, has_bytes}
use test_tools.Hci.Uart.{Port, Outcome, done, hci_send_cmd, hci_reset, read_event}
use test_tools.Hci.Commands.{
  success_hci_reset_recevied, success_hci_set_event_filter_recevied,
  success_hci_write_scan_enable_recevied, success_hci_enable_device_under_test_mode_recevied,
  memcmp, check_seven, proc_reset, proc_read_bd_addr, proc_set_event_filter, proc_write_scan_enable,
  proc_enable_device_under_test_mode, hci_read_bd_addr, hci_set_event_filter, hci_write_scan_enable,
  hci_enable_device_under_test_mode,
}
use test_tools.Hci.Packets.{stream, no_failure, read_event-Reads}

-- An event: its two first bytes, and the bytes behind its length.
pub record Packet : Type 0 where
  pub indicator : ℕ
  pub event : ℕ
  pub params : List ℕ

abbrev pub wire : Packet → List ℕ
wire p = p.indicator ∷ p.event ∷ length p.params ∷ p.params

abbrev pub eqb_list : List ℕ → List ℕ → Bool
eqb_list [] [] = true
eqb_list (x ∷ xs) (y ∷ ys) = (x == y) && eqb_list xs ys
eqb_list _ _ = false

-- An answer of 13 bytes with the status 0 in the byte number 6.
abbrev pub is_address : List ℕ → Bool
is_address bs = (length bs == 13) && (get_or bs 6 1 == 0)

-- 0 for an answer that is accepted.
abbrev pub code : Bool → ℕ
code accepted = if accepted then 0 else 1

has_bytes-put_bytes :
    (i : ℕ) (p e : List ℕ) (m : Mem)
    → length p ≡ length e
    → has_bytes (put_bytes i p m) i e ≡ eqb_list p e
unfolding has_bytes put_bytes
has_bytes-put_bytes i [] [] m l = refl
has_bytes-put_bytes i [] (y ∷ e) m l = absurd (omega arith)
has_bytes-put_bytes i (x ∷ p) [] m l = absurd (omega arith)
has_bytes-put_bytes i (x ∷ p) (y ∷ e) m l =
    let h : put_bytes (i + 1) p (poke i x m) i ≡ x =
      put_bytes-below (i + 1) p (poke i x m) i (omega arith)
      ∙ (unfold poke in rw (==_refl i) refl) in
    rw (h, has_bytes-put_bytes (i + 1) p e (poke i x m) (omega arith)) refl

eqb_list-length : (p e : List ℕ) → eqb_list p e ≡ true → length p ≡ length e
eqb_list-length [] [] h = refl
eqb_list-length [] (y ∷ e) h = cc
eqb_list-length (x ∷ p) [] h = cc
eqb_list-length (x ∷ p) (y ∷ e) h = ap suc (eqb_list-length p e (ground arith))

put_bytes-at :
    (i k : ℕ) (p : List ℕ) (m : Mem) (d : ℕ) → k < length p → put_bytes i p m (i + k) ≡ get_or p k d
unfolding put_bytes
put_bytes-at i k [] m d l = absurd (omega arith)
put_bytes-at i zero (x ∷ p) m d l =
    put_bytes-below (i + 1) p (poke i x m) (i + 0) (omega arith) ∙ (unfold poke in ground arith)
put_bytes-at i (suc k) (x ∷ p) m d l =
    let e : i + suc k ≡ i + 1 + k = omega arith in
    rw e (put_bytes-at (i + 1) k p (poke i x m) d (omega arith))

check_seven_lem :
    (expected p : List ℕ) (m : Mem) (s : Port)
    → length expected ≡ 7
    → s.buffer ≡ put_bytes 0 p m
    → check_seven expected (0 + length p, s) ≡ code (eqb_list p expected)
unfolding check_seven memcmp
check_seven_lem expected p m s le e = elim (Bool-cases (0 + length p == 7)) [
  | inl h ↦ rw (h, e, has_bytes-put_bytes 0 p expected m (ground arith)) refl
  | inr h ↦ elim (Bool-cases (eqb_list p expected)) [
    | inl g ↦ absurd (let l = eqb_list-length p expected g in ground arith)
    | inr g ↦ rw (h, g) refl
  ]
]

check_address_lem :
    (p : List ℕ) (m : Mem) (s : Port)
    → s.buffer ≡ put_bytes 0 p m
    → (if 0 + length p == 13 then memcmp s.buffer 6 (0 ∷ []) else 1) ≡ code (is_address p)
unfolding memcmp has_bytes
check_address_lem p m s e = elim (Bool-cases (0 + length p == 13)) [
  | inl h ↦
      let h' : (length p == 13) ≡ true = ground arith in
      let v : put_bytes 0 p m 6 ≡ get_or p 6 1 = put_bytes-at 0 6 p m 1 (ground arith) in
      rw (h, h', e, v) (ground arith)
  | inr h ↦ let h' : (length p == 13) ≡ false = ground arith in rw (h, h') refl
]

-- What a command comes to that is answered: `r` with the rest of the bytes still to be read.
pub record Answered (r : ℕ) (extra : List ℕ) (o : Outcome (ℕ × Port)) : Type 0 where
  pub port : Port
  pub result : o ≡ done (r, port)
  pub left : stream port.input ≡ extra
  pub fine : no_failure port.input ≡ true

module _ (s : Port) (p : Packet) (extra : List ℕ) (fine : no_failure s.input ≡ true)
    (brings : stream s.input ≡ wire p ++ extra) where
  pub proc_reset-Answered :
      Answered (code (eqb_list (wire p) success_hci_reset_recevied)) extra (proc_reset s)
  unfolding proc_reset hci_send_cmd
  proc_reset-Answered =
      let x =
        read_event-Reads (record (hci_send_cmd hci_reset s) { armed = true }) p.indicator p.event
          (length p.params) p.params extra fine brings refl in
      let port : Port = record (x.port) { armed = false } in
      record {
        port = port;
        result = rw (x.result) (
            ap (λ r. done (r, port))
              (check_seven_lem success_hci_reset_recevied (wire p) s.buffer port refl x.buffer));
        left = x.left;
        fine = x.fine;
      }

  pub proc_read_bd_addr-Answered : Answered (code (is_address (wire p))) extra (proc_read_bd_addr s)
  unfolding proc_read_bd_addr hci_send_cmd
  proc_read_bd_addr-Answered =
      let x =
        read_event-Reads (hci_send_cmd hci_read_bd_addr s) p.indicator p.event (length p.params)
          p.params extra fine brings refl in
      record {
        port = x.port;
        result =
            rw (x.result)
              (ap (λ r. done (r, x.port)) (check_address_lem (wire p) s.buffer x.port x.buffer));
        left = x.left;
        fine = x.fine;
      }

  -- The commands whose answer is compared as a whole.
  seven-Answered :
      (cmd expected : List ℕ) (o : Outcome (ℕ × Port))
      → length expected ≡ 7
      → ((c : ℕ) (u : Port)
          → read_event (hci_send_cmd cmd s) ≡ done (c, u)
          → o ≡ done (check_seven expected (c, u), u))
      → Answered (code (eqb_list (wire p) expected)) extra o
  unfolding hci_send_cmd
  seven-Answered cmd expected o le step =
      let x =
        read_event-Reads (hci_send_cmd cmd s) p.indicator p.event (length p.params) p.params extra
          fine brings refl in
      record {
        port = x.port;
        result =
            step _ x.port x.result
            ∙ ap (λ r. done (r, x.port))
                (check_seven_lem expected (wire p) s.buffer x.port le x.buffer);
        left = x.left;
        fine = x.fine;
      }

  pub proc_set_event_filter-Answered :
      Answered
        (code (eqb_list (wire p) success_hci_set_event_filter_recevied))
        extra
        (proc_set_event_filter s)
  unfolding proc_set_event_filter
  proc_set_event_filter-Answered =
      seven-Answered hci_set_event_filter success_hci_set_event_filter_recevied _ refl
        λ c u e. rw e refl

  pub proc_write_scan_enable-Answered :
      Answered
        (code (eqb_list (wire p) success_hci_write_scan_enable_recevied))
        extra
        (proc_write_scan_enable s)
  unfolding proc_write_scan_enable
  proc_write_scan_enable-Answered =
      seven-Answered hci_write_scan_enable success_hci_write_scan_enable_recevied _ refl
        λ c u e. rw e refl

  pub proc_enable_device_under_test_mode-Answered :
      Answered
        (code (eqb_list (wire p) success_hci_enable_device_under_test_mode_recevied))
        extra
        (proc_enable_device_under_test_mode s)
  unfolding proc_enable_device_under_test_mode
  proc_enable_device_under_test_mode-Answered =
      seven-Answered hci_enable_device_under_test_mode
        success_hci_enable_device_under_test_mode_recevied _ refl λ c u e. rw e refl
