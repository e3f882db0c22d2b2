-- ===== src/Hci/Uart.antt =====
-- The serial port of test_bluetooth.c: hci_send_cmd, read_event and the alarm. The model is given in
-- advance what the calls of `read` on the port meet, in order: bytes, a failure, or the alarm that
-- `expired` handles while the call waits (`signal` restarts it).
use test_tools.Common.{
  ℕ, zero, suc, ◌+◌, ◌-◌, Bool, List, [], ◌∷◌, ◌++◌, if◌then◌else◌, ltb, length, take, drop,
}
use test_tools.Common.Bytes.{Mem, put_bytes}

pub data Arrival : Type 0 where
  received : List ℕ → Arrival
  failed : Arrival
  alarm : Arrival

-- `waits`: a call of `read` does not come back. `outside`: the program writes in front of `buffer`.
pub data Outcome (A : Type 0) : Type 0 where
  done : A → Outcome A
  waits : Outcome A
  outside : Outcome A

infixl 5 ◌>>=◌
abbrev pub ◌>>=◌ : {A B : Type 0} → Outcome A → (A → Outcome B) → Outcome B
done a >>= f = f a
waits >>= f = waits
outside >>= f = outside

-- `buffer`, the arrivals to come, the commands written so far and whether the alarm is set.
pub record Port : Type 0 where
  pub buffer : Mem
  pub input : List Arrival
  pub sent : List (List ℕ)
  pub armed : Bool

abbrev pub hci_reset : List ℕ
hci_reset = 0x01 ∷ 0x03 ∷ 0x0c ∷ 0x00 ∷ []

unfoldable pub hci_send_cmd : List ℕ → Port → Port
hci_send_cmd cmd s = record s { sent = s.sent ++ cmd ∷ [] }

unfoldable pub expired : Port → Port
unfolding hci_send_cmd
expired s = hci_send_cmd hci_reset s

-- `while ((count = read(fd, &buffer[i], len)) < len) { i += count; len -= count; }` with the value of
-- `i + count` behind the loop. A call for no bytes comes back at once. A failure, -1, is added too.
unfoldable pub read_loop :
    List Arrival → (i len : ℕ) → Mem → List (List ℕ) → Bool → Outcome (ℕ × Port)
unfolding expired hci_send_cmd
read_loop input i zero m sent armed =
    done (i, record { buffer = m; input = input; sent = sent; armed = armed })
read_loop [] i (suc n) m sent armed = waits
read_loop (received bs ∷ rest) i (suc n) m sent armed =
    let m' = put_bytes i (take (suc n) bs) m in
    let more = read_loop rest (i + length bs) (suc n - length bs) m' sent armed in
    if ltb (length bs) (suc n)
    then more
    else done (
      i + suc n,
      record { buffer = m'; input = received (drop (suc n) bs) ∷ rest; sent = sent; armed = armed },
    )
read_loop (failed ∷ rest) zero (suc n) m sent armed = outside
read_loop (failed ∷ rest) (suc i) (suc n) m sent armed = read_loop rest i (suc (suc n)) m sent armed
read_loop (alarm ∷ rest) i (suc n) m sent armed =
    let s : Port = record { buffer = m; input = rest; sent = sent; armed = armed } in
    read_loop rest i (suc n) m (if armed then (expired s).sent else sent) armed

-- The number of bytes and the port.
unfoldable pub read_event : Port → Outcome (ℕ × Port)
unfolding read_loop
read_event s = do
  (i, s') ← read_loop s.input 0 3 s.buffer s.sent s.armed
  read_loop s'.input i (s'.buffer 2) s'.buffer s'.sent s'.armed
