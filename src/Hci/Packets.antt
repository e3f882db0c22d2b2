-- ===== src/Hci/Packets.antt =====
-- read_event: a packet is read whole, however the port cuts it into pieces.
use test_tools.Common.{
  ℕ, zero, suc, ◌+◌, ◌-◌, ◌≤◌, ◌≡◌, refl, Bool, true, false, List, [], ◌∷◌, ◌++◌, arith, ltb,
  length, take, drop, ◌∙◌, sym, ap, Bool-cases, inl, inr, length-append, take-length-append,
  drop-length-append,
}
use test_tools.Common.Bytes.{Mem, poke, put_bytes}
use test_tools.Hci.Uart.{
  Arrival, received, failed, alarm, Port, Outcome, done, expired, read_loop, read_event,
}

-- All bytes that the port brings.
unfoldable pub stream : List Arrival → List ℕ
stream [] = []
stream (received bs ∷ rest) = bs ++ stream rest
stream (failed ∷ rest) = stream rest
stream (alarm ∷ rest) = stream rest

-- No call of `read` fails.
unfoldable pub no_failure : List Arrival → Bool
no_failure [] = true
no_failure (received bs ∷ rest) = no_failure rest
no_failure (failed ∷ rest) = false
no_failure (alarm ∷ rest) = no_failure rest

-- Of two cuts of one list the later one extends the earlier.
longer :
    (p b s e : List ℕ)
    → p ++ s ≡ b ++ e
    → length p ≤ length b
    → (c : List ℕ) × (b ≡ p ++ c) × (s ≡ c ++ e)
longer [] b s e h l = (b, refl, h)
longer (x ∷ p) [] s e h l = absurd (omega arith)
longer (x ∷ p) (y ∷ b) s e h l =
    let (c, eb, es) = longer p b s e (cc) (omega arith) in
    (c, ap (◌∷◌ y) eb ∙ ap (λ z. z ∷ p ++ c) (cc), es)

put_bytes-append :
    (i : ℕ) (p q : List ℕ) (m : Mem)
    → put_bytes i (p ++ q) m ≡ put_bytes (i + length p) q (put_bytes i p m)
unfolding put_bytes
put_bytes-append i [] q m = let e : i + 0 ≡ i = omega arith in rw e refl
put_bytes-append i (x ∷ p) q m =
    let e : i + suc (length p) ≡ i + 1 + length p = omega arith in
    rw e (put_bytes-append (i + 1) p q (poke i x m))

-- What a call that is to read the bytes `bs` from the offset i on comes to.
pub record Reads (bs extra : List ℕ) (i : ℕ) (m : Mem) (sent : List (List ℕ)) (armed : Bool)
    (r : Outcome (ℕ × Port)) : Type 0 where
  pub port : Port
  pub result : r ≡ done (i + length bs, port)
  pub buffer : port.buffer ≡ put_bytes i bs m
  pub left : stream port.input ≡ extra
  pub fine : no_failure port.input ≡ true
  pub armed_as : port.armed ≡ armed
  pub sent_as : armed ≡ false → port.sent ≡ sent

read_loop-nothing :
    (input : List Arrival) (extra : List ℕ) (i : ℕ) (m : Mem) (sent : List (List ℕ)) (armed : Bool)
    → no_failure input ≡ true
    → stream input ≡ extra
    → Reads [] extra i m sent armed (read_loop input i 0 m sent armed)
unfolding read_loop put_bytes
read_loop-nothing input extra i m sent armed f s = record {
  port = record { buffer = m; input = input; sent = sent; armed = armed };
  result = (let e : i + 0 ≡ i = omega arith in rw e refl);
  buffer = refl;
  left = s;
  fine = f;
  armed_as = refl;
  sent_as = λ h. refl;
}

take_all : (n : ℕ) (xs : List ℕ) → length xs ≤ n → take n xs ≡ xs
take_all zero [] l = refl
take_all zero (x ∷ xs) l = absurd (omega arith)
take_all (suc n) [] l = refl
take_all (suc n) (x ∷ xs) l = rw (take_all n xs (omega arith)) refl

-- The piece `p` is the first part of what is to be read, and `c` the rest of it.
read_loop-short :
    (p c extra : List ℕ) (rest : List Arrival) (n i : ℕ) (bs : List ℕ) (m : Mem)
    (sent : List (List ℕ)) (armed : Bool)
    → length bs ≡ suc n
    → bs ≡ p ++ c
    → ltb (length p) (suc n) ≡ true
    → Reads c extra
        (i + length p)
        (put_bytes i p m)
        sent
        armed
        (read_loop rest (i + length p) (length c) (put_bytes i p m) sent armed)
    → Reads bs extra i m sent armed (read_loop (received p ∷ rest) i (suc n) m sent armed)
unfolding read_loop
read_loop-short p c extra rest n i bs m sent armed el e l x =
    let ec : length bs ≡ length p + length c = ap length e ∙ length-append p c in
    let et : take (suc n) p ≡ p = take_all (suc n) p (ground arith) in
    let en : suc n - length p ≡ length c = omega arith in
    let ei : i + length p + length c ≡ i + length bs = omega arith in
    record {
      port = x.port;
      result = rw (l, et, en) (x.result ∙ rw ei refl);
      buffer = x.buffer ∙ sym (put_bytes-append i p c m) ∙ ap (λ l. put_bytes i l m) (sym e);
      left = x.left;
      fine = x.fine;
      armed_as = x.armed_as;
      sent_as = x.sent_as;
    }

-- The piece holds all that is to be read, and `c` behind it.
read_loop-long :
    (c extra : List ℕ) (rest : List Arrival) (n i : ℕ) (bs : List ℕ) (m : Mem)
    (sent : List (List ℕ)) (armed : Bool)
    → length bs ≡ suc n
    → extra ≡ c ++ stream rest
    → no_failure rest ≡ true
    → Reads bs extra i m sent armed (read_loop (received (bs ++ c) ∷ rest) i (suc n) m sent armed)
unfolding read_loop stream no_failure
read_loop-long c extra rest n i bs m sent armed el es f =
    let l : ltb (length (bs ++ c)) (suc n) ≡ false = ground (arith, length-append bs c) in
    let et : take (suc n) (bs ++ c) ≡ bs = rw (sym el) (take-length-append bs c) in
    let ed : drop (suc n) (bs ++ c) ≡ c = rw (sym el) (drop-length-append bs c) in
    record {
      port = record {
        buffer = put_bytes i bs m;
        input = received c ∷ rest;
        sent = sent;
        armed = armed;
      };
      result = rw (l, et, ed, el) refl;
      buffer = refl;
      left = sym es;
      fine = f;
      armed_as = refl;
      sent_as = λ h. refl;
    }

read_loop-Reads :
    (input : List Arrival) (bs extra : List ℕ) (i : ℕ) (m : Mem) (sent : List (List ℕ))
    (armed : Bool)
    → no_failure input ≡ true
    → stream input ≡ bs ++ extra
    → Reads bs extra i m sent armed (read_loop input i (length bs) m sent armed)
unfolding read_loop stream no_failure
read_loop-Reads input [] extra i m sent armed f s = read_loop-nothing input extra i m sent armed f s
read_loop-Reads [] (b ∷ bs) extra i m sent armed f s = cc
read_loop-Reads (failed ∷ rest) (b ∷ bs) extra i m sent armed f s = cc
read_loop-Reads (alarm ∷ rest) (b ∷ bs) extra i m sent true f s =
    let x =
      read_loop-Reads rest (b ∷ bs) extra i m
        (expired (record { buffer = m; input = rest; sent = sent; armed = true })).sent true f s in
    record {
      port = x.port;
      result = x.result;
      buffer = x.buffer;
      left = x.left;
      fine = x.fine;
      armed_as = x.armed_as;
      sent_as = λ h. cc;
    }
read_loop-Reads (alarm ∷ rest) (b ∷ bs) extra i m sent false f s =
    read_loop-Reads rest (b ∷ bs) extra i m sent false f s
read_loop-Reads (received p ∷ rest) (b ∷ bs) extra i m sent armed f s =
    elim (Bool-cases (ltb (length p) (length (b ∷ bs)))) [
      | inl l ↦
          let (c, e, es) = longer p (b ∷ bs) (stream rest) extra s (ground arith) in
          read_loop-short p c extra rest (length bs) i (b ∷ bs) m sent armed refl e l
            (read_loop-Reads rest c extra (i + length p) (put_bytes i p m) sent armed f es)
      | inr l ↦
          let (c, e, es) = longer (b ∷ bs) p extra (stream rest) (sym s) (ground arith) in
          rw e (read_loop-long c extra rest (length bs) i (b ∷ bs) m sent armed refl es f)
    ]

-- If the port brings a packet, three bytes of which the last is the number of the bytes behind them,
-- and no call of `read` fails, then read_event returns the packet's length with the packet in
-- `buffer` and all that follows it still to be read, however the bytes are cut into pieces and
-- however often the alarm comes in between.
pub read_event-Reads :
    (s : Port) (a b n : ℕ) (params extra : List ℕ)
    → no_failure s.input ≡ true
    → stream s.input ≡ (a ∷ b ∷ n ∷ params) ++ extra
    → length params ≡ n
    → Reads (a ∷ b ∷ n ∷ params) extra 0 s.buffer s.sent s.armed (read_event s)
unfolding read_event put_bytes
read_event-Reads s a b n params extra f e el =
    let x =
      read_loop-Reads s.input (a ∷ b ∷ n ∷ []) (params ++ extra) 0 s.buffer s.sent s.armed f e in
    let m1 = put_bytes 0 (a ∷ b ∷ n ∷ []) s.buffer in
    let y =
      read_loop-Reads x.port.input params extra 3 x.port.buffer x.port.sent x.port.armed x.fine
        x.left in
    let en : x.port.buffer 2 ≡ length params = rw (x.buffer) (unfold poke in sym el) in
    record {
      port = y.port;
      result =
          rw (x.result) (rw en (y.result ∙ ap (λ k. done (k, y.port)) (count (length params))));
      buffer = y.buffer ∙ ap (put_bytes 3 params) x.buffer;
      left = y.left;
      fine = y.fine;
      armed_as = y.armed_as ∙ x.armed_as;
      sent_as = λ h. y.sent_as (x.armed_as ∙ h) ∙ x.sent_as h;
    }
  where
    count : (k : ℕ) → 3 + k ≡ 0 + suc (suc (suc k))
    count k = omega arith
