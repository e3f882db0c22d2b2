-- ===== src/Touchlog/EventNum.antt =====
-- test_eventnum.c: the number of the event device that belongs to a name, from a log with two lines for
-- each device.
use test_tools.Common.{
  ℕ, zero, suc, ◌<◌, ◌≡◌, true, false, not, ◌||◌, Option, none, some, List, [], ◌∷◌, ◌++◌, ◌==◌,
  if◌then◌else◌, drop, length, All, arith, ap, ◌∙◌,
}
use test_tools.Common.Int.{ℤ, pos, negsuc, ltb_ℤ}
use test_tools.Common.Text.{bytes, strstr, contains}
use test_tools.Touchlog.{Piece}

-- What is returned for the two lines of the device.
abbrev pub number_of : (List ℕ → ℤ) → Option (List ℕ) → ℤ
number_of atoi none = negsuc 0
number_of atoi (some dev_str) =
    let event_num = atoi (drop 5 dev_str) in
    if ltb_ℤ event_num (pos 0) || not (ltb_ℤ event_num (pos 10)) then negsuc 0 else event_num

-- The loop in `n` more turns, each of two rows.
pub event_rows : (List ℕ → ℤ) → (dev : List ℕ) → ℕ → List Piece → ℤ
event_rows atoi dev zero pieces = negsuc 0
event_rows atoi dev (suc n) [] = negsuc 0
event_rows atoi dev (suc n) (p ∷ []) = negsuc 0
event_rows atoi dev (suc n) (p ∷ q ∷ pieces) = elim (contains q.text dev) [
  | true ↦ number_of atoi (strstr p.text (bytes "event"))
  | false ↦ elim q.at_end [ true ↦ negsuc 0 | false ↦ event_rows atoi dev n pieces ]
]

-- `main`; `pieces` is `none` where the file does not open. Twelve rows are six turns.
pub test_eventnum : (List ℕ → ℤ) → (argc : ℕ) (dev : List ℕ) → Option (List Piece) → ℤ
test_eventnum atoi argc dev none = negsuc 0
test_eventnum atoi argc dev (some pieces) =
    if not (argc == 3) then negsuc 0 else event_rows atoi dev 6 pieces

abbrev pub pairs : List (Piece × Piece) → List Piece
pairs [] = []
pairs ((p, q) ∷ ps) = p ∷ q ∷ pairs ps

-- Pairs of lines that do not have the name, and do not end the file.
abbrev pub Others : List ℕ → List (Piece × Piece) → Type 0
Others dev ps = All (λ x. (contains x.1.text dev ≡ false) × (x.1.at_end ≡ false)) ps

event_rows-found :
    (atoi : List ℕ → ℤ) (dev : List ℕ) (n : ℕ) (before : List (Piece × Piece)) (p q : Piece)
    (after : List Piece) (rest : List ℕ) (k : ℕ)
    → length before < n
    → Others dev before
    → contains q.text dev ≡ true
    → strstr p.text (bytes "event") ≡ some rest
    → atoi (drop 5 rest) ≡ pos k
    → k < 10
    → event_rows atoi dev n (pairs before ++ p ∷ q ∷ after) ≡ pos k
unfolding event_rows
event_rows-found atoi dev zero before p q after rest k lt o c e a small = absurd (omega arith)
event_rows-found atoi dev (suc n) [] p q after rest k lt o c e a small =
    rw (event_rows, c) (ap (number_of atoi) e ∙ rw a (ground arith))
event_rows-found atoi dev (suc n) ((p', q') ∷ before) p q after rest k lt ((other, more), o) c e a
      small =
    rw (event_rows, other, more)
      (event_rows-found atoi dev n before p q after rest k (omega arith) o c e a small)

-- If a log that opens has up to five pairs of lines of other devices, and then a pair whose second
-- line has the name and whose first has "event" with a number below 10 behind it, the exit status is
-- that number, whatever follows.
pub test_eventnum-found :
    (atoi : List ℕ → ℤ) (dev : List ℕ) (before : List (Piece × Piece)) (p q : Piece)
    (after : List Piece) (rest : List ℕ) (k : ℕ)
    → length before < 6
    → Others dev before
    → contains q.text dev ≡ true
    → strstr p.text (bytes "event") ≡ some rest
    → atoi (drop 5 rest) ≡ pos k
    → k < 10
    → test_eventnum atoi 3 dev (some (pairs before ++ p ∷ q ∷ after)) ≡ pos k
unfolding test_eventnum
test_eventnum-found atoi dev before p q after rest k lt o c e a small =
    event_rows-found atoi dev 6 before p q after rest k lt o c e a small
