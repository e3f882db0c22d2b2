-- ===== src/Sensors/Events/Passed.antt =====
-- Which logs pass the three tests on events.
use test_tools.Common.{
  ℕ, zero, suc, ◌+◌, ◌≤◌, ◌≡◌, ◌↔◌, refl, Bool, true, false, not, ◌||◌, ◌&&◌, Option, none, some,
  List, [], ◌∷◌, arith, if◌then◌else◌, Bool-cases, Option-cases, inl, inr, ◌⊎◌, ◌∙◌, sym, ap,
}
use test_tools.Common.Int.{pos, negsuc}
use test_tools.Common.Bind.{◌>>=◌}
use test_tools.Common.Text.{is_prefix}
use test_tools.Touchlog.{Piece}
use test_tools.Sensors.Events.{Names, sync_line, is_event, check_row, check_rows, main}

-- The lines that are read of a log with at most `n` lines to read: up to the one that ends the file.
-- `none` if the file ends without having said so.
pub lines_of : ℕ → List Piece → Option (List (List ℕ))
lines_of zero pieces = some []
lines_of (suc n) [] = none
lines_of (suc n) (p ∷ pieces) = do
  rest ← elim p.at_end [ true ↦ some [] | false ↦ lines_of n pieces ]
  some (p.text ∷ rest)

abbrev pub is_sync : Names → List ℕ → Bool
is_sync ns t = not (is_event ns t) && is_prefix sync_line t

-- Each line is an event of the sensor or a sync.
pub every_known : Names → List (List ℕ) → Bool
every_known ns [] = true
every_known ns (t ∷ ts) = (is_event ns t || is_sync ns t) && every_known ns ts

pub number_of_syncs : Names → List (List ℕ) → ℕ
number_of_syncs ns [] = 0
number_of_syncs ns (t ∷ ts) =
    if is_sync ns t then suc (number_of_syncs ns ts) else number_of_syncs ns ts

abbrev tally : Names → ℕ → Option (List (List ℕ)) → Option ℕ
tally ns count none = none
tally ns count (some ts) = if every_known ns ts then some (count + number_of_syncs ns ts) else none

-- One line in front of the others.
tally-line :
    (ns : Names) (t : List ℕ) (count : ℕ) (rest : Option (List (List ℕ)))
    → (check_row ns t count >>= λ c. tally ns c rest)
      ≡ tally ns count (rest >>= λ ts. some (t ∷ ts))
unfolding check_row every_known number_of_syncs
tally-line ns t count none = ground arith
tally-line ns t count (some ts) = ground arith

bind_ext : (o : Option ℕ) (f g : ℕ → Option ℕ) → ((c : ℕ) → f c ≡ g c) → (o >>= f) ≡ (o >>= g)
bind_ext none f g h = refl
bind_ext (some c) f g h = h c

no_line : (ns : Names) (count : ℕ) → is_event ns [] ≡ false → check_row ns [] count ≡ none
unfolding check_row is_prefix
no_line ns count e = rw e refl

tally-nil : (ns : Names) (c : ℕ) → some c ≡ tally ns c (some [])
unfolding every_known number_of_syncs
tally-nil ns c = ap some (omega arith)

check_rows-tally :
    (ns : Names) (n : ℕ) (pieces : List Piece) (count : ℕ)
    → is_event ns [] ≡ false
    → check_rows ns n pieces count ≡ tally ns count (lines_of n pieces)
unfolding check_rows lines_of
check_rows-tally ns zero pieces count e = tally-nil ns count
check_rows-tally ns (suc n) [] count e = rw (no_line ns count e) (ground arith)
check_rows-tally ns (suc n) (p ∷ pieces) count e = elim (Bool-cases (p.at_end)) [
  | inl last ↦ rw last (
      bind_ext (check_row ns p.text count) _ _ (tally-nil ns)
      ∙ tally-line ns p.text count (some []))
  | inr more ↦ rw more (
      bind_ext (check_row ns p.text count) _ _ (λ c. check_rows-tally ns n pieces c e)
      ∙ tally-line ns p.text count (lines_of n pieces))
]

-- With three names that an empty line does not start with, one argument and a log that opens: the exit
-- status is 0 exactly if the log has eight lines, or says with an earlier one that it ends, each of
-- the lines read starts with one of the names or is a sync, and at most three of them are syncs; else
-- it is -1.
pub main-zero_iff :
    (ns : Names) (pieces : List Piece)
    → is_event ns [] ≡ false
    → ((main ns 2 (some pieces) ≡ pos 0) ↔ (
        (ts : List (List ℕ)) × (lines_of 8 pieces ≡ some ts)
        × (every_known ns ts ≡ true)
        × (number_of_syncs ns ts ≤ 3)))
      × ((main ns 2 (some pieces) ≡ pos 0) ⊎ (main ns 2 (some pieces) ≡ negsuc 0))
unfolding main
main-zero_iff ns pieces e = elim (Option-cases (lines_of 8 pieces)) [
  | inl ended ↦
      rw (main, check_rows-tally ns 8 pieces 0 e, ended)
        ((λ q. absurd (ground arith), λ (ts, q, k, l). absurd (ground arith)), inr refl)
  | inr (ts, found) ↦
      rw (main, check_rows-tally ns 8 pieces 0 e, found)
        (
          (
            λ q. (ts, refl, ground arith, ground arith),
            λ (us, q, k, l).
                let same : us ≡ ts = (cc) in
                let k' : every_known ns ts ≡ true = rw (sym same) k in
                let l' : number_of_syncs ns ts ≤ 3 = rw (sym same) l in rw k' (ground arith),
          ),
          ground arith,
        )
]
