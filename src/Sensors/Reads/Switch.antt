-- ===== src/Sensors/Reads/Switch.antt =====
-- What test_gps.c leaves of the power switch.
use test_tools.Common.{
  ℕ, ◌≡◌, ◌≢◌, refl, Bool, true, false, Option, none, some, List, [], ◌∷◌, arith, inl, inr, ◌⊎◌,
  if◌then◌else◌, Bool-cases,
}
use test_tools.Common.Int.{ℤ, pos, negsuc, eqb_ℤ}
use test_tools.Common.Bytes.{Mem}
use test_tools.Sensors.Reads.{Data, Call, off_text, on_text, test_gps}

-- The last text of two bytes that a call has written whole, or `before`.
abbrev pub written_last : List Call → (before : Option (List ℕ)) → Option (List ℕ)
written_last [] before = before
written_last ((text, result) ∷ calls) before =
    written_last calls (if eqb_ℤ result (pos 2) then some text else before)

-- The switch at the end of `main`, by what the last write on it returns.
abbrev pub Switched : (state : Bool) (last : ℤ) → ℤ × List Call → Type 0
Switched state last (status, calls) =
    ((state ≡ false) × (status ≡ negsuc 0) × (written_last calls none ≡ none))
    ⊎ (((state ≡ true) × (last ≡ pos 2) × (written_last calls none ≡ some off_text))
        ⊎ ((state ≡ true)
            × (last ≢ pos 2)
            × ((status ≡ negsuc 0) ⊎ (written_last calls none ≡ some on_text))))

-- By what the last write returns, where the calls are known but for it.
last_call :
    (last : ℤ) (status : ℤ) (before : Option (List ℕ))
    → (status ≡ negsuc 0) ⊎ (before ≡ some on_text)
    → ((last ≡ pos 2) × (written_last ((off_text, last) ∷ []) before ≡ some off_text))
      ⊎ ((last ≢ pos 2)
          × ((status ≡ negsuc 0) ⊎ (written_last ((off_text, last) ∷ []) before ≡ some on_text)))
last_call last status before h = elim (Bool-cases (eqb_ℤ last (pos 2))) [
  | inl e ↦ inl (ground arith, rw e refl)
  | inr e ↦ inr (ground arith, rw e h)
]

opened :
    (last : ℤ) (status : ℤ) (x : Option (List ℕ))
    → ((last ≡ pos 2) × (x ≡ some off_text))
      ⊎ ((last ≢ pos 2) × ((status ≡ negsuc 0) ⊎ (x ≡ some on_text)))
    → ((true ≡ false) × (status ≡ negsuc 0) × (x ≡ none))
      ⊎ (((true ≡ true) × (last ≡ pos 2) × (x ≡ some off_text))
          ⊎ ((true ≡ true) × (last ≢ pos 2) × ((status ≡ negsuc 0) ⊎ (x ≡ some on_text))))
opened last status x (inl (e, w)) = inr (inl (refl, e, w))
opened last status x (inr (e, w)) = inr (inr (refl, e, w))

-- On every path, if the file of the switch does not open, `main` returns -1 and nothing has been written to
-- it. If it opens and the last write takes both bytes, then "0" is the last text that has been written
-- whole; if that write does not take both, then `main` returns -1, or it leaves "1" as that text, and it does
-- so where it returns 0.
pub test_gps-Switched :
    (state port : Bool) (off on last : ℤ) (input : Data) (m : Mem)
    → Switched state last (test_gps state port off on last input m)
unfolding test_gps
test_gps-Switched false port off on last input m = inl (refl, refl, refl)
test_gps-Switched true false off on last input m =
    opened last (negsuc 0) (written_last ((off_text, last) ∷ []) none)
      (last_call last (negsuc 0) none (inl refl))
test_gps-Switched true true off on last input m = elim (Bool-cases (eqb_ℤ off (pos 2))) [
  | inr short ↦ rw short (
      rw short (
        opened last (negsuc 0) (written_last ((off_text, last) ∷ []) none)
          (last_call last (negsuc 0) none (inl refl))))
  | inl whole ↦ elim (Bool-cases (eqb_ℤ on (pos 2))) [
    | inr short ↦
        rw (whole, short)
          (rw (whole, short)
            (opened last (negsuc 0) (written_last ((off_text, last) ∷ []) (some off_text))
              (last_call last (negsuc 0) (some off_text) (inl refl))))
    | inl whole' ↦
        rw (whole, whole')
          (rw (whole, whole')
            (opened last _ (written_last ((off_text, last) ∷ []) (some on_text))
              (last_call last _ (some on_text) (inr refl))))
  ]
]
