-- ===== src/Sndkit/RecordSteps.antt =====
-- The steps of the loop of `record`.
use test_tools.Common.{
  ℕ, ◌-◌, ◌<◌, ◌≤◌, ◌≡◌, refl, Bool, true, false, List, ◌∷◌, arith, ◌==◌, ltb, lt→ltb,
  if◌then◌else◌, length, take, length-take, ◌⊎◌, inl, inr,
}
use test_tools.Common.Int.{negsuc}
use test_tools.Common.Bytes.{Mem, peek}
use test_tools.Sndkit.Io.{
  Read, got, returned, waits, Sink, Status, finished, stopped, blocked, write_all,
}
use test_tools.Sndkit.Record.{take_in, record_loop}

-- What one `read` adds to the buffer, and how many bytes of it are written.
abbrev pub asked : (size left : ℕ) → List ℕ → List ℕ
asked size left bs = take (if ltb left size then left else size) bs

abbrev pub counted : (n left : ℕ) → ℕ
counted n left = if ltb n left then n else left

module _ (narrows : Bool) (size : ℕ) (bs : List ℕ) (reads : List Read) (left : ℕ) (m : Mem)
    (s : Sink) (l : 0 < left) where
  abbrev pub taken : Mem × ℕ
  taken = take_in narrows m (asked size left bs)

  abbrev pub put : Status × Sink
  put = write_all (peek taken.0 (counted taken.1 left) 0) s

  pub record_loop-none :
      (length (asked size left bs) == 0) ≡ true
      → record_loop narrows size (got bs ∷ reads) left m s ≡ record_loop narrows size reads left m s
  unfolding record_loop
  record_loop-none z = rw (record_loop, lt→ltb 0 left l, z) refl

  module _ (z : (length (asked size left bs) == 0) ≡ false) where
    pub record_loop-step :
        put.0 ≡ finished
        → record_loop narrows size (got bs ∷ reads) left m s
          ≡ record_loop narrows size reads (left - counted taken.1 left) taken.0 put.1
    unfolding record_loop
    record_loop-step e = rw (record_loop, lt→ltb 0 left l, z, e) refl

    pub record_loop-stopped :
        put.0 ≡ stopped
        → record_loop narrows size (got bs ∷ reads) left m s ≡ (returned (negsuc 0), put.1)
    unfolding record_loop
    record_loop-stopped e = rw (record_loop, lt→ltb 0 left l, z, e) refl

    pub record_loop-blocked :
        put.0 ≡ blocked → record_loop narrows size (got bs ∷ reads) left m s ≡ (waits, put.1)
    unfolding record_loop
    record_loop-blocked e = rw (record_loop, lt→ltb 0 left l, z, e) refl

pub Status-cases : (t : Status) → (t ≡ finished) ⊎ ((t ≡ stopped) ⊎ (t ≡ blocked))
Status-cases finished = inl refl
Status-cases stopped = inr (inl refl)
Status-cases blocked = inr (inr refl)

pub length-asked : (size left : ℕ) (bs : List ℕ) → length (asked size left bs) ≤ left
length-asked size left bs =
    let e = length-take (if ltb left size then left else size) bs in ground (arith, e)
