-- ===== src/Sndkit/Endless.antt =====
-- `record` with samples of 24 bits.
use test_tools.Common.{
  ℕ, ◌-◌, ◌*◌, ◌/◌, ◌<◌, ◌≤◌, ◌≡◌, ◌≢◌, ◌^◌, refl, Bool, true, false, List, [], ◌∷◌, arith, ◌==◌,
  lt→ltb, length, Bool-cases, Option-cases, inl, inr,
}
use test_tools.Common.Int.{pos}
use test_tools.Common.Bytes.{Mem, put_bytes}
use test_tools.Wav.{wav_32bit_to_24bit}
use test_tools.Sndkit.Io.{Read, got, failed, returned, Sink}
use test_tools.Sndkit.Formats.{fmt_24_bits, bits_of}
use test_tools.Sndkit.Record.{RecordParams, record_length, take_in, record_loop, record_sound}
use test_tools.Sndkit.RecordSteps.{
  asked, counted, taken, put, record_loop-none, record_loop-step, record_loop-stopped,
  record_loop-blocked, Status-cases, length-asked,
}

take_in-true : (m : Mem) (block : List ℕ) → (take_in true m block).1 ≡ length block / 4 * 3
unfolding take_in
take_in-true m block =
    elim (Option-cases (wav_32bit_to_24bit (put_bytes 0 block m) (length block))) [
      | inl e ↦ rw (e, take_in) refl
      | inr (m2, e) ↦ rw (e, take_in) refl
    ]

-- The bytes of a narrowed read are fewer than what is left.
narrowed-less :
    (size left : ℕ) (bs : List ℕ) (m : Mem)
    → 0 < left
    → 0 < left - counted (take_in true m (asked size left bs)).1 left
narrowed-less size left bs m l =
    rw (take_in-true m (asked size left bs))
      (less (length (asked size left bs)) left l (length-asked size left bs))
  where
    less : (n left : ℕ) → 0 < left → n ≤ left → 0 < left - counted (n / 4 * 3) left
    less n left l h = ground arith

-- A loop that narrows the samples, and has something left, never returns 0.
record_loop-Endless :
    (size : ℕ) (reads : List Read) (left : ℕ) (m : Mem) (s : Sink)
    → 0 < left
    → (record_loop true size reads left m s).0 ≢ returned (pos 0)
record_loop-Endless size [] left m s l =
    unfold record_loop in rw (lt→ltb 0 left l) (λ e. absurd (ground arith))
record_loop-Endless size (failed ∷ reads) left m s l =
    unfold record_loop in rw (lt→ltb 0 left l) (λ e. absurd (ground arith))
record_loop-Endless size (got bs ∷ reads) left m s l =
    elim (Bool-cases (length (asked size left bs) == 0)) [
      | inl z ↦
          rw (record_loop-none true size bs reads left m s l z)
            (record_loop-Endless size reads left m s l)
      | inr z ↦ elim (Status-cases (put true size bs reads left m s l).0) [
        | inl e ↦ rw (record_loop-step true size bs reads left m s l z e) (
            record_loop-Endless size reads
              (left - counted (taken true size bs reads left m s l).1 left)
              (taken true size bs reads left m s l).0 (put true size bs reads left m s l).1
              (narrowed-less size left bs m l))
        | inr (inl e) ↦
            rw (record_loop-stopped true size bs reads left m s l z e) (λ e. absurd (ground arith))
        | inr (inr e) ↦
            rw (record_loop-blocked true size bs reads left m s l z e) (λ e. absurd (ground arith))
      ]
    ]

-- For a WAV file of 24 bits and a length, as computed in `int` with its wrap-around, that is more than 0,
-- `record` never returns 0, whatever the device gives and whatever the file takes: each read is made a quarter shorter, so the
-- length that is left does not come to 0.
pub record_sound-Endless :
    (p : RecordParams) (room : Bool) (reads : List Read) (m : Mem) (s : Sink)
    → p.is_wav ≡ true
    → p.format ≡ fmt_24_bits
    → 0 < record_length 24 p
    → record_length 24 p < 2 ^ 31
    → (record_sound p room reads m s).0 ≢ returned (pos 0)
unfolding record_sound bits_of
record_sound-Endless p false reads m s w f l u = λ e. absurd (ground arith)
record_sound-Endless p true reads m s w f l u =
    rw (w, f, lt→ltb (record_length 24 p) (2 ^ 31) u)
      (record_loop-Endless p.buffer_size reads (record_length 24 p) m s l)
