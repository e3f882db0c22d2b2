-- ===== src/Sndkit/Writing.antt =====
-- The write loop: what is written is a first part of the bytes, and all of them if no call fails.
use test_tools.Common.{
  zero, suc, ℕ, ◌+◌, ◌<◌, ◌≤◌, ◌≡◌, refl, List, [], ◌∷◌, ◌++◌, arith, length, take, drop, All, ◌∙◌,
  sym, ap, append_assoc, append-nil, length-drop, take-append-drop,
}
use test_tools.Sndkit.Io.{Ack, accepted, refused, Sink, Status, finished, write_loop, write_all}

-- The call takes at least a byte.
abbrev pub Takes : Ack → Type 0
Takes (accepted n) = 0 < n
Takes refused = ⊥

-- Enough calls that take at least a byte each.
pub record Willing (n : ℕ) (s : Sink) : Type 0 where
  pub takes : All Takes s.acks
  pub enough : n ≤ length s.acks

-- All of the bytes are written, and calls for `n` more are left.
pub record Written (n : ℕ) (bytes : List ℕ) (s : Sink) (r : Status × Sink) : Type 0 where
  pub status : r.0 ≡ finished
  pub written : r.1.written ≡ s.written ++ bytes
  pub willing : Willing n r.1

write_loop-Written :
    (acks : List Ack) (bytes written : List ℕ) (n : ℕ)
    → All Takes acks
    → length bytes + n ≤ length acks
    → Written n bytes (record { acks = acks; written = written }) (write_loop acks bytes written)
unfolding write_loop
write_loop-Written acks [] written n h l = record {
  status = refl;
  written = sym (append-nil written);
  willing = record { takes = h; enough = omega arith };
}
write_loop-Written [] (b ∷ bs) written n h l = absurd (omega arith)
write_loop-Written (refused ∷ acks) (b ∷ bs) written n h l = absurd (h.0)
write_loop-Written (accepted k ∷ acks) (b ∷ bs) written n h l =
    let x =
      write_loop-Written acks (drop k (b ∷ bs)) (written ++ take k (b ∷ bs)) n h.1
        (omega (arith, length-drop k (b ∷ bs), h.0)) in
    record {
      status = x.status;
      written =
          x.written
          ∙ append_assoc written (take k (b ∷ bs)) (drop k (b ∷ bs))
          ∙ ap (λ l. written ++ l) (take-append-drop k (b ∷ bs));
      willing = x.willing;
    }

pub write_all-Written :
    (bytes : List ℕ) (s : Sink) (n : ℕ)
    → Willing (length bytes + n) s
    → Written n bytes s (write_all bytes s)
unfolding write_all
write_all-Written bytes s n w = write_loop-Written s.acks bytes s.written n w.takes w.enough

-- A descriptor with `n` calls left that take up to 4096 bytes.
abbrev pub always : ℕ → List Ack
always zero = []
always (suc n) = accepted 4096 ∷ always n

pub always-Willing :
    (n : ℕ) (written : List ℕ) → Willing n (record { acks = always n; written = written })
always-Willing n written = record { takes = all n; enough = omega (arith, length-always n) }
  where
    all : (n : ℕ) → All Takes (always n)
    all zero = tt
    all (suc n) = (omega arith, all n)

    length-always : (n : ℕ) → length (always n) ≡ n
    length-always zero = refl
    length-always (suc n) = ap suc (length-always n)
