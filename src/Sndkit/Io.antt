-- ===== src/Sndkit/Io.antt =====
-- What sndkit.c meets at its descriptors, and the loop that writes all of a buffer. A list gives what
-- each call of `read` or `write` comes back with, in order; where it is used up the call waits.
use test_tools.Common.{ℕ, ◌^◌, ltb, if◌then◌else◌, List, [], ◌∷◌, ◌++◌, take, drop}
use test_tools.Common.Int.{ℤ}

-- `got []` is the end of the file.
pub data Read : Type 0 where
  got : List ℕ → Read
  failed : Read

-- A call of `write` takes at most so many bytes, or fails.
pub data Ack : Type 0 where
  accepted : ℕ → Ack
  refused : Ack

-- `aborted`: a failed assertion.
pub data End : Type 0 where
  returned : ℤ → End
  waits : End
  aborted : End

-- A descriptor that is written to: what it has taken, and how the calls to come end.
pub record Sink : Type 0 where
  pub acks : List Ack
  pub written : List ℕ

pub data Status : Type 0 where
  finished stopped blocked : Status

-- `while (len > 0) { if ((n = write(fd, buff + pos, len)) < 0) ...; len -= n; pos += n; }`; the bytes
-- are those from `pos` on, and `stopped` is where a call fails.
unfoldable pub write_loop : List Ack → (bytes written : List ℕ) → Status × Sink
write_loop acks [] written = (finished, record { acks = acks; written = written })
write_loop [] (b ∷ bs) written = (blocked, record { acks = []; written = written })
write_loop (refused ∷ acks) (b ∷ bs) written = (stopped, record { acks = acks; written = written })
write_loop (accepted n ∷ acks) (b ∷ bs) written =
    write_loop acks (drop n (b ∷ bs)) (written ++ take n (b ∷ bs))

unfoldable pub write_all : List ℕ → Sink → Status × Sink
unfolding write_loop
write_all bytes s = write_loop s.acks bytes s.written

-- A length as the `int` that a loop tests; a negative one ends it at once.
abbrev pub positive_part : ℕ → ℕ
positive_part w = if ltb w (2 ^ 31) then w else 0
