-- ===== src/Sndkit/RoundTrip.antt =====
-- strip_wav takes off the head that makewav puts on.
use Prim.Native.Nat.{min}
use test_tools.Common.{
  ℕ, ◌+◌, ◌^◌, ◌<◌, ◌≤◌, ◌≡◌, refl, true, some, List, [], ◌++◌, arith, ◌==◌, ==_of_ne, lt→ltb,
  length, take, drop, ◌∙◌, sym, ap, append_assoc, append-nil, subst, drop_past, length-append,
  length-take, drop-length-append, get_or-take, get_or-append,
}
use test_tools.Common.Int.{pos}
use test_tools.Common.Bytes.{
  Mem, put_bytes, peek, length-peek, get_or-peek, put_bytes-within, Agree,
}
use test_tools.Wav.{init_wav_header, parse_wav_header, Out}
use test_tools.Wav.Stored.{parse-stored}
use test_tools.Sndkit.Io.{Ack, returned, Sink, finished, write_all, positive_part}
use test_tools.Sndkit.Formats.{bits_of}
use test_tools.Sndkit.Files.{
  wav_head_size, Luck, is_named, copy_loop, makewav, strip_wav, overwritten,
}
use test_tools.Sndkit.Writing.{Willing, write_all-Written}
use test_tools.Sndkit.Copying.{Copied, copy_loop-Copied}

-- Every call of the two functions on their files comes out well.
abbrev pub lucky : Luck
lucky = record { wav_opens = true; raw_opens = true; is_file = true; room = true }

-- The head that `makewav` writes.
abbrev pub head_of : Mem → (n channels speed format : ℕ) → List ℕ
head_of m n channels speed format =
    peek (init_wav_header m n channels speed (bits_of format 16)) wav_head_size 0

pub ==_256 : (n : ℕ) → 256 ≤ n → (min 256 n == 256) ≡ true
==_256 n l = ground arith

pub read-Agree :
    (h m : Mem) (tail : List ℕ) → Agree 44 h (put_bytes 0 (take 256 (peek h 44 0 ++ tail)) m)
read-Agree h m tail a l =
    let n : 44 ≤ length (peek h 44 0) = omega (arith, length-peek h 44 0) in
    let e = length-take 256 (peek h 44 0 ++ tail) in
    let f = length-append (peek h 44 0) tail in
    ap (put_bytes 0 (take 256 (peek h 44 0 ++ tail)) m) (omega arith)
    ∙ put_bytes-within 0 (take 256 (peek h 44 0 ++ tail)) m a 0 (omega arith)
    ∙ get_or-take 256 (peek h 44 0 ++ tail) a 0 (omega arith)
    ∙ get_or-append (peek h 44 0) tail a 0 (omega arith)
    ∙ get_or-peek h 44 0 a 0 l
    ∙ ap h (omega arith)

pub bits_small : (format : ℕ) → bits_of format 16 < 2 ^ 16
unfolding bits_of
bits_small format = ground arith

module _ (wav_file raw_file : List ℕ) (nw : 0 < length wav_file) (nr : 0 < length raw_file) where
  makewav-run :
      (channels speed format : ℕ) (raw : List ℕ) (m : Mem) (s : Sink)
      → length raw < 2 ^ 31
      → (write_all (head_of m (length raw) channels speed format) s).0 ≡ finished
      → makewav lucky (some wav_file) (some raw_file) channels speed format raw m s
        ≡ copy_loop
            (length raw + 1)
            (length raw)
            raw
            (write_all (head_of m (length raw) channels speed format) s).1
  unfolding makewav is_named
  makewav-run channels speed format raw m s u e =
      let ep : positive_part (length raw) ≡ length raw = rw (lt→ltb (length raw) (2 ^ 31) u) refl in
      let ew = ==_of_ne (length wav_file) 0 (omega arith) in
      let er = ==_of_ne (length raw_file) 0 (omega arith) in (cc)

  -- If both names are not empty and all calls on the files come out well, makewav returns 0 and writes
  -- the head and then all bytes of the raw file, fewer than 2^31.
  pub makewav-Copied :
      (channels speed format : ℕ) (raw : List ℕ) (m : Mem) (s : Sink)
      → length raw < 2 ^ 31
      → Willing (44 + length raw) s
      → Copied
          (head_of m (length raw) channels speed format ++ raw)
          s
          (makewav lucky (some wav_file) (some raw_file) channels speed format raw m s)
  makewav-Copied channels speed format raw m s u w =
      let head = head_of m (length raw) channels speed format in
      let lh : length head ≡ 44 =
        length-peek (init_wav_header m (length raw) channels speed (bits_of format 16)) 44 0 in
      let x =
        write_all-Written head s (length raw)
          (record { takes = w.takes; enough = omega (arith, lh, w.enough) }) in
      let y = copy_loop-Copied (length raw + 1) raw (write_all head s).1 (omega arith) x.willing in
      let e = makewav-run channels speed format raw m s u x.status in
      record {
        result = ap (λ r. r.0) e ∙ y.result;
        written =
            ap (λ r. r.1.written) e
            ∙ y.written
            ∙ ap (λ l. l ++ raw) x.written
            ∙ append_assoc s.written head raw;
      }

  strip_wav-run :
      (wav raw : List ℕ) (m : Mem) (s : Sink) (out : Out)
      → 256 ≤ length wav
      → parse_wav_header
          (put_bytes 0 (take 256 wav) m)
          (record { head_len = 0; channels = 0; sample_rate = 0; bits = 0 })
        ≡ (length raw, out)
      → 0 < length raw
      → length raw < 2 ^ 31
      → strip_wav lucky (some raw_file) (some wav_file) wav m s
        ≡ copy_loop (length wav + 1) (length raw) (drop out.head_len wav) s
  unfolding strip_wav is_named
  strip_wav-run wav raw m s out l e p q =
      let ew = ==_of_ne (length wav_file) 0 (omega arith) in
      let er = ==_of_ne (length raw_file) 0 (omega arith) in
      let el : (length (take 256 wav) == 256) ≡ true =
        rw (length-take 256 wav) (==_256 (length wav) l) in
      let en = ==_of_ne (length raw) 0 (omega arith) in
      let ep : positive_part (length raw) ≡ length raw = rw (lt→ltb (length raw) (2 ^ 31) q) refl in
      rw (ew, er, el, e, en, ep) refl

  -- strip_wav on a file with the head of `makewav` and a sound.
  strip_wav-Copied :
      (channels speed format : ℕ) (raw : List ℕ) (m m' : Mem) (s : Sink)
      → Willing (length raw) s
      → 212 ≤ length raw
      → length raw < 2 ^ 31
      → channels < 2 ^ 16
      → speed < 2 ^ 32
      → Copied raw s (
          strip_wav lucky
            (some raw_file)
            (some wav_file)
            (head_of m (length raw) channels speed format ++ raw)
            m'
            s)
  strip_wav-Copied channels speed format raw m m' s w l u lc ls =
      let h = init_wav_header m (length raw) channels speed (bits_of format 16) in
      let wav = peek h 44 0 ++ raw in
      let lh = length-peek h 44 0 in
      let lw = length-append (peek h 44 0) raw in
      let p =
        parse-stored m (put_bytes 0 (take 256 wav) m') (length raw) channels speed
          (bits_of format 16) (record { head_len = 0; channels = 0; sample_rate = 0; bits = 0 })
          (read-Agree h m' raw) (omega arith) lc ls (bits_small format) in
      let e =
        strip_wav-run wav raw m' s
          (record {
            head_len = 44;
            channels = channels;
            sample_rate = speed;
            bits = bits_of format 16;
          })
          (omega arith) p (omega arith) u in
      let d : drop 44 wav ≡ raw =
        ap (λ n. drop n wav) (sym lh) ∙ drop-length-append (peek h 44 0) raw in
      subst (Copied raw s) (sym (e ∙ ap (λ l. copy_loop (length wav + 1) (length raw) l s) d))
        (copy_loop-Copied (length wav + 1) raw s (omega arith) w)

-- Let both names not be empty and all calls on the files come out well, the raw sound have from 212
-- bytes to less than 2^31, the channels fit 16 bits and the rate 32, and what stood in the WAV file
-- before be no longer than the new content. Then makewav returns 0, and strip_wav on the file that
-- it leaves returns 0 and writes the raw sound back.
pub strip_wav-makewav :
    (wav_file raw_file : List ℕ) (channels speed format : ℕ) (raw old : List ℕ) (m m' : Mem)
    (acks : List Ack) (s : Sink)
    → 0 < length wav_file
    → 0 < length raw_file
    → Willing (44 + length raw) (record { acks = acks; written = [] })
    → Willing (length raw) s
    → 212 ≤ length raw
    → length raw < 2 ^ 31
    → channels < 2 ^ 16
    → speed < 2 ^ 32
    → length old ≤ 44 + length raw
    → let r =
        makewav lucky
          (some wav_file)
          (some raw_file)
          channels
          speed
          format
          raw
          m
          (record { acks = acks; written = [] }) in
      (r.0 ≡ returned (pos 0))
      × Copied raw s
          (strip_wav lucky (some raw_file) (some wav_file) (overwritten old r.1.written) m' s)
strip_wav-makewav wav_file raw_file channels speed format raw old m m' acks s nw nr w w' l u lc ls
      lo =
    let x =
      makewav-Copied wav_file raw_file nw nr channels speed format raw m
        (record { acks = acks; written = [] }) u w in
    let head = head_of m (length raw) channels speed format in
    let written =
      (makewav lucky (some wav_file) (some raw_file) channels speed format raw m
        (record { acks = acks; written = [] })).1.written in
    let lh = length-peek (init_wav_header m (length raw) channels speed (bits_of format 16)) 44 0 in
    let lw = length-append head raw in
    let d : drop (length written) old ≡ [] =
      drop_past (length written) old (rw x.written (omega (arith, lh, lw, lo))) in
    let e : overwritten old written ≡ head ++ raw =
      ap (λ l. written ++ l) d ∙ append-nil written ∙ x.written in
    (
      x.result,
      subst (λ wav. Copied raw s (strip_wav lucky (some raw_file) (some wav_file) wav m' s)) (sym e)
          (strip_wav-Copied wav_file raw_file nw nr channels speed format raw m m' s w' l u lc ls),
    )
