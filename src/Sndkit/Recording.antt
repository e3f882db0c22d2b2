-- ===== src/Sndkit/Recording.antt =====
-- What `record` writes to the file.
use Prim.Native.Nat.{min}
use test_tools.Common.{
  ℕ, zero, suc, ◌-◌, ◌<◌, ◌≤◌, ◌≡◌, ◌^◌, refl, true, false, ◌&&◌, List, [], ◌∷◌, ◌++◌, map, arith,
  ◌==◌, ltb, lt→ltb, take_all, take-append, length, take, All, ◌∙◌, sym, ap, subst, append_assoc,
  append-nil, length-append, length-take, Bool-cases, inl, inr,
}
use test_tools.Common.Int.{pos}
use test_tools.Common.Bytes.{Mem, put_bytes, peek-put_bytes}
use test_tools.Sndkit.Io.{Read, got, failed, returned, Sink, finished, write_all}
use test_tools.Sndkit.Formats.{bits_of}
use test_tools.Sndkit.Record.{RecordParams, record_length, take_in, record_loop, record_sound}
use test_tools.Sndkit.Writing.{Willing, write_all-Written}
use test_tools.Sndkit.Copying.{Copied}
use test_tools.Sndkit.RecordSteps.{
  asked, counted, put, record_loop-none, record_loop-step, length-asked,
}

abbrev pub joined : List (List ℕ) → List ℕ
joined [] = []
joined (block ∷ blocks) = block ++ joined blocks

-- A loop that leaves the samples as they are.
module _ (size : ℕ) (bs : List ℕ) (reads : List Read) (left : ℕ) (m : Mem) (s : Sink) where
  asked-take : length bs ≤ size → asked size left bs ≡ take left bs
  asked-take l = elim (Bool-cases (ltb left size)) [
    | inl e ↦ rw e refl
    | inr e ↦
        let h : size ≤ left = ground arith in
        rw e (take_all size bs l ∙ sym (take_all left bs (omega arith)))
  ]

  counted-asked : counted (length (asked size left bs)) left ≡ length (asked size left bs)
  counted-asked = let h = length-asked size left bs in ground arith

  plain_put : (l : 0 < left) → put false size bs reads left m s l ≡ write_all (asked size left bs) s
  unfolding take_in
  plain_put l = rw (counted-asked, peek-put_bytes 0 (asked size left bs) m) refl

  record_loop-plain :
      0 < left
      → (length (asked size left bs) == 0) ≡ false
      → (write_all (asked size left bs) s).0 ≡ finished
      → record_loop false size (got bs ∷ reads) left m s
        ≡ record_loop false size reads
            (left - length (asked size left bs))
            (put_bytes 0 (asked size left bs) m)
            (write_all (asked size left bs) s).1
  unfolding take_in
  record_loop-plain l z e =
      let x = plain_put l in
      record_loop-step false size bs reads left m s l z (ap (λ r. r.0) x ∙ e)
      ∙ ap
          (λ k.
            record_loop false size reads (left - k) (put_bytes 0 (asked size left bs) m)
              (put false size bs reads left m s l).1)
          counted-asked
      ∙ ap
          (λ r.
            record_loop false size reads (left - length (asked size left bs))
              (put_bytes 0 (asked size left bs) m) r.1)
          x

record_loop-zero :
    (size : ℕ) (reads : List Read) (m : Mem) (s : Sink)
    → record_loop false size reads 0 m s ≡ (returned (pos 0), s)
unfolding record_loop
record_loop-zero size [] m s = refl
record_loop-zero size (failed ∷ reads) m s = refl
record_loop-zero size (got bs ∷ reads) m s = refl

record_loop-Copied :
    (size : ℕ) (blocks : List (List ℕ)) (left : ℕ) (m : Mem) (s : Sink)
    → All (λ block. length block ≤ size) blocks
    → left ≤ length (joined blocks)
    → Willing left s
    → Copied (take left (joined blocks)) s (record_loop false size (map got blocks) left m s)
record_loop-Copied size blocks zero m s h l w =
    let e = record_loop-zero size (map got blocks) m s in
    record {
      result = ap (λ r. r.0) e;
      written = ap (λ r. r.1.written) e ∙ sym (append-nil s.written);
    }
record_loop-Copied size [] (suc n) m s h l w = absurd (omega arith)
record_loop-Copied size (block ∷ blocks) (suc n) m s h l w =
    let part = asked size (suc n) block in
    let ep : part ≡ take (suc n) block = asked-take size block (map got blocks) (suc n) m s h.0 in
    let et = take-append (suc n) block (joined blocks) in
    let lp : length part ≡ min (suc n) (length block) = ap length ep ∙ length-take (suc n) block in
    let lj = length-append block (joined blocks) in
    elim (Bool-cases (length part == 0)) [
      | inl z ↦
          let e = record_loop-none false size block (map got blocks) (suc n) m s (omega arith) z in
          let ih = record_loop-Copied size blocks (suc n) m s h.1 (ground arith) w in
          let en : [] ≡ block = take_all 0 block (ground arith) in
          rw e (
            subst
              (λ b.
                Copied (take (suc n) (b ++ joined blocks)) s
                  (record_loop false size (map got blocks) (suc n) m s))
              en ih)
      | inr z ↦
          let x =
            write_all-Written part s (suc n - length part)
              (record { takes = w.takes; enough = omega (arith, w.enough, lp) }) in
          let e =
            record_loop-plain size block (map got blocks) (suc n) m s (omega arith) z x.status in
          let ih =
            record_loop-Copied size blocks (suc n - length part) (put_bytes 0 part m)
              (write_all part s).1 h.1 (omega (arith, lp, lj)) x.willing in
          let ek : suc n - length block ≡ suc n - length part = omega (arith, lp) in
          record {
            result = ap (λ r. r.0) e ∙ ih.result;
            written =
                ap (λ r. r.1.written) e
                ∙ ih.written
                ∙ ap (λ l. l ++ take (suc n - length part) (joined blocks)) x.written
                ∙ append_assoc s.written part (take (suc n - length part) (joined blocks))
                ∙ sym (ap (λ l. s.written ++ l) (et ∙ (rw (ek, ep) refl)));
          }
    ]

-- Unless it is a WAV file of 24 bits: let the length be what `record` computes in `int`, the wrap-around
-- of both products included, and be no negative `int`. When the device gives at least that much, in reads of at most `buffer_size` bytes, empty ones among them, and each write
-- takes a byte or more, `record` returns 0 and writes just as many bytes as the length, as they came.
pub record_sound-Copied :
    (p : RecordParams) (blocks : List (List ℕ)) (m : Mem) (s : Sink)
    → (p.is_wav && (bits_of p.format 16 == 24)) ≡ false
    → All (λ block. length block ≤ p.buffer_size) blocks
    → record_length (bits_of p.format 16) p ≤ length (joined blocks)
    → record_length (bits_of p.format 16) p < 2 ^ 31
    → Willing (record_length (bits_of p.format 16) p) s
    → Copied
        (take (record_length (bits_of p.format 16) p) (joined blocks))
        s
        (record_sound p true (map got blocks) m s)
unfolding record_sound
record_sound-Copied p blocks m s f h l u w =
    rw (f, lt→ltb (record_length (bits_of p.format 16) p) (2 ^ 31) u)
      (record_loop-Copied p.buffer_size blocks (record_length (bits_of p.format 16) p) m s h l w)
