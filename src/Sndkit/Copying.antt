-- ===== src/Sndkit/Copying.antt =====
-- The copy loop of `makewav` and `strip_wav` copies the rest of the file.
use test_tools.Common.{
  ℕ, zero, suc, ◌-◌, ◌<◌, ◌≡◌, refl, true, false, List, [], ◌∷◌, ◌++◌, arith, ◌==◌, ltb, length,
  take, drop, ◌∙◌, sym, ap, append_assoc, append-nil, length-drop, length-take, take-append-drop,
}
use test_tools.Common.Int.{pos}
use test_tools.Sndkit.Io.{End, returned, Sink, finished, write_all}
use test_tools.Sndkit.Files.{copy_loop, file_block_len}
use test_tools.Sndkit.Writing.{Willing, write_all-Written}

pub record Copied (bytes : List ℕ) (s : Sink) (r : End × Sink) : Type 0 where
  pub result : r.0 ≡ returned (pos 0)
  pub written : r.1.written ≡ s.written ++ bytes

copy_loop-step :
    (k left : ℕ) (rest : List ℕ) (s : Sink)
    → ltb 0 left ≡ true
    → (length (take file_block_len rest) == 0) ≡ false
    → (write_all (take file_block_len rest) s).0 ≡ finished
    → copy_loop (suc k) left rest s
      ≡ copy_loop k
          (left - length (take file_block_len rest))
          (drop file_block_len rest)
          (write_all (take file_block_len rest) s).1
unfolding copy_loop
copy_loop-step k left rest s p b w = (cc)

-- With the length of the rest for `left`, fuel for it and calls that take at least a byte.
pub copy_loop-Copied :
    (k : ℕ) (rest : List ℕ) (s : Sink)
    → length rest < k
    → Willing (length rest) s
    → Copied rest s (copy_loop k (length rest) rest s)
unfolding copy_loop
copy_loop-Copied zero rest s l w = absurd (omega arith)
copy_loop-Copied (suc k) [] s l w = record { result = refl; written = sym (append-nil s.written) }
copy_loop-Copied (suc k) (b ∷ bs) s l w =
    let block = take file_block_len (b ∷ bs) in
    let rest = drop file_block_len (b ∷ bs) in
    let lr : length rest ≡ length (b ∷ bs) - 4096 = length-drop file_block_len (b ∷ bs) in
    let lb = length-take file_block_len (b ∷ bs) in
    let el : length (b ∷ bs) - length block ≡ length rest = omega (arith, lr, lb) in
    let x =
      write_all-Written block s (length rest)
        (record { takes = w.takes; enough = omega (arith, lr, lb, w.enough) }) in
    let ih = copy_loop-Copied k rest (write_all block s).1 (omega (arith, lr)) x.willing in
    let e =
      copy_loop-step k (length (b ∷ bs)) (b ∷ bs) s (ground arith) (ground arith) x.status
      ∙ ap (λ n. copy_loop k n rest (write_all block s).1) el in
    record {
      result = ap (λ r. r.0) e ∙ ih.result;
      written =
          ap (λ r. r.1.written) e
          ∙ ih.written
          ∙ ap (λ l. l ++ rest) x.written
          ∙ append_assoc s.written block rest
          ∙ ap (λ l. s.written ++ l) (take-append-drop file_block_len (b ∷ bs));
    }
