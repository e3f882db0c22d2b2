-- ===== src/Sndkit/Playing.antt =====
-- What `play` writes to the device.
use test_tools.Common.{
  ℕ, zero, suc, ◌+◌, ◌-◌, ◌*◌, ◌/◌, ◌^◌, ◌<◌, ◌≤◌, ◌≡◌, refl, Bool, true, false, ◌||◌, some, List,
  [], ◌∷◌, ◌++◌, map, arith, ◌==◌, ltb, if◌then◌else◌, length, take, get_or, All, ◌∙◌, sym, ap,
  append_assoc, append-nil, length-append, Bool-cases, ==_of_ne, lt→ltb, take_all, inl, inr, ◌⊎◌,
}
use test_tools.Common.Int.{pos}
use test_tools.Common.Bytes.{Mem, put_bytes, peek, peek-put_bytes, put_bytes-within}
use test_tools.Wav.Convert.{wav_expand-Expanded}
use test_tools.Sndkit.Io.{Read, got, returned, Sink, finished, write_all, positive_part}
use test_tools.Sndkit.Play.{ReplayParams, widens, to_write, play_loop, play}
use test_tools.Sndkit.Writing.{Willing, write_all-Written}
use test_tools.Sndkit.Copying.{Copied}

-- A zero behind each sample of three bytes; bytes that are no whole sample are left out.
abbrev pub widen : List ℕ → List ℕ
widen (x ∷ y ∷ z ∷ rest) = x ∷ y ∷ z ∷ 0 ∷ widen rest
widen _ = []

peek-widen :
    (n : ℕ) (block : List ℕ) (m : Mem) (a : ℕ)
    → length block ≡ n * 3
    → ((i j : ℕ) → i < n → j < 3 → m (a + (i * 4 + j)) ≡ get_or block (i * 3 + j) 0)
    → ((i : ℕ) → i < n → m (a + (i * 4 + 3)) ≡ 0)
    → peek m (n * 4) a ≡ widen block
unfolding peek
peek-widen zero [] m a l f g = refl
peek-widen zero (x ∷ block) m a l f g = absurd (omega arith)
peek-widen (suc n) [] m a l f g = absurd (omega arith)
peek-widen (suc n) (x ∷ []) m a l f g = absurd (omega arith)
peek-widen (suc n) (x ∷ y ∷ []) m a l f g = absurd (omega arith)
peek-widen (suc n) (x ∷ y ∷ z ∷ block) m a l f g =
    let e0 : m a ≡ x = ap m (omega arith) ∙ f 0 0 (omega arith) (omega arith) in
    let e1 : m (a + 1) ≡ y = ap m (omega arith) ∙ f 0 1 (omega arith) (omega arith) in
    let e2 : m (a + 1 + 1) ≡ z = ap m (omega arith) ∙ f 0 2 (omega arith) (omega arith) in
    let e3 : m (a + 1 + 1 + 1) ≡ 0 = ap m (omega arith) ∙ g 0 (omega arith) in
    let ih =
      peek-widen n block m (a + 1 + 1 + 1 + 1) (omega arith)
        (λ i j li lj.
          ap m (omega arith)
          ∙ f (suc i) j (omega arith) lj
          ∙ ap (λ k. get_or (x ∷ y ∷ z ∷ block) k 0) (three i j))
        (λ i li. ap m (omega arith) ∙ g (suc i) (omega arith)) in
    ap (λ k. peek m k a) (four n) ∙ (rw (e0, e1, e2, e3, ih) refl)
  where
    three : (i j : ℕ) → suc i * 3 + j ≡ suc (suc (suc (i * 3 + j)))
    three i j = omega arith

    four : (n : ℕ) → suc n * 4 ≡ suc (suc (suc (suc (n * 4))))
    four n = omega arith

-- What `play` makes of the bytes of one `read`.
abbrev pub sound_of : ReplayParams → List ℕ → List ℕ
sound_of p block = if widens p then widen block else block

-- The bytes of a call of `read` that `play` can handle: some, at most `buffer_size`, and where it widens
-- the samples whole samples and three at least.
pub record Sound (p : ReplayParams) (block : List ℕ) : Type 0 where
  pub some_bytes : 0 < length block
  pub fits : length block ≤ p.buffer_size
  pub samples : widens p ≡ true → (n : ℕ) × (3 ≤ n) × (length block ≡ n * 3)

to_write-Sound :
    (p : ReplayParams) (m : Mem) (block : List ℕ)
    → Sound p block
    → (m' : Mem) × (to_write p m block ≡ some (sound_of p block, m'))
unfolding to_write
to_write-Sound p m block h = elim (Bool-cases (widens p)) [
  | inl e ↦
      let (n, l, en) = h.samples e in
      let m1 = put_bytes 0 block m in
      let (m2, ex, x) = wav_expand-Expanded m1 n 0 l (omega arith) in
      let el : length block / 3 * 3 ≡ n * 3 + 0 = omega arith in
      let el' : length block / 3 * 3 / 3 * 4 ≡ n * 4 = omega arith in
      let w : peek m2 (n * 4) 0 ≡ widen block =
        peek-widen n block m2 0 en
          (λ i j li lj.
            ap m2 (omega arith)
            ∙ x.byte i j (omega arith) li lj
            ∙ ap m1 (omega arith)
            ∙ put_bytes-within 0 block m (i * 3 + j) 0 (omega arith))
          (λ i li. ap m2 (omega arith) ∙ x.pad i (omega arith) li) in
      (m2, rw (e, el, ex, el', w) refl)
  | inr e ↦ (put_bytes 0 block m, rw (e, peek-put_bytes 0 block m) refl)
]

-- The blocks as `play` writes them, and their lengths together.
abbrev pub sounds : ReplayParams → List (List ℕ) → List ℕ
sounds p [] = []
sounds p (block ∷ blocks) = sound_of p block ++ sounds p blocks

abbrev pub total : List (List ℕ) → ℕ
total [] = 0
total (block ∷ blocks) = length block + total blocks

play_loop-step :
    (p : ReplayParams) (forever : Bool) (reads : List Read) (left : ℕ) (m m' : Mem) (s : Sink)
    (block bytes : List ℕ)
    → (forever || ltb 0 left) ≡ true
    → take p.buffer_size block ≡ block
    → (length block == 0) ≡ false
    → to_write p m block ≡ some (bytes, m')
    → (write_all bytes s).0 ≡ finished
    → play_loop p forever (got block ∷ reads) left m s
      ≡ play_loop p forever reads
          (if forever then left else left - length block)
          m'
          (write_all bytes s).1
unfolding play_loop
play_loop-step p forever reads left m m' s block bytes e f g h i = (cc)

play_loop-end :
    (p : ReplayParams) (forever : Bool) (reads : List Read) (left : ℕ) (m : Mem) (s : Sink)
    → play_loop p forever (got [] ∷ reads) left m s ≡ (returned (pos 0), s)
unfolding play_loop
play_loop-end p forever reads left m s =
    let e : take {A = ℕ} p.buffer_size [] ≡ [] = take_all p.buffer_size [] (omega arith) in
    elim (Bool-cases (forever || ltb 0 left)) [ inl f ↦ (cc) | inr f ↦ (cc) ]

-- As long as blocks come there is something left to play.
abbrev pub Enough : (forever : Bool) (left : ℕ) → List (List ℕ) → Type 0
Enough forever left blocks = (forever ≡ true) ⊎ (total blocks ≤ left)

play_loop-Copied :
    (p : ReplayParams) (forever : Bool) (blocks : List (List ℕ)) (reads : List Read) (left : ℕ)
    (m : Mem) (s : Sink)
    → All (Sound p) blocks
    → Enough forever left blocks
    → Willing (length (sounds p blocks)) s
    → Copied (sounds p blocks) s (play_loop p forever (map got blocks ++ got [] ∷ reads) left m s)
play_loop-Copied p forever [] reads left m s h en w =
    let e = play_loop-end p forever reads left m s in
    record {
      result = ap (λ r. r.0) e;
      written = ap (λ r. r.1.written) e ∙ sym (append-nil s.written);
    }
play_loop-Copied p forever (block ∷ blocks) reads left m s h en w =
    let (m', ew) = to_write-Sound p m block h.0 in
    let bytes = sound_of p block in
    let la = length-append bytes (sounds p blocks) in
    let x =
      write_all-Written bytes s (length (sounds p blocks))
        (record { takes = w.takes; enough = omega (arith, la, w.enough) }) in
    let s' = (write_all bytes s).1 in
    let left' = (if forever then left else left - length block) in
    let goes : (forever || ltb 0 left) ≡ true =
      goes_on forever left block blocks h.0.some_bytes en in
    let e =
      play_loop-step p forever (map got blocks ++ got [] ∷ reads) left m m' s block bytes goes
        (take_all p.buffer_size block h.0.fits)
        (==_of_ne (length block) 0 (omega (arith, h.0.some_bytes))) ew x.status in
    let ih =
      play_loop-Copied p forever blocks reads left' m' s' h.1 (stays forever left block blocks en)
        x.willing in
    record {
      result = ap (λ r. r.0) e ∙ ih.result;
      written =
          ap (λ r. r.1.written) e
          ∙ ih.written
          ∙ ap (λ l. l ++ sounds p blocks) x.written
          ∙ append_assoc s.written bytes (sounds p blocks);
    }
  where
    goes_on :
        (forever : Bool) (left : ℕ) (block : List ℕ) (blocks : List (List ℕ))
        → 0 < length block
        → Enough forever left (block ∷ blocks)
        → (forever || ltb 0 left) ≡ true
    goes_on true left block blocks l en = refl
    goes_on false left block blocks l (inl e) = absurd (ground arith)
    goes_on false left block blocks l (inr e) = lt→ltb 0 left (omega arith)

    stays :
        (forever : Bool) (left : ℕ) (block : List ℕ) (blocks : List (List ℕ))
        → Enough forever left (block ∷ blocks)
        → Enough forever (if forever then left else left - length block) blocks
    stays true left block blocks en = inl refl
    stays false left block blocks (inl e) = inl e
    stays false left block blocks (inr e) = inr (omega arith)

-- Let the reads give blocks and then the end of the file, and every block have at least a byte, at
-- most `buffer_size`, and for a WAV file of 24 bits whole samples and three at least; let the data
-- length be 0 (which stands for all) or at least that of the blocks and less than 2^31. With a device whose calls take a
-- byte or more each, `play` returns 0 and writes the blocks, each sample of 24 bits with a zero behind.
pub play-Copied :
    (p : ReplayParams) (blocks : List (List ℕ)) (reads : List Read) (m : Mem) (s : Sink)
    → All (Sound p) blocks
    → (p.replay_data_len ≡ 0) ⊎ ((total blocks ≤ p.replay_data_len) × (p.replay_data_len < 2 ^ 31))
    → Willing (length (sounds p blocks)) s
    → Copied (sounds p blocks) s (play p true (map got blocks ++ got [] ∷ reads) m s)
unfolding play
play-Copied p blocks reads m s h (inl e) w =
    play_loop-Copied p (p.replay_data_len == 0) blocks reads (positive_part p.replay_data_len) m s h
      (inl (rw e refl)) w
play-Copied p blocks reads m s h (inr (e, u)) w =
    let ep : positive_part p.replay_data_len ≡ p.replay_data_len =
      rw (lt→ltb p.replay_data_len (2 ^ 31) u) refl in
    rw ep
      (play_loop-Copied p (p.replay_data_len == 0) blocks reads p.replay_data_len m s h (inr e) w)
