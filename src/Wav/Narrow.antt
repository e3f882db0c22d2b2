-- ===== src/Wav/Narrow.antt =====
-- wav_32bit_to_24bit: the fourth byte of each sample is dropped, in place.
use test_tools.Common.{
  ℕ, zero, suc, ◌+◌, ◌*◌, ◌/◌, ◌%◌, ◌<◌, ◌≤◌, ◌≡◌, refl, some, arith, ltb, ◌∙◌, Bool-cases, inl,
  inr,
}
use test_tools.Common.Bytes.{Mem, poke}
use test_tools.Wav.{narrow_sample, narrow_loop, wav_32bit_to_24bit, wav_expand_24bit_to_32bit}
use test_tools.Wav.Convert.{Expanded, wav_expand-Expanded}

-- `m'` holds the samples of `m` from number p up to n - 1 without their fourth byte, and agrees with
-- `m` outside of them.
pub record Narrowed (m m' : Mem) (p n : ℕ) : Type 0 where
  pub byte : (i j : ℕ) → p ≤ i → i < n → j < 3 → m' (i * 3 + j) ≡ m (i * 4 + j)
  pub above : (a : ℕ) → n * 3 ≤ a → m' a ≡ m a
  pub below : (a : ℕ) → a < p * 3 → m' a ≡ m a

narrow_sample-Narrowed : (p : ℕ) (m : Mem) → Narrowed m (narrow_sample (p * 4) (p * 3) m) p (suc p)
unfolding narrow_sample poke
narrow_sample-Narrowed p m = record {
  byte = λ i j li lj l3. ground arith;
  above = λ a la. ground arith;
  below = λ a la. ground arith;
}

-- Samples moved before others that stand above them.
Narrowed-join :
    {m m1 m2 : Mem} {p n : ℕ}
    → suc p ≤ n
    → Narrowed m m1 p (suc p)
    → Narrowed m1 m2 (suc p) n
    → Narrowed m m2 p n
Narrowed-join {m} {m1} {m2} {p} {n} lpn e f = record {
  byte = byte;
  above = λ a la. f.above a la ∙ e.above a (omega arith);
  below = λ a la. f.below a (omega arith) ∙ e.below a la;
}
  where
    byte : (i j : ℕ) → p ≤ i → i < n → j < 3 → m2 (i * 3 + j) ≡ m (i * 4 + j)
    byte i j li ln lj = elim (Bool-cases (ltb i (suc p))) [
      | inl l ↦ f.below (i * 3 + j) (ground arith) ∙ e.byte i j li (ground arith) lj
      | inr l ↦ f.byte i j (ground arith) ln lj ∙ e.above (i * 4 + j) (ground arith)
    ]

narrow_loop-Narrowed :
    (k p n : ℕ) (m : Mem)
    → p ≤ n
    → n < p + k
    → (m' : Mem) × (narrow_loop k (n * 4) (p * 4) (p * 4) (p * 3) m ≡ some m') × Narrowed m m' p n
unfolding narrow_loop
narrow_loop-Narrowed zero p n m l lk = absurd (omega arith)
narrow_loop-Narrowed (suc k) p n m l lk = elim (Bool-cases (ltb (p * 4) (n * 4))) [
  | inl h ↦
      let m1 = narrow_sample (p * 4) (p * 3) m in
      let (m', e, x) = narrow_loop-Narrowed k (suc p) n m1 (ground arith) (omega arith) in
      let e4 : p * 4 + 4 ≡ suc p * 4 = omega arith in
      let e3 : p * 3 + 3 ≡ suc p * 3 = omega arith in
      (m', rw (h, e4, e3) e, Narrowed-join (ground arith) (narrow_sample-Narrowed p m) x)
  | inr h ↦ (
    m,
    rw h refl,
    record { byte = λ i j li ln lj. ground arith; above = λ a la. refl; below = λ a la. refl },
  )
]

-- On n samples of 32 bits wav_32bit_to_24bit ends with the samples without their fourth bytes, and
-- nothing above the n narrow samples changed.
pub wav_narrow-Narrowed :
    (m : Mem) (n : ℕ) → (m' : Mem) × (wav_32bit_to_24bit m (n * 4) ≡ some m') × Narrowed m m' 0 n
unfolding wav_32bit_to_24bit
wav_narrow-Narrowed m n = narrow_loop-Narrowed (n * 4 + 1) 0 n m (omega arith) (omega arith)

-- On n ≥ 3 samples wav_32bit_to_24bit undoes wav_expand_24bit_to_32bit: both end, and the 3 * n
-- bytes are the old ones.
pub narrow-expand :
    (m : Mem) (n : ℕ)
    → 3 ≤ n
    → (m1 m2 : Mem) × (wav_expand_24bit_to_32bit m (n * 3) ≡ some m1)
      × (wav_32bit_to_24bit m1 (n * 4) ≡ some m2)
      × ((a : ℕ) → a < n * 3 → m2 a ≡ m a)
narrow-expand m n l =
    let (m1, e1, x) = wav_expand-Expanded m n 0 l (omega arith) in
    let (m2, e2, y) = wav_narrow-Narrowed m1 n in
    let en : n * 3 ≡ n * 3 + 0 = omega arith in (m1, m2, rw en e1, e2, same m1 m2 x y)
  where
    same : (m1 m2 : Mem) → Expanded m m1 0 n → Narrowed m1 m2 0 n → (a : ℕ) → a < n * 3 → m2 a ≡ m a
    same m1 m2 x y a la =
        let e : a ≡ a / 3 * 3 + a % 3 = omega arith in
        let b : m2 (a / 3 * 3 + a % 3) ≡ m (a / 3 * 3 + a % 3) =
          y.byte (a / 3) (a % 3) (omega arith) (omega arith) (omega arith)
          ∙ x.byte (a / 3) (a % 3) (omega arith) (omega arith) (omega arith) in
        cc
