-- ===== src/Wav/Convert.antt =====
-- The conversions of samples between 24 and 32 bits in place.
use test_tools.Common.{
  ℕ, zero, suc, ◌+◌, ◌-◌, ◌*◌, ◌/◌, ◌%◌, ◌<◌, ◌≤◌, ◌≡◌, refl, false, none, some, arith, ◌==◌, ltb,
  if◌then◌else◌, ◌∙◌, Bool-cases, inl, inr,
}
use test_tools.Common.Bytes.{Mem, poke, put_bytes}
use test_tools.Wav.{expand_sample, expand_loop, expand_first, wav_expand_24bit_to_32bit}

-- `m'` holds the samples of `m` from number p up to n - 1, with a zero behind each, and agrees with
-- `m` outside of them.
pub record Expanded (m m' : Mem) (p n : ℕ) : Type 0 where
  pub byte : (i j : ℕ) → p ≤ i → i < n → j < 3 → m' (i * 4 + j) ≡ m (i * 3 + j)
  pub pad : (i : ℕ) → p ≤ i → i < n → m' (i * 4 + 3) ≡ 0
  pub above : (a : ℕ) → n * 4 ≤ a → m' a ≡ m a
  pub below : (a : ℕ) → a < p * 4 → m' a ≡ m a

-- A sample number p ≥ 3 is moved.
expand_sample-Expanded :
    (p : ℕ) (m : Mem) → 3 ≤ p → Expanded m (expand_sample (p * 3) (p * 4) m) p (suc p)
unfolding expand_sample poke
expand_sample-Expanded p m l = record {
  byte = λ i j li lj l3. ground arith;
  pad = λ i li lj. ground arith;
  above = λ a la. ground arith;
  below = λ a la. ground arith;
}

expand_first-Expanded : (m : Mem) → Expanded m (expand_first m) 0 3
unfolding expand_first put_bytes poke
expand_first-Expanded m = record {
  byte = λ i j li lj l3. small i j lj l3;
  pad = λ i li lj. zeros i lj;
  above = λ a la. ground arith;
  below = λ a la. omega (arith, la);
}
  where
    small : (i j : ℕ) → i < 3 → j < 3 → expand_first m (i * 4 + j) ≡ m (i * 3 + j)
    small i j lj l3 = ground arith

    zeros : (i : ℕ) → i < 3 → expand_first m (i * 4 + 3) ≡ 0
    zeros i lj = ground arith

-- Samples moved after others that stand above them.
Expanded-join :
    {m m1 m2 : Mem} {p q n : ℕ}
    → 0 < q
    → p ≤ q
    → q ≤ n
    → Expanded m m1 q n
    → Expanded m1 m2 p q
    → Expanded m m2 p n
Expanded-join {m} {m1} {m2} {p} {q} {n} lq lpq lqn e f = record {
  byte = byte;
  pad = pad;
  above = λ a la. f.above a (omega arith) ∙ e.above a la;
  below = λ a la. f.below a la ∙ e.below a (omega arith);
}
  where
    byte : (i j : ℕ) → p ≤ i → i < n → j < 3 → m2 (i * 4 + j) ≡ m (i * 3 + j)
    byte i j li ln lj = elim (Bool-cases (ltb i q)) [
      | inl l ↦ f.byte i j li (ground arith) lj ∙ e.below (i * 3 + j) (ground arith)
      | inr l ↦ f.above (i * 4 + j) (ground arith) ∙ e.byte i j (ground arith) ln lj
    ]

    pad : (i : ℕ) → p ≤ i → i < n → m2 (i * 4 + 3) ≡ 0
    pad i li ln = elim (Bool-cases (ltb i q)) [
      | inl l ↦ f.pad i li (ground arith)
      | inr l ↦ f.above (i * 4 + 3) (ground arith) ∙ e.pad i (ground arith) ln
    ]

expand_loop-Expanded :
    (k : ℕ) (m : Mem)
    → (m' : Mem) × (expand_loop k ((k + 2) * 3) ((k + 2) * 4) m ≡ (6, 8, m'))
      × Expanded m m' 3 (k + 3)
unfolding expand_loop
expand_loop-Expanded zero m = (
  m,
  refl,
  record {
    byte = λ i j li ln lj. omega arith;
    pad = λ i li ln. omega arith;
    above = λ a la. refl;
    below = λ a la. refl;
  },
)
expand_loop-Expanded (suc k) m =
    let m1 = expand_sample ((suc k + 2) * 3) ((suc k + 2) * 4) m in
    let (m', e, x) = expand_loop-Expanded k m1 in
    let es : (suc k + 2) * 3 - 3 ≡ (k + 2) * 3 = omega arith in
    let ed : (suc k + 2) * 4 - 4 ≡ (k + 2) * 4 = omega arith in
    let ep : suc k + 2 ≡ k + 3 = omega arith in
    let ee : suc k + 3 ≡ suc (k + 3) = omega arith in
    (
      m',
      rw (es, ed) e,
      Expanded-join (omega arith) (omega arith) (omega arith)
          (rw (ep, ee) (expand_sample-Expanded (k + 3) m (omega arith))) x,
    )

-- On n ≥ 3 samples of 24 bits, and up to two bytes more, wav_expand_24bit_to_32bit passes its
-- assertions and leaves the samples with a zero behind each, and nothing above them changed,
-- although the two areas overlap.
pub wav_expand-Expanded :
    (m : Mem) (n r : ℕ)
    → 3 ≤ n
    → r < 3
    → (m' : Mem) × (wav_expand_24bit_to_32bit m (n * 3 + r) ≡ some m') × Expanded m m' 0 n
unfolding wav_expand_24bit_to_32bit
wav_expand-Expanded m n r l lr =
    let len : ℕ = (if (n * 3 + r) % 3 == 0 then n * 3 + r else n * 3 + r - (n * 3 + r) % 3) in
    let e : len ≡ n * 3 = ground arith in
    let e' : n * 3 / 3 - 3 ≡ n - 3 = omega arith in
    let e1 : n * 3 - 3 ≡ (n - 3 + 2) * 3 = omega arith in
    let e2 : n * 3 / 3 * 4 - 4 ≡ (n - 3 + 2) * 4 = omega arith in
    let en : n - 3 + 3 ≡ n = omega arith in
    let (m', ex, x) = expand_loop-Expanded (n - 3) m in
    (
      expand_first m',
      rw (e, e', e1, e2, ex) refl,
      Expanded-join (omega arith) (omega arith) l (rw en at x) (expand_first-Expanded m'),
    )

-- On fewer than three samples wav_expand_24bit_to_32bit fails its assertion, whatever they are.
pub wav_expand-few : (m : Mem) (len : ℕ) → len < 9 → wav_expand_24bit_to_32bit m len ≡ none
unfolding wav_expand_24bit_to_32bit expand_loop
wav_expand-few m len l =
    let q : ℕ = (if len % 3 == 0 then len else len - len % 3) in
    let e : q / 3 - 3 ≡ 0 = ground arith in
    let e' : (q - 3 == 6) ≡ false = ground arith in rw (e, e') refl
