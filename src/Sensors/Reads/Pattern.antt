-- ===== src/Sensors/Reads/Pattern.antt =====
-- The pattern that test_mic.c looks for.
use test_tools.Common.{
  ℕ, zero, suc, ◌+◌, ◌*◌, ◌%◌, ◌<◌, ◌≡◌, refl, true, some, List, arith, ◌∙◌, ap,
}
use test_tools.Common.Int.{pos}
use test_tools.Common.Bytes.{Mem}
use test_tools.Sensors.Reads.{filled, mic_loop, test_mic}

-- The pairs 0x73 0xfa from `j` on.
mic_loop-pairs :
    (n : ℕ) (buf : Mem) (j num : ℕ)
    → ((i : ℕ) → i < n → (buf (j + 2 * i) % 256 ≡ 0x73) × (buf (j + 2 * i + 1) % 256 ≡ 0xfa))
    → mic_loop n buf j num ≡ num + n
unfolding mic_loop
mic_loop-pairs zero buf j num h = omega arith
mic_loop-pairs (suc n) buf j num h =
    let (a, b) = h 0 (omega arith) in
    let a' : buf j % 256 ≡ 0x73 = ap (λ k. buf k % 256) (omega arith) ∙ a in
    let b' : buf (j + 1) % 256 ≡ 0xfa = ap (λ k. buf k % 256) (omega arith) ∙ b in
    rw (a', b')
      (mic_loop-pairs n buf (j + 2) (num + 1) (λ i l.
          let (c, d) = h (suc i) (omega arith) in
          (ap (λ k. buf k % 256) (omega arith) ∙ c, ap (λ k. buf k % 256) (omega arith) ∙ d))
        ∙ omega arith)

-- Where the nine pairs of bytes from the second on are all 0x73 0xfa, the test of the microphone
-- passes: the loop counts nine of them, and the test looks for eight.
pub test_mic-pattern :
    (bs : List ℕ) (m : Mem)
    → ((i : ℕ)
        → i < 9
        → (filled bs m (1 + 2 * i) % 256 ≡ 0x73) × (filled bs m (1 + 2 * i + 1) % 256 ≡ 0xfa))
    → test_mic true (some bs) m ≡ pos 0
unfolding test_mic
test_mic-pattern bs m h = rw (mic_loop-pairs 9 (filled bs m) 1 0 h) refl
