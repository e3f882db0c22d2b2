-- ===== src/Wav/Chunks.antt =====
-- Which files parse_wav_header accepts, with the chunks that it skips.
use test_tools.Common.{
  ℕ, ◌+◌, ◌%◌, ◌^◌, ◌≡◌, ◌⊎◌, inl, inr, refl, true, false, List, arith, ◌==◌, ◌∙◌, sym, Bool-cases,
}
use test_tools.Common.Text.{bytes}
use test_tools.Common.Bytes.{Mem, has_bytes}
use test_tools.Wav.{
  get16, get32, Out, skip_junk, skip_fact, parse_data, parse_fmt, parse_wav_header,
}

-- A chunk with this name stands at `p` and what follows it at `q`, or `q` is `p`.
abbrev pub Skipped : Mem → List ℕ → (p size q : ℕ) → Type 0
Skipped m name p size q =
    ((has_bytes m p name ≡ true) × (q ≡ p + size)) ⊎ ((has_bytes m p name ≡ false) × (q ≡ p))

-- An uncompressed WAV file with its fmt chunk at `f` and its data chunk at `d`: only a JUNK chunk
-- may stand before the one, and only a fact chunk of 12 bytes between them.
pub record IsWav (m : Mem) (f d : ℕ) : Type 0 where
  pub riff : has_bytes m 0 (bytes "RIFF") ≡ true
  pub wave : has_bytes m 8 (bytes "WAVE") ≡ true
  pub junk : Skipped m (bytes "JUNK") 12 ((get32 m 16 + 8) % 2 ^ 32) f
  pub fmt : has_bytes m f (bytes "fmt ") ≡ true
  pub uncompressed : get16 m (f + 8) ≡ 1
  pub fact : Skipped m (bytes "fact") (f + (get32 m (f + 4) + 8) % 2 ^ 32) 12 d
  pub body : has_bytes m d (bytes "data") ≡ true

-- What parse_wav_header reads of such a file.
abbrev pub read : Mem → ℕ → ℕ → ℕ × Out
read m f d = (
  get32 m (d + 4),
  record {
    head_len = (d + 8) % 2 ^ 32;
    channels = get16 m (f + 10);
    sample_rate = get32 m (f + 12);
    bits = get16 m (f + 22);
  },
)

-- The file is accepted and read, or it is no such file and the result is 0 with `*head_len` as it
-- was.
abbrev pub Answer : Mem → Out → ℕ × Out → Type 0
Answer m out r =
    ((f d : ℕ) × IsWav m f d × (r ≡ read m f d))
    ⊎ (((f d : ℕ) → IsWav m f d → ⊥) × (r.0 ≡ 0) × (r.1.head_len ≡ out.head_len))

module _ (m : Mem) where
  skip_junk-Skipped : Skipped m (bytes "JUNK") 12 ((get32 m 16 + 8) % 2 ^ 32) (skip_junk m 12)
  unfolding skip_junk
  skip_junk-Skipped = ground arith

  skip_fact-Skipped : (p : ℕ) → Skipped m (bytes "fact") p 12 (skip_fact m p)
  unfolding skip_fact
  skip_fact-Skipped p = ground arith

  Skipped-unique :
      (name : List ℕ) (p size q q' : ℕ)
      → Skipped m name p size q
      → Skipped m name p size q'
      → q ≡ q'
  Skipped-unique name p size q q' a b = ground arith

  at_junk : {f d : ℕ} → IsWav m f d → f ≡ skip_junk m 12
  at_junk w =
      Skipped-unique (bytes "JUNK") 12 ((get32 m 16 + 8) % 2 ^ 32) _ _ w.junk skip_junk-Skipped

  module _ (f : ℕ) (ef : f ≡ skip_junk m 12) where
    behind : ℕ
    behind = f + (get32 m (f + 4) + 8) % 2 ^ 32

    at_fact : {d : ℕ} → IsWav m f d → d ≡ skip_fact m behind
    unfolding behind
    at_fact w = Skipped-unique (bytes "fact") behind 12 _ _ w.fact (skip_fact-Skipped behind)

    -- A test that fails leaves no such file.
    refused :
        (out : Out) (r : ℕ × Out)
        → r.0 ≡ 0
        → r.1.head_len ≡ out.head_len
        → ((d : ℕ) → IsWav m f d → ⊥)
        → Answer m out r
    refused out r z same none_such =
        inr (λ f' d w. (let e : f' ≡ f = at_junk w ∙ sym ef in none_such d (rw e at w)), z, same)

    module _ (riff : has_bytes m 0 (bytes "RIFF") ≡ true)
        (wave : has_bytes m 8 (bytes "WAVE") ≡ true) where
      fmt-Answer : (out : Out) → Answer m out (parse_fmt m f out)
      unfolding parse_fmt parse_data behind
      fmt-Answer out = elim (Bool-cases (has_bytes m f (bytes "fmt "))) [
        | inr e ↦ rw e (refused out (0, out) refl refl λ d w. (let h = w.fmt in cc))
        | inl e ↦ elim (Bool-cases (get16 m (f + 8) == 1)) [
          | inr e' ↦
              rw (e, e')
                (refused out (0, out) refl refl λ d w. (let h = w.uncompressed in ground arith))
          | inl e' ↦
              rw (e, e')
                (elim (Bool-cases (has_bytes m (skip_fact m behind) (bytes "data"))) [
                  | inl e'' ↦ rw e'' (
                      inl (
                        f,
                        skip_fact m behind,
                        record {
                          riff = riff;
                          wave = wave;
                          junk = rw ef skip_junk-Skipped;
                          fmt = e;
                          uncompressed = ground arith;
                          fact = skip_fact-Skipped behind;
                          body = e'';
                        },
                        refl,
                      ))
                  | inr e'' ↦ rw e'' (
                      refused out (0, _) refl refl
                        λ d w. (let h = w.body in let h' = at_fact w in cc))
                ])
        ]
      ]

-- parse_wav_header accepts exactly the uncompressed WAV files with an optional JUNK chunk, a fmt
-- chunk, an optional fact chunk of 12 bytes and a data chunk, in this order, where the step over a JUNK or
-- fmt chunk is its length and 8 modulo 2^32. It returns the length in the data chunk, with the position
-- behind that length modulo 2^32 and the three numbers of the fmt chunk; for
-- any other file it returns 0 and does not change `*head_len`.
pub parse_wav_header-Answer : (m : Mem) (out : Out) → Answer m out (parse_wav_header m out)
unfolding parse_wav_header
parse_wav_header-Answer m out = elim (Bool-cases (has_bytes m 0 (bytes "RIFF"))) [
  | inr e ↦
      rw e (refused m (skip_junk m 12) refl out (0, out) refl refl λ d w. (let h = w.riff in cc))
  | inl e ↦ elim (Bool-cases (has_bytes m 8 (bytes "WAVE"))) [
    | inr e' ↦
        rw (e, e')
          (refused m (skip_junk m 12) refl out (0, out) refl refl λ d w. (let h = w.wave in cc))
    | inl e' ↦ rw (e, e') (fmt-Answer m (skip_junk m 12) refl e e' out)
  ]
]
