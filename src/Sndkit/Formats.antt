-- ===== src/Sndkit/Formats.antt =====
-- The sample formats and rates of sndkit.c.
use test_tools.Common.{ℕ, ◌+◌, Bool, true, false, ◌&&◌, List, [], ◌∷◌, ◌==◌, if◌then◌else◌, length}
use test_tools.Common.Int.{ℤ, pos, negsuc, eqb_ℤ}
use test_tools.Common.Text.{bytes}

-- The constants of soundcard.h and sndkit.c.
abbrev pub fmt_8_bits : ℕ
fmt_8_bits = 0x08

abbrev pub fmt_16_bits : ℕ
fmt_16_bits = 0x10

abbrev pub fmt_24_bits : ℕ
fmt_24_bits = 0x800

abbrev pub supported_fmts : List (List ℕ)
supported_fmts =
    bytes "S8"
    ∷ bytes "U8"
    ∷ bytes "S16_LE"
    ∷ bytes "S16_BE"
    ∷ bytes "U16_LE"
    ∷ bytes "U16_BE"
    ∷ bytes "S24_3LE"
    ∷ bytes "S24_3BE"
    ∷ bytes "U24_3LE"
    ∷ bytes "U24_3BE"
    ∷ []

-- `!strcmp(a, b)`
unfoldable pub same_text : List ℕ → List ℕ → Bool
same_text [] [] = true
same_text (x ∷ xs) (y ∷ ys) = (x == y) && same_text xs ys
same_text _ _ = false

-- The loop over the table: the index at which it ends.
unfoldable pub index_of : List (List ℕ) → List ℕ → ℕ → ℕ
unfolding same_text
index_of [] text i = i
index_of (name ∷ names) text i = if same_text name text then i else index_of names text (i + 1)

-- The variables that fmtstr_to_fmt sets beside its result.
pub record Adjust : Type 0 where
  pub sign_adjust : ℕ
  pub endian_adjust : ℕ

-- The `switch` with its cases that fall through: sign, endianness and format.
unfoldable pub format_case : ℕ → Adjust × ℕ
format_case i =
    let plain : Adjust = record { sign_adjust = 0; endian_adjust = 0 } in
    let sign : Adjust = record { sign_adjust = 1; endian_adjust = 0 } in
    let endian : Adjust = record { sign_adjust = 0; endian_adjust = 1 } in
    let both : Adjust = record { sign_adjust = 1; endian_adjust = 1 } in
    if i == 1
    then (sign, fmt_8_bits)
    else if i == 0
    then (plain, fmt_8_bits)
    else if i == 5
    then (both, fmt_16_bits)
    else if i == 4
    then (sign, fmt_16_bits)
    else if i == 7
    then (endian, fmt_24_bits)
    else if i == 6
    then (plain, fmt_24_bits)
    else if i == 9
    then (both, fmt_24_bits)
    else if i == 8
    then (sign, fmt_24_bits)
    else if i == 3
    then (endian, fmt_16_bits)
    else (plain, fmt_16_bits)

-- The result, -1 for a text that is not in the table.
unfoldable pub fmtstr_to_fmt : List ℕ → Adjust → ℤ × Adjust
unfolding index_of format_case
fmtstr_to_fmt text a =
    let i = index_of supported_fmts text 0 in
    if i == length supported_fmts then (negsuc 0, a) else (pos (format_case i).1, (format_case i).0)

abbrev pub support_rates : List ℕ
support_rates = 8000 ∷ 11025 ∷ 12000 ∷ 16000 ∷ 22050 ∷ 24000 ∷ 32000 ∷ 44100 ∷ 48000 ∷ 96000 ∷ []

unfoldable pub rate_in : List ℕ → ℤ → ℕ
rate_in [] rate = 0
rate_in (r ∷ rs) rate = if eqb_ℤ (pos r) rate then 1 else rate_in rs rate

unfoldable pub rate_is_supported : ℤ → ℕ
unfolding rate_in
rate_is_supported rate = rate_in support_rates rate

-- `format_bits` after the `switch` on the format; `other` where no case fits.
unfoldable pub bits_of : ℕ → ℕ → ℕ
bits_of format other =
    if format == fmt_8_bits
    then 8
    else if format == fmt_16_bits
    then 16
    else if format == fmt_24_bits
    then 24
    else other
