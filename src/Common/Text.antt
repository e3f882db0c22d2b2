-- ===== src/Common/Text.antt =====
-- Text as bytes, and `strstr`.
use Prim.Native.Char.{code}
use Prim.Native.String.{String}
use test_tools.Common.Tests.{◌==◌, if◌then◌else◌}
use Prim.Native.Nat.{ℕ}
use mathlib.Core.Bool.{Bool, true, false, ◌&&◌}
use mathlib.Core.Option.{Option, none, some}
use mathlib.Core.List.{List, [], ◌∷◌}

-- The bytes of an ASCII text.
abbrev pub bytes : String → List ℕ
bytes String.[] = []
bytes (String.◌∷◌ c s) = code c ∷ bytes s

unfoldable pub is_prefix : List ℕ → List ℕ → Bool
is_prefix [] l = true
is_prefix (x ∷ xs) [] = false
is_prefix (x ∷ xs) (y ∷ ys) = (x == y) && is_prefix xs ys

-- The rest of the text from the first occurrence on.
unfoldable pub strstr : List ℕ → List ℕ → Option (List ℕ)
unfolding is_prefix
strstr [] needle = if is_prefix needle [] then some [] else none
strstr (x ∷ xs) needle = if is_prefix needle (x ∷ xs) then some (x ∷ xs) else strstr xs needle

abbrev pub is_some {ℓ} : {A : Type ℓ} → Option A → Bool
is_some none = false
is_some (some a) = true

abbrev pub contains : List ℕ → List ℕ → Bool
contains l needle = is_some (strstr l needle)
