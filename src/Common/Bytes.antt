-- ===== src/Common/Bytes.antt =====
-- Memory as a byte for each offset from a pointer.
use Prim.Native.Nat.{ℕ, zero, suc, ◌+◌, ◌<◌, ◌≤◌}
use mathlib.Core.Path.{◌≡◌, refl, ap, ◌∙◌}
use native.Mathlib.Omega.{arith}
use test_tools.Common.Lists.{length, get_or}
use mathlib.Core.Bool.{Bool, true, ◌&&◌}
use mathlib.Core.List.{List, [], ◌∷◌}
use test_tools.Common.Tests.{◌==◌, if◌then◌else◌}

abbrev pub Mem : Type 0
Mem = ℕ → ℕ

unfoldable pub poke : ℕ → ℕ → Mem → Mem
poke a v m b = if b == a then v else m b

unfoldable pub put_bytes : ℕ → List ℕ → Mem → Mem
unfolding poke
put_bytes a [] m = m
put_bytes a (v ∷ vs) m = put_bytes (a + 1) vs (poke a v m)

unfoldable pub has_bytes : Mem → ℕ → List ℕ → Bool
has_bytes m a [] = true
has_bytes m a (v ∷ vs) = (m a == v) && has_bytes m (a + 1) vs

-- The `n` bytes at `a`.
unfoldable pub peek : Mem → (n a : ℕ) → List ℕ
peek m zero a = []
peek m (suc n) a = m a ∷ peek m n (a + 1)

pub put_bytes-below : (i : ℕ) (bs : List ℕ) (m : Mem) (a : ℕ) → a < i → put_bytes i bs m a ≡ m a
unfolding put_bytes
put_bytes-below i [] m a l = refl
put_bytes-below i (x ∷ bs) m a l =
    put_bytes-below (i + 1) bs (poke i x m) a (omega arith) ∙ (unfold poke in ground arith)

pub put_bytes-above :
    (i : ℕ) (bs : List ℕ) (m : Mem) (a : ℕ) → i + length bs ≤ a → put_bytes i bs m a ≡ m a
unfolding put_bytes
put_bytes-above i [] m a l = refl
put_bytes-above i (x ∷ bs) m a l =
    put_bytes-above (i + 1) bs (poke i x m) a (omega arith) ∙ (unfold poke in ground arith)

pub peek-put_bytes : (a : ℕ) (bs : List ℕ) (m : Mem) → peek (put_bytes a bs m) (length bs) a ≡ bs
unfolding peek put_bytes
peek-put_bytes a [] m = refl
peek-put_bytes a (b ∷ bs) m =
    let e : put_bytes (a + 1) bs (poke a b m) a ≡ b =
      put_bytes-below (a + 1) bs (poke a b m) a (omega arith) ∙ (unfold poke in ground arith) in
    rw (e, peek-put_bytes (a + 1) bs (poke a b m)) refl

pub length-peek : (m : Mem) (n a : ℕ) → length (peek m n a) ≡ n
unfolding peek
length-peek m zero a = refl
length-peek m (suc n) a = ap suc (length-peek m n (a + 1))

pub get_or-peek : (m : Mem) (n a i d : ℕ) → i < n → get_or (peek m n a) i d ≡ m (a + i)
unfolding peek
get_or-peek m zero a i d l = absurd (omega arith)
get_or-peek m (suc n) a zero d l = ap m (omega arith)
get_or-peek m (suc n) a (suc i) d l = get_or-peek m n (a + 1) i d (omega arith) ∙ ap m (omega arith)

pub put_bytes-within :
    (a : ℕ) (bs : List ℕ) (m : Mem) (i d : ℕ)
    → i < length bs
    → put_bytes a bs m (a + i) ≡ get_or bs i d
unfolding put_bytes
put_bytes-within a [] m i d l = absurd (omega arith)
put_bytes-within a (b ∷ bs) m zero d l =
    ap (put_bytes (a + 1) bs (poke a b m)) (omega arith)
    ∙ put_bytes-below (a + 1) bs (poke a b m) a (omega arith)
    ∙ (unfold poke in ground arith)
put_bytes-within a (b ∷ bs) m (suc i) d l =
    ap (put_bytes (a + 1) bs (poke a b m)) (omega arith)
    ∙ put_bytes-within (a + 1) bs (poke a b m) i d (omega arith)

-- The memories have the same bytes at the first `n` offsets.
abbrev pub Agree : (n : ℕ) (m m' : Mem) → Type 0
Agree n m m' = (a : ℕ) → a < n → m' a ≡ m a

pub has_bytes-Agree :
    (n : ℕ) (m m' : Mem) (a : ℕ) (vs : List ℕ)
    → Agree n m m'
    → a + length vs ≤ n
    → has_bytes m' a vs ≡ has_bytes m a vs
unfolding has_bytes
has_bytes-Agree n m m' a [] g l = refl
has_bytes-Agree n m m' a (v ∷ vs) g l =
    rw (g a (omega arith), has_bytes-Agree n m m' (a + 1) vs g (omega arith)) refl
