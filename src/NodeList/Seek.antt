-- ===== src/NodeList/Seek.antt =====
-- The walks of list.c: how far they get, and that they end.
use Prim.Native.Nat.{min}
use test_tools.Common.{◌≤◌, ℕ, zero, suc, ◌+◌, ◌<◌, ◌≡◌, some, [], ◌∷◌, arith, length}
use test_tools.Common.Int.{ℤ, pos, negsuc}
use test_tools.NodeList.{Ptr, null, Widget, Heap, seek, seek_before, length_loop}
use test_tools.NodeList.Chain.{Cells, Chain, end, link, load-some}

-- The address of the i-th node, `NULL` past the end.
abbrev pub address_at : Cells → ℕ → Ptr
address_at [] i = null
address_at ((a, w) ∷ cs) zero = a
address_at ((a, w) ∷ cs) (suc i) = address_at cs i

-- The walk for place j + 1 stops at the j-th node from where it stands, or at the end.
pub seek_lem :
    (k : ℕ) (h : Heap) (i j place : ℕ) {p : Ptr} (cs : Cells)
    → Chain h p cs
    → length cs < k
    → place ≡ suc (i + j)
    → seek k h p i (pos place) ≡ some (address_at cs j, i + min j (length cs))
unfolding seek
seek_lem zero h i j place cs ch lt e = absurd (omega arith)
seek_lem (suc k) h i j place [] (end z) lt e = ground arith
seek_lem (suc k) h i zero place (c ∷ cs) (link ne f out ch) lt e = ground arith
seek_lem (suc k) h i (suc j) place (c ∷ cs) (link {p} {q} {w} ne f out ch) lt e =
    rw (load-some h p w q ne f) (ground (arith, seek_lem k h (i + 1) j place cs ch))

-- The walk of `delete_list` does not leave the list: it stops at the last node at the latest.
pub seek_before_lem :
    (k : ℕ) (h : Heap) (i j place : ℕ) {p : Ptr} {c : Ptr × Widget} (cs : Cells)
    → Chain h p (c ∷ cs)
    → length cs < k
    → place ≡ suc (i + j)
    → seek_before k h p i (pos place)
      ≡ some (address_at (c ∷ cs) (min j (length cs)), i + min j (length cs))
unfolding seek_before
seek_before_lem zero h i j place cs ch lt e = absurd (omega arith)
seek_before_lem (suc k) h i j place [] (link {p} {q} {w} ne f out (end z)) lt e =
    rw (load-some h p w q ne f) (ground arith)
seek_before_lem (suc k) h i zero place (d ∷ ds) (link {p} {q} {w} ne f out ch) lt e =
    rw (load-some h p w q ne f) (ground arith)
seek_before_lem (suc k) h i (suc j) place (d ∷ ds)
      (link {p} {q} {w} ne f out (link {q = r} {w = v} ne' f' out' ch)) lt e =
    rw (load-some h p w q ne f)
      (ground (arith, seek_before_lem k h (i + 1) j place ds (link ne' f' out' ch)))

pub length_loop_lem :
    (k : ℕ) (h : Heap) (n : ℕ) {p : Ptr} (cs : Cells)
    → Chain h p cs
    → length cs < k
    → length_loop k h p n ≡ some (n + length cs)
unfolding length_loop
length_loop_lem zero h n cs ch lt = absurd (omega arith)
length_loop_lem (suc k) h n [] (end z) lt = ground arith
length_loop_lem (suc k) h n (c ∷ cs) (link {p} {q} {w} ne e out ch) lt =
    rw (load-some h p w q ne e) (ground (arith, length_loop_lem k h (n + 1) cs ch))

-- A place that is not from 1 to `n`.
abbrev pub IsOutside : ℤ → ℕ → Type 0
IsOutside (pos zero) n = Unit
IsOutside (pos (suc j)) n = n ≤ j
IsOutside (negsuc j) n = Unit
