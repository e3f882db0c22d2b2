-- ===== src/NodeList/Delete.antt =====
-- delete_list of list.c: the node behind the one at a given place is unlinked and freed.
use Prim.Native.Nat.{min}
use test_tools.Common.{
  ℕ, zero, suc, ◌≤◌, ◌<◌, ◌≡◌, ◌≢◌, refl, true, false, none, some, [], ◌∷◌, ◌++◌, arith, length,
  take, drop, ◌||◌, ◌==◌,
}
use test_tools.Common.Int.{ℤ, pos, negsuc}
use test_tools.NodeList.{Ptr, null, Widget, node, Heap, write, load, seek_before, delete_list}
use test_tools.NodeList.Chain.{Cells, has, Chain, end, link, load-some, Chain-write}
use test_tools.NodeList.Seek.{address_at, IsOutside, seek_before_lem}

abbrev pub remove_at : ℕ → Cells → Cells
remove_at n cs = take n cs ++ drop (suc n) cs

has-remove_at : (a : Ptr) (n : ℕ) (cs : Cells) → has a cs ≡ false → has a (remove_at n cs) ≡ false
has-remove_at a zero [] out = refl
has-remove_at a zero ((p, v) ∷ cs) out = ground arith
has-remove_at a (suc n) [] out = refl
has-remove_at a (suc n) ((p, v) ∷ cs) out = ground (arith, has-remove_at a n cs)

-- The heap that the two writes leave: `m` is unlinked from behind `q`.
abbrev unlinked : Heap → Ptr → Ptr → Widget → Ptr → Heap
unlinked h q m v r = write (write h q (some (node v r))) m none

-- Nodes number j and j + 1, and the chain without the second.
record Cut (h : Heap) (j : ℕ) (p : Ptr) (cs : Cells) : Type 0 where
  v : Widget
  m : Ptr
  u : Widget
  r : Ptr
  holds : h (address_at cs j) ≡ some (node v m)
  holds' : h m ≡ some (node u r)
  at : address_at cs j ≢ null
  at' : m ≢ null
  inside : has (address_at cs j) cs ≡ true
  inside' : has m cs ≡ true
  chain : Chain (unlinked h (address_at cs j) m v r) p (remove_at (suc j) cs)
  whole : (a : Ptr) → has a cs ≡ (has a (remove_at (suc j) cs) || a == m)

cut :
    (h : Heap) (j : ℕ) {p : Ptr} {c : Ptr × Widget} (cs : Cells)
    → Chain h p (c ∷ cs)
    → j < length cs
    → Cut h j p (c ∷ cs)
unfolding write
cut h j [] ch lt = absurd (omega arith)
cut h zero (d ∷ ds) (link {p} {q} {w = v} pn pe po (link {q = r} {w = u} qn qe qo ch)) lt = record {
  v = v;
  m = q;
  u = u;
  r = r;
  holds = pe;
  holds' = qe;
  at = pn;
  at' = qn;
  inside = ground arith;
  inside' = ground arith;
  chain =
      link {q = r} {w = v} pn (ground arith) (ground arith)
        (Chain-write q none (Chain-write p (some (node v r)) ch (ground arith)) qo);
  whole = λ a. ground arith;
}
cut h (suc j) (d ∷ ds) (link {p} {q} {w = v} pn pe po (link {q = r} {w = u} qn qe qo ch)) lt =
    let c = cut h j ds (link qn qe qo ch) (omega arith) in
    record {
      v = c.v;
      m = c.m;
      u = c.u;
      r = c.r;
      holds = c.holds;
      holds' = c.holds';
      at = c.at;
      at' = c.at';
      inside = ground arith;
      inside' = ground arith;
      chain =
          link {q = q} {w = v} pn (ground arith) (ground (arith, has-remove_at p (suc j) (d ∷ ds)))
            c.chain;
      whole = λ a. ground (arith, c.whole a);
    }

-- The heap after a removal: no address outside the list has changed, and the freed one holds nothing.
pub record Removed (h g : Heap) (n : ℕ) (p : Ptr) (cs : Cells) : Type 0 where
  pub chain : Chain g p (remove_at n cs)
  pub rest : (a : Ptr) → has a cs ≡ false → g a ≡ h a
  pub freed : (a : Ptr) → has a cs ≡ true → has a (remove_at n cs) ≡ false → g a ≡ none

pub delete_list-Removed :
    (k : ℕ) (h : Heap) (j : ℕ) {p : Ptr} (cs : Cells)
    → Chain h p cs
    → length cs ≤ k
    → suc j < length cs
    → (g : Heap) × (delete_list k h p (pos (suc j)) ≡ some (pos 0, g)) × Removed h g (suc j) p cs
unfolding delete_list
delete_list-Removed k h j [] ch fuel lt = absurd (omega arith)
delete_list-Removed k h j (x ∷ cs) ch fuel lt =
    let c = cut h j cs ch (omega arith) in
    (
      unlinked h (address_at (x ∷ cs) j) c.m c.v c.r,
      rw (seek_before_lem k h 0 j (suc j) cs ch (omega arith) (omega arith)) (
          let e : min j (length cs) ≡ j = omega arith in
          rw (e, load-some h (address_at (x ∷ cs) j) c.v c.m c.at c.holds)
            (ground (arith, load-some h c.m c.u c.r c.at' c.holds'))),
      record {
        chain = c.chain;
        rest = λ a i. unfold write in ground arith;
        freed = λ a i o. unfold write in ground (arith, c.whole a);
      },
    )

-- On a heap that holds a list, at a place from 1 that has a node behind it, `delete_list` returns 0
-- with a heap that holds the list without the node behind the place.
pub delete_list_in_range :
    (k : ℕ) (h : Heap) (j : ℕ) {p : Ptr} (cs : Cells)
    → Chain h p cs
    → length cs ≤ k
    → suc j < length cs
    → (g : Heap) × (delete_list k h p (pos (suc j)) ≡ some (pos 0, g))
      × Chain g p (remove_at (suc j) cs)
delete_list_in_range k h j cs ch fuel lt =
    let (g, run, r) = delete_list-Removed k h j cs ch fuel lt in (g, run, r.chain)

seek_before_not_positive :
    (k : ℕ) (h : Heap) {p : Ptr} {c : Ptr × Widget} (cs : Cells) (n : ℕ)
    → Chain h p (c ∷ cs)
    → (seek_before (suc k) h p 0 (pos 0) ≡ some (p, 0))
      × (seek_before (suc k) h p 0 (negsuc n) ≡ some (p, 0))
unfolding seek_before
seek_before_not_positive k h cs n (link {p} {q} {w} ne e out ch) =
    (rw (load-some h p w q ne e) (ground arith), rw (load-some h p w q ne e) (ground arith))

last-load :
    (h : Heap) {p : Ptr} {c : Ptr × Widget} (cs : Cells)
    → Chain h p (c ∷ cs)
    → (w : Widget) × (load h (address_at (c ∷ cs) (length cs)) ≡ some (node w null))
last-load h [] (link {p} {q} {w} ne e out (end z)) = (w, rw (load-some h p w q ne e) (rw z))
last-load h (d ∷ ds) (link ne e out ch) = last-load h ds ch

-- On a heap that holds a list of n + 1 nodes, at a place that is not from 1 to n, `delete_list`
-- returns -1 and changes nothing.
pub delete_list_outside :
    (k : ℕ) (h : Heap) (place : ℤ) {p : Ptr} {c : Ptr × Widget} (cs : Cells)
    → Chain h p (c ∷ cs)
    → length cs < k
    → IsOutside place (length cs)
    → delete_list k h p place ≡ some (negsuc 0, h)
unfolding delete_list
delete_list_outside zero h place cs ch fuel o = absurd (omega arith)
delete_list_outside (suc k) h (pos zero) cs (link {p} {q} {w} ne e out ch) fuel o =
    rw ((seek_before_not_positive k h cs 0 (link ne e out ch)).0, load-some h p w q ne e)
      (ground arith)
delete_list_outside (suc k) h (pos (suc j)) {c} cs ch fuel o =
    let (w, l) = last-load h cs ch in
    rw (seek_before_lem (suc k) h 0 j (suc j) cs ch fuel (omega arith))
      (let e : min j (length cs) ≡ length cs = omega arith in rw (e, l) (ground arith))
delete_list_outside (suc k) h (negsuc n) cs (link {p} {q} {w} ne e out ch) fuel o =
    rw ((seek_before_not_positive k h cs n (link ne e out ch)).1, load-some h p w q ne e)
      (ground arith)
