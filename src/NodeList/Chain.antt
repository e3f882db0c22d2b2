-- ===== src/NodeList/Chain.antt =====
-- Which heaps hold a list: from a pointer the `pNext` fields lead through given cells to `NULL`.
use test_tools.Common.{
  ◌≡◌, ◌≢◌, refl, Bool, true, false, ◌||◌, Option, none, some, List, [], ◌∷◌, ◌++◌, arith, ◌==◌,
}
use test_tools.NodeList.{Ptr, null, Widget, node, Heap, write, load}

-- Address and content of each node, in order.
abbrev pub Cells : Type 0
Cells = List (Ptr × Widget)

abbrev pub has : Ptr → Cells → Bool
has a [] = false
has a ((p, w) ∷ cs) = (a == p) || has a cs

pub data Chain (h : Heap) : Ptr → Cells → Type 0 where
  end : {p : Ptr} → p ≡ null → Chain h p []
  link :
      {p q : Ptr} {w : Widget} {cs : Cells}
      → p ≢ null
      → h p ≡ some (node w q)
      → has p cs ≡ false
      → Chain h q cs
      → Chain h p ((p, w) ∷ cs)

pub load-some :
    (h : Heap) (p : Ptr) (w : Widget) (q : Ptr)
    → p ≢ null
    → h p ≡ some (node w q)
    → load h p ≡ some (node w q)
unfolding load
load-some h p w q ne e = ground arith

-- A chain is the same in any heap that agrees at its own addresses.
pub Chain-frame :
    {h : Heap} (g : Heap) {p : Ptr} {cs : Cells}
    → Chain h p cs
    → ((a : Ptr) → has a cs ≡ true → g a ≡ h a)
    → Chain g p cs
Chain-frame g (end e) same = end e
Chain-frame g (link {p} ne e out c) same =
    link ne (ground (arith, same p)) out (Chain-frame g c λ a i. same a (ground arith))

pub Chain-write :
    {h : Heap} (a : Ptr) (c : Option _) {p : Ptr} {cs : Cells}
    → Chain h p cs
    → has a cs ≡ false
    → Chain (write h a c) p cs
unfolding write
Chain-write a c ch out = Chain-frame _ ch (λ b i. ground arith)

-- An address that holds no node is not on the chain.
pub has-false_of_none :
    {h : Heap} (a : Ptr) {p : Ptr} {cs : Cells} → Chain h p cs → h a ≡ none → has a cs ≡ false
has-false_of_none a (end e) unused = refl
has-false_of_none a (link e f out c) unused = ground (arith, has-false_of_none a c unused)

pub head-null_iff : {h : Heap} {p : Ptr} {cs : Cells} → Chain h p cs → p ≡ null → cs ≡ []
head-null_iff (end e) z = refl
head-null_iff (link ne e out c) z = absurd (ne z)

pub has-append : (a : Ptr) (cs ds : Cells) → has a (cs ++ ds) ≡ (has a cs || has a ds)
has-append a [] ds = refl
has-append a ((p, w) ∷ cs) ds = ground (arith, has-append a cs ds)
