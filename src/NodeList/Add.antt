-- ===== src/NodeList/Add.antt =====
-- add_button and add_keyboard of list.c put a new node at the end of the list.
use test_tools.Common.{
  ℕ, zero, suc, ◌<◌, ◌≡◌, ◌≢◌, refl, none, ◌≤◌, ◌∙◌, false, some, [], ◌∷◌, ◌++◌, arith, length,
}
use test_tools.Common.Int.{pos, negsuc}
use test_tools.NodeList.{
  Ptr, null, Widget, button, keyboard, node, Heap, write, link_last, add_node, add_button,
  add_keyboard,
}
use test_tools.NodeList.Chain.{
  Cells, has, Chain, end, link, has-append, load-some, Chain-write, has-false_of_none,
}

-- The heap after the walk: the chain is longer by `fresh`, all other addresses are as before.
record Linked (h g : Heap) (p : Ptr) (cs : Cells) (fresh : Ptr) (w : Widget) : Type 0 where
  chain : Chain g p (cs ++ (fresh, w) ∷ [])
  rest : (a : Ptr) → has a cs ≡ false → g a ≡ h a

link_last-Linked :
    (k : ℕ) (h : Heap) (fresh : Ptr) (w : Widget) {p : Ptr} {c : Ptr × Widget} (cs : Cells)
    → Chain h p (c ∷ cs)
    → length cs < k
    → fresh ≢ null
    → h fresh ≡ some (node w null)
    → has fresh (c ∷ cs) ≡ false
    → (g : Heap) × (link_last k h p fresh ≡ some g) × Linked h g p (c ∷ cs) fresh w
unfolding link_last write
link_last-Linked zero h fresh w cs ch lt ne e out = absurd (omega arith)
link_last-Linked (suc k) h fresh w [] (link {p} {q} {w = v} pn pe po (end z)) lt ne e out = (
  write h p (some (node v fresh)),
  rw (load-some h p v q pn pe) (ground arith),
  record {
    chain = link pn (ground arith) (ground arith) (link ne (ground arith) refl (end refl));
    rest = λ a i. ground arith;
  },
)
link_last-Linked (suc k) h fresh w (d ∷ ds)
      (link {p} {q} {w = v} pn pe po (link {q = r} {w = u} qn qe qo c)) lt ne e out =
    let (g, run, l) =
      link_last-Linked k h fresh w ds (link qn qe qo c) (omega arith) ne e (ground arith) in
    (
      g,
      rw (load-some h p v q pn pe) (ground arith),
      record {
        chain =
            link pn (l.rest p po ∙ pe) (rw (has-append p (d ∷ ds) ((fresh, w) ∷ [])) (ground arith))
              l.chain;
        rest = λ a i. l.rest a (ground arith);
      },
    )

-- What the two functions promise of the heap: the new node stands last, the result is 0, and no
-- address outside the list and the new node changes.
pub record Added (h g : Heap) (head : Ptr) (cs : Cells) (fresh : Ptr) (w : Widget) : Type 0 where
  pub chain : Chain g head (cs ++ (fresh, w) ∷ [])
  pub rest : (a : Ptr) → has a cs ≡ false → a ≢ fresh → g a ≡ h a

pub add_node-Added :
    (k : ℕ) (h : Heap) (fresh : Ptr) (w : Widget) {p : Ptr} (cs : Cells)
    → Chain h p cs
    → length cs ≤ k
    → fresh ≢ null
    → h fresh ≡ none
    → (head : Ptr) × (g : Heap) × (add_node k fresh h p w ≡ some (pos 0, head, g))
      × Added h g head cs fresh w
unfolding add_node
add_node-Added k h fresh w [] (end z) le ne free = (
  fresh,
  write h fresh (some (node w null)),
  ground arith,
  record {
    chain = link {q = null} {w = w} ne (unfold write in ground arith) refl (end refl);
    rest = λ a i na. unfold write in ground arith;
  },
)
add_node-Added k h fresh w (c ∷ cs) (link {p} {q} {w = v} pn pe po ch) le ne free =
    let whole : Chain h p ((p, v) ∷ cs) = link pn pe po ch in
    let out : has fresh ((p, v) ∷ cs) ≡ false = has-false_of_none fresh whole free in
    let (g, run, l) =
      link_last-Linked k (write h fresh (some (node w null))) fresh w cs
        (Chain-write fresh (some (node w null)) whole out) (omega arith) ne
        (unfold write in ground arith) out in
    (
      p,
      g,
      ground arith,
      record { chain = l.chain; rest = λ a i na. l.rest a i ∙ (unfold write in ground arith) },
    )

pub add_button_full :
    (k : ℕ) (h : Heap) (p b : Ptr) → add_button k null h p b ≡ some (negsuc 0, p, h)
unfolding add_button add_node
add_button_full k h p b = refl

-- On a heap that holds a list, with a fresh address from `malloc` and fuel for the length of the
-- list, `add_button` returns 0 with a heap and a head where the list has the new node at its end
-- and nothing else has changed, and so does `add_keyboard`; where `malloc` returns `NULL` both
-- return -1 and change nothing.
pub add_button-Added :
    (k : ℕ) (h : Heap) (fresh b : Ptr) {p : Ptr} (cs : Cells)
    → Chain h p cs
    → length cs ≤ k
    → fresh ≢ null
    → h fresh ≡ none
    → ((head : Ptr) × (g : Heap) × (add_button k fresh h p b ≡ some (pos 0, head, g))
        × Added h g head cs fresh (button b))
      × ((head : Ptr) × (g : Heap) × (add_keyboard k fresh h p b ≡ some (pos 0, head, g))
          × Added h g head cs fresh (keyboard b))
      × (add_button k null h p b ≡ some (negsuc 0, p, h))
      × (add_keyboard k null h p b ≡ some (negsuc 0, p, h))
unfolding add_button add_keyboard
add_button-Added k h fresh b cs ch le ne free = (
  add_node-Added k h fresh (button b) cs ch le ne free,
  add_node-Added k h fresh (keyboard b) cs ch le ne free,
  add_button_full k h _ b,
  unfold add_node in refl,
)
