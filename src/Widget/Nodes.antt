-- ===== src/Widget/Nodes.antt =====
-- The button list of widget.c as the nodes of list.c: the searches that follow `pNext` find what the
-- searches in the list of addresses find, and `add_button` appends to that list.
use test_tools.Common.{
  ℕ, zero, suc, ◌<◌, ◌≡◌, refl, Bool, false, not, Option, none, some, List, [], ◌∷◌, ◌++◌, ◌==◌,
  if◌then◌else◌, length, arith, ◌∙◌, ap, sym, subst, Bool-cases, inl, inr,
}
use test_tools.Common.Bind.{◌>>=◌}
use test_tools.Common.Int.{ℤ, pos, negsuc}
use test_tools.NodeList
use test_tools.NodeList.{null, button, keyboard, Heap, load, add_button}
use test_tools.NodeList.Chain.{Cells, Chain, end, link, load-some}
use test_tools.NodeList.Add.{add_button-Added, add_button_full}
use test_tools.Widget.Types.{Ptr, Ui, Button, Touch}
use test_tools.Widget.Setup.{append_button}
use test_tools.Widget.Touch.{istouchingbutton, find_button_by_position, find_button_by_id}

-- `mnode->widget.button`: `none` where the node holds a keyboard.
abbrev pub button_of : NodeList.Widget → Option Ptr
button_of (button b) = some b
button_of (keyboard b) = none

-- The loop of the two searches with the test of a button: `mbutton`, or `none` for no button.
pub find_node : ℕ → Heap → (Ptr → Bool) → (mnode : Ptr) → Option (Option Ptr)
find_node zero h test mnode = none
find_node (suc k) h test mnode =
    let rest = (do
      n ← load h mnode
      b ← button_of n.widget
      let next = find_node k h test n.next
      if test b then some (some b) else next) in
    if mnode == null then some none else rest

pub find_node_by_position : ℕ → Heap → (Ptr → Button) → Touch → Ptr → Option (Option Ptr)
find_node_by_position k h at t mlist = find_node k h (λ b. istouchingbutton (at b) t == 1) mlist

pub find_node_by_id : ℕ → Heap → (Ptr → Button) → ℕ → Ptr → Option (Option Ptr)
find_node_by_id k h at id mlist = find_node k h (λ b. (at b).id == id) mlist

-- The addresses of nodes with the buttons that they hold, as the cells of a list and as the buttons.
abbrev pub cells_of : List (Ptr × Ptr) → Cells
cells_of [] = []
cells_of ((a, b) ∷ ns) = (a, button b) ∷ cells_of ns

abbrev pub buttons_of : List (Ptr × Ptr) → List Ptr
buttons_of [] = []
buttons_of ((a, b) ∷ ns) = b ∷ buttons_of ns

cells_of-append :
    (ns : List (Ptr × Ptr)) (a b : Ptr)
    → cells_of (ns ++ (a, b) ∷ []) ≡ cells_of ns ++ (a, button b) ∷ []
cells_of-append [] a b = refl
cells_of-append ((c, d) ∷ ns) a b = ap (λ l. (c, button d) ∷ l) (cells_of-append ns a b)

buttons_of-append :
    (ns : List (Ptr × Ptr)) (a b : Ptr) → buttons_of (ns ++ (a, b) ∷ []) ≡ buttons_of ns ++ b ∷ []
buttons_of-append [] a b = refl
buttons_of-append ((c, d) ∷ ns) a b = ap (λ l. d ∷ l) (buttons_of-append ns a b)

length-cells_of : (ns : List (Ptr × Ptr)) → length (cells_of ns) ≡ length ns
length-cells_of [] = refl
length-cells_of ((a, b) ∷ ns) = ap suc (length-cells_of ns)

length-buttons_of : (ns : List (Ptr × Ptr)) → length (buttons_of ns) ≡ length ns
length-buttons_of [] = refl
length-buttons_of ((a, b) ∷ ns) = ap suc (length-buttons_of ns)

first_of : (Ptr → Bool) → List Ptr → Option Ptr
first_of test [] = none
first_of test (b ∷ bs) = if test b then some b else first_of test bs

find_node-first_of :
    (k : ℕ) (h : Heap) (test : Ptr → Bool) {p : Ptr} (ns : List (Ptr × Ptr))
    → Chain h p (cells_of ns)
    → length ns < k
    → find_node k h test p ≡ some (first_of test (buttons_of ns))
unfolding find_node first_of
find_node-first_of zero h test ns ch lt = absurd (omega arith)
find_node-first_of (suc k) h test [] (end z) lt = rw z refl
find_node-first_of (suc k) h test ((a, b) ∷ ns) (link {q} pn pe po ch) lt =
    let live : (a == null) ≡ false = ground arith in
    rw (live, load-some h a (button b) q pn pe)
      (elim (Bool-cases (test b)) [
        | inl hit ↦ rw hit refl
        | inr miss ↦ rw miss (find_node-first_of k h test ns ch (omega arith))
      ])

by_position-first_of :
    (at : Ptr → Button) (t : Touch) (bs : List Ptr)
    → first_of (λ b. istouchingbutton (at b) t == 1) bs ≡ find_button_by_position at t bs
unfolding first_of find_button_by_position
by_position-first_of at t [] = refl
by_position-first_of at t (b ∷ bs) = rw (by_position-first_of at t bs) refl

by_id-first_of :
    (at : Ptr → Button) (id : ℕ) (bs : List Ptr)
    → first_of (λ b. (at b).id == id) bs ≡ find_button_by_id at id bs
unfolding first_of find_button_by_id
by_id-first_of at id [] = refl
by_id-first_of at id (b ∷ bs) = rw (by_id-first_of at id bs) refl

-- A heap that holds the button list of the state as nodes.
pub record HoldsButtons (h : Heap) (head : Ptr) (s : Ui) : Type 0 where
  pub nodes : List (Ptr × Ptr)
  pub chain : Chain h head (cells_of nodes)
  pub buttons : buttons_of nodes ≡ s.button_list

grown :
    (k : ℕ) (h : Heap) (head : Ptr) (s : Ui) (fresh b : Ptr) (hb : HoldsButtons h head s)
    → length hb.nodes < k
    → h fresh ≡ none
    → (r : ℤ) × (head' : Ptr) × (g : Heap) × (add_button k fresh h head b ≡ some (r, head', g))
      × HoldsButtons g head' (append_button (not (fresh == null)) b s)
unfolding append_button
grown k h head s fresh b hb short unused = elim (Bool-cases (fresh == null)) [
  | inl z ↦
      let at : fresh ≡ null = ground arith in
      (negsuc 0, head, h, rw at (add_button_full k h head b), rw z hb)
  | inr nz ↦
      let ns = hb.nodes in
      let (head', g, run, a) =
        (add_button-Added k h fresh b (cells_of ns) hb.chain
          (omega (arith, length-cells_of ns, short)) (ground arith) unused).0 in
      (
        pos 0,
        head',
        g,
        run,
        rw nz (record {
          nodes = ns ++ (fresh, b) ∷ [];
          chain = subst (Chain g head') (sym (cells_of-append ns fresh b)) a.chain;
          buttons = buttons_of-append ns fresh b ∙ ap (λ l. l ++ b ∷ []) hb.buttons;
        }),
      )
]

-- If the nodes from `head` on hold the button list of a state, with fuel for the list and nothing at
-- the address that `malloc` returns: the two searches along `pNext` find what the searches in the list
-- find; and `add_button` with a button leaves nodes that hold the list of the state behind
-- `append_button`, with room for the node where the address is not `NULL`.
pub buttons_in_nodes :
    (k : ℕ) (h : Heap) (head : Ptr) (s : Ui) (t : Touch) (id fresh b : Ptr)
    → HoldsButtons h head s
    → length s.button_list < k
    → h fresh ≡ none
    → (find_node_by_position k h s.button_at t head
        ≡ some (find_button_by_position s.button_at t s.button_list))
      × (find_node_by_id k h s.button_at id head
          ≡ some (find_button_by_id s.button_at id s.button_list))
      × ((r : ℤ) × (head' : Ptr) × (g : Heap) × (add_button k fresh h head b ≡ some (r, head', g))
          × HoldsButtons g head' (append_button (not (fresh == null)) b s))
unfolding find_node_by_position find_node_by_id append_button
buttons_in_nodes k h head s t id fresh b hb lt unused =
    let ns = hb.nodes in
    let short : length ns < k = omega (arith, length-buttons_of ns, ap length hb.buttons, lt) in
    let walk = λ (test : Ptr → Bool). find_node-first_of k h test ns hb.chain short in
    (
      walk (λ b. istouchingbutton (s.button_at b) t == 1)
          ∙ ap some (
              by_position-first_of s.button_at t (buttons_of ns)
              ∙ ap (find_button_by_position s.button_at t) hb.buttons),
      walk (λ b. (s.button_at b).id == id)
          ∙ ap some (
              by_id-first_of s.button_at id (buttons_of ns)
              ∙ ap (find_button_by_id s.button_at id) hb.buttons),
      grown k h head s fresh b hb short unused,
    )
