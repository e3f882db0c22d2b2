-- ===== src/NodeList/Count.antt =====
-- What list.c reports of a list, and how its operations undo one another.
use test_tools.Common.{
  ap, ◌∙◌, ℕ, suc, ◌≤◌, ◌<◌, ◌≡◌, ◌≢◌, refl, none, some, [], ◌∷◌, ◌++◌, arith, length,
  length-append, zero, subst,
}
use test_tools.Common.Int.{pos}
use test_tools.NodeList.{
  Ptr, null, Widget, button, Heap, length_list, add_button, insert_button, delete_list,
}
use test_tools.NodeList.Chain.{Cells, Chain, link, load-some}
use test_tools.NodeList.Seek.{length_loop_lem}
use test_tools.NodeList.Add.{add_button-Added}
use test_tools.NodeList.Insert.{insert_at, insert_in_range}
use test_tools.NodeList.Delete.{remove_at, delete_list_in_range}

-- `length_list` does not count the first node.
length_list_lem :
    (k : ℕ) (h : Heap) {p : Ptr} {c : Ptr × Widget} (cs : Cells)
    → Chain h p (c ∷ cs)
    → length cs < k
    → length_list k h p ≡ some (length cs)
unfolding length_list
length_list_lem k h cs (link {p} {q} {w} ne e out ch) fuel =
    rw (load-some h p w q ne e) (length_loop_lem k h 0 cs ch fuel ∙ ground arith)

length_list_grown :
    (k : ℕ) (h : Heap) {p : Ptr} (x : Ptr × Widget) (cs : Cells)
    → Chain h p (cs ++ x ∷ [])
    → length cs < k
    → length_list k h p ≡ some (length cs)
length_list_grown k h x [] ch fuel = length_list_lem k h [] ch fuel
length_list_grown k h x (c ∷ cs) ch fuel =
    let e : length (cs ++ x ∷ []) ≡ suc (length cs) = omega (arith, length-append cs (x ∷ [])) in
    length_list_lem k h (cs ++ x ∷ []) ch (omega arith) ∙ ap some e

-- On a heap that holds a list of n widgets, with a fresh address and enough fuel, `add_button`
-- makes a list of n + 1 widgets, of which `length_list` counts n.
pub length_list-add_button :
    (k : ℕ) (h : Heap) (fresh b : Ptr) {p : Ptr} (cs : Cells)
    → Chain h p cs
    → length cs < k
    → fresh ≢ null
    → h fresh ≡ none
    → (head : Ptr) × (g : Heap) × (add_button k fresh h p b ≡ some (pos 0, head, g))
      × Chain g head (cs ++ (fresh, button b) ∷ [])
      × (length_list k g head ≡ some (length cs))
length_list-add_button k h fresh b cs ch fuel ne free =
    let (head, g, run, added) = (add_button-Added k h fresh b cs ch (omega arith) ne free).0 in
    (head, g, run, added.chain, length_list_grown k g (fresh, button b) cs added.chain fuel)

pub length-insert_at :
    (n : ℕ) (x : Ptr × Widget) (cs : Cells) → length (insert_at n x cs) ≡ suc (length cs)
length-insert_at zero x cs = refl
length-insert_at (suc n) x [] = refl
length-insert_at (suc n) x (c ∷ cs) = ap suc (length-insert_at n x cs)

remove_at-insert_at :
    (n : ℕ) (x : Ptr × Widget) (cs : Cells) → n ≤ length cs → remove_at n (insert_at n x cs) ≡ cs
remove_at-insert_at zero x cs le = refl
remove_at-insert_at (suc n) x [] le = absurd (omega arith)
remove_at-insert_at (suc n) x (c ∷ cs) le = ap (◌∷◌ c) (remove_at-insert_at n x cs (omega arith))

-- On a heap that holds a list, `delete_list` at a place from 1 up to the list's length undoes
-- `insert_button` there: both return 0, and the list is the old one.
pub delete_list-insert_button :
    (k : ℕ) (h : Heap) (fresh b : Ptr) (j : ℕ) {p : Ptr} (cs : Cells)
    → Chain h p cs
    → length cs < k
    → j < length cs
    → fresh ≢ null
    → h fresh ≡ none
    → (g g' : Heap) × (insert_button k fresh h p (pos (suc j)) b ≡ some (pos 0, g))
      × (delete_list k g p (pos (suc j)) ≡ some (pos 0, g'))
      × Chain g' p cs
delete_list-insert_button k h fresh b j {p} cs ch fuel lt ne free =
    let x : Ptr × Widget = (fresh, button b) in
    let (g, run, grown) = (insert_in_range k h fresh b j cs ch fuel lt ne free).0 in
    let n : length (insert_at (suc j) x cs) ≡ suc (length cs) = length-insert_at (suc j) x cs in
    let (g', run', cut) =
      delete_list_in_range k g j (insert_at (suc j) x cs) grown (omega arith) (omega arith) in
    (g, g', run, run', subst (Chain g' p) (remove_at-insert_at (suc j) x cs (omega arith)) cut)
