-- ===== src/NodeList/Refine.antt =====
-- Any sequence of calls of list.c on the heap, against the same calls on a plain list of cells.
pub mod Simulation
use test_tools.Common.{
  ℕ, zero, suc, ◌+◌, ◌<◌, ◌≤◌, ◌≡◌, refl, ◌≢◌, Bool, true, false, ◌||◌, Option, none, some, List,
  [], ◌∷◌, ◌++◌, arith, ◌==◌, length-append, ltb, inl, inr, Bool-cases, Option-cases, length, ◌∙◌,
  if◌then◌else◌,
}
use test_tools.Common.Int.{ℤ, pos, negsuc}
use test_tools.NodeList.{
  Ptr, null, Widget, button, keyboard, Heap, ◌>>=◌, add_node, add_button, add_keyboard, insert_node,
  insert_button, insert_keyboard, delete_list,
}
use test_tools.NodeList.Chain.{Cells, has, Chain, end, has-append}
use test_tools.NodeList.Count.{length-insert_at}
use test_tools.NodeList.Seek.{IsOutside}
use test_tools.NodeList.Add.{add_node-Added}
use test_tools.NodeList.Insert.{
  insert_at, has-insert_at, Inserted, insert_node_in_range, insert_node_full, insert_node_outside,
}
use test_tools.NodeList.Delete.{remove_at, Removed, delete_list-Removed, delete_list_outside}

-- A call, with what `malloc` returns in it.
pub data Call : Type 0 where
  add : Ptr → Widget → Call
  insert : Ptr → ℤ → Widget → Call
  delete : ℤ → Call

-- The function of list.c that a call stands for: its result, the head and the heap.
pub call : ℕ → Call → Heap → Ptr → Option (ℤ × Ptr × Heap)
call k (add fresh (button b)) h p = add_button k fresh h p b
call k (add fresh (keyboard b)) h p = add_keyboard k fresh h p b
call k (insert fresh place (button b)) h p = do
  (r, g) ← insert_button k fresh h p place b
  some (r, p, g)
call k (insert fresh place (keyboard b)) h p = do
  (r, g) ← insert_keyboard k fresh h p place b
  some (r, p, g)
call k (delete place) h p = do (r, g) ← delete_list k h p place; some (r, p, g)

pub calls : ℕ → List Call → Heap → Ptr → Option (List ℤ × Ptr × Heap)
calls k [] h p = some ([], p, h)
calls k (c ∷ cs) h p = do
  (r, q, g) ← call k c h p
  (rs, q', g') ← calls k cs g q
  some (r ∷ rs, q', g')

-- The index of the node at a place from 1 to `n`.
abbrev pub index : ℤ → ℕ → Option ℕ
index (pos zero) n = none
index (pos (suc j)) n = if ltb j n then some j else none
index (negsuc j) n = none

-- The value that `insert_button` or `insert_keyboard` returns for a place out of range.
abbrev pub miss : Widget → ℤ
miss (button b) = pos 0
miss (keyboard b) = negsuc 0

-- The same calls without a heap: the result and the cells.
unfoldable pub step : Call → Cells → ℤ × Cells
step (add fresh w) xs = if fresh == null then (negsuc 0, xs) else (pos 0, xs ++ (fresh, w) ∷ [])
step (insert fresh place w) xs = elim (index place (length xs)) [
  | none ↦ (miss w, xs)
  | some j ↦ if fresh == null then (negsuc 0, xs) else (pos 0, insert_at (suc j) (fresh, w) xs)
]
step (delete place) [] = (negsuc 0, [])
step (delete place) (x ∷ xs) = elim (index place (length xs)) [
  | none ↦ (negsuc 0, x ∷ xs)
  | some j ↦ (pos 0, remove_at (suc j) (x ∷ xs))
]

unfoldable pub steps : List Call → Cells → List ℤ × Cells
steps [] xs = ([], xs)
steps (c ∷ cs) xs = let (r, ys) = step c xs in let (rs, zs) = steps cs ys in (r ∷ rs, zs)

-- `malloc` returns no address of the list, and `delete_list` is not called on an empty one.
unfoldable pub Allows : Call → Cells → Type 0
Allows (add fresh w) xs = has fresh xs ≡ false
Allows (insert fresh place w) xs = has fresh xs ≡ false
Allows (delete place) xs = 0 < length xs

unfoldable pub Allowed : List Call → Cells → Type 0
Allowed [] xs = Unit
Allowed (c ∷ cs) xs = Allows c xs × Allowed cs (step c xs).1

-- The heap holds the list and nothing else.
pub record Holds (h : Heap) (p : Ptr) (xs : Cells) : Type 0 where
  pub chain : Chain h p xs
  pub others : (a : Ptr) → has a xs ≡ false → h a ≡ none
