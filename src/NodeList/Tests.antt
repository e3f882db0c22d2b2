-- ===== src/NodeList/Tests.antt =====
-- Runs of the list functions on a list of two nodes.
use test_tools.Common.{◌≡◌, refl, false, List, none, some, [], ◌∷◌, arith, ◌==◌, if◌then◌else◌}
use test_tools.Common.Int.{pos, negsuc}
use test_tools.NodeList.{Ptr, null, button, keyboard, node, Heap}
use test_tools.NodeList.Chain.{Cells, has, Chain, end, link}
use test_tools.NodeList.Refine.{
  Call, add, insert, delete, calls, step, steps, Allows, Allowed, Holds,
}
use test_tools.NodeList.Refine.Simulation.{calls-steps}

-- A button in the node at 3 and a keyboard in the node at 8.
abbrev heap : Heap
heap p =
    if p == 3
    then some (node (button 40) 8)
    else if p == 8
    then some (node (keyboard 50) 0)
    else none

abbrev cells : Cells
cells = (3, button 40) ∷ (8, keyboard 50) ∷ []

heap-Chain : Chain heap 3 cells
heap-Chain = link (omega arith) refl refl (link (omega arith) refl refl (end refl))

heap-others : (a : Ptr) → has a cells ≡ false → heap a ≡ none
heap-others a out = ground arith

abbrev some_calls : List Call
some_calls =
    insert 7 (pos 1) (button 60)
    ∷ delete (pos 2)
    ∷ add 8 (keyboard 70)
    ∷ insert 9 (pos 4) (button 1)
    ∷ add null (button 2)
    ∷ []

some_calls-Allowed : Allowed some_calls cells
unfolding Allowed Allows step
some_calls-Allowed = (refl, (omega arith, (refl, (refl, (refl, tt)))))

calls-steps_example :
    (q : Ptr) × (g : Heap) × (calls 8 some_calls heap 3 ≡ some ((steps some_calls cells).0, q, g))
    × Holds g q (steps some_calls cells).1
calls-steps_example =
    calls-steps 8 some_calls heap cells (record { chain = heap-Chain; others = heap-others })
      some_calls-Allowed (omega arith)

steps_on_some_calls : steps some_calls cells ≡ (
  pos 0 ∷ pos 0 ∷ pos 0 ∷ pos 0 ∷ negsuc 0 ∷ [],
  (3, button 40) ∷ (7, button 60) ∷ (8, keyboard 70) ∷ [],
)
unfolding steps step
steps_on_some_calls = refl
