-- ===== src/NodeList/Refine/Simulation.antt =====
-- Every call of list.c does to the heap what its step does to the cells.
use test_tools.Common.{
  ℕ, zero, suc, ◌+◌, ◌<◌, ◌≤◌, ◌≡◌, refl, false, Option, none, some, List, [], ◌∷◌, ◌++◌, arith,
  ◌==◌, length-append, inl, inr, Bool-cases, Option-cases, length, ◌∙◌,
}
use test_tools.Common.Int.{ℤ, pos, negsuc}
use test_tools.NodeList.{
  Ptr, null, Widget, button, keyboard, Heap, ◌>>=◌, add_node, add_button, add_keyboard, insert_node,
  insert_button, insert_keyboard,
}
use test_tools.NodeList.Chain.{Cells, has, has-append}
use test_tools.NodeList.Count.{length-insert_at}
use test_tools.NodeList.Seek.{IsOutside}
use test_tools.NodeList.Add.{add_node-Added}
use test_tools.NodeList.Insert.{
  insert_at, has-insert_at, insert_node_in_range, insert_node_full, insert_node_outside,
}
use test_tools.NodeList.Delete.{remove_at, delete_list-Removed, delete_list_outside}
use test_tools.NodeList.Refine.{
  Call, add, insert, delete, call, calls, index, miss, step, steps, Allows, Allowed, Holds,
}

-- What the heap functions and the steps on cells promise each other.
abbrev Simulates : Option (ℤ × Ptr × Heap) → ℤ × Cells → Type 0
Simulates o s = (q : Ptr) × (g : Heap) × (o ≡ some (s.0, q, g)) × Holds g q s.1

simulates :
    {o : Option (ℤ × Ptr × Heap)} {s : ℤ × Cells} (r : ℤ) (q : Ptr) (g : Heap) (ys : Cells)
    → o ≡ some (r, q, g)
    → s ≡ (r, ys)
    → Holds g q ys
    → Simulates o s
simulates r q g ys e d hs = rw d (q, g, e, hs)

call-add :
    (k : ℕ) (fresh : Ptr) (w : Widget) (h : Heap) (p : Ptr)
    → call k (add fresh w) h p ≡ add_node k fresh h p w
unfolding call add_button add_keyboard
call-add k fresh (button b) h p = refl
call-add k fresh (keyboard b) h p = refl

call-insert :
    (k : ℕ) (fresh : Ptr) (place : ℤ) (w : Widget) (h : Heap) (p : Ptr)
    → call k (insert fresh place w) h p
      ≡ (do (r, g) ← insert_node (miss w) k fresh h p place w; some (r, p, g))
unfolding call insert_button insert_keyboard
call-insert k fresh place (button b) h p = refl
call-insert k fresh place (keyboard b) h p = refl

add_lem :
    (k : ℕ) (fresh : Ptr) (w : Widget) {h : Heap} {p : Ptr} (xs : Cells)
    → Holds h p xs
    → has fresh xs ≡ false
    → length xs < k
    → Simulates (call k (add fresh w) h p) (step (add fresh w) xs)
add_lem k fresh w {h} {p} xs hs out fuel = elim (Bool-cases (fresh == null)) [
  | inl z ↦
      simulates (negsuc 0) p h xs (call-add k fresh w h p ∙ (unfold add_node in ground arith))
        (unfold step in ground arith) hs
  | inr nz ↦
      let (q, g, run, a) =
        add_node-Added k h fresh w xs hs.chain (omega arith) (ground arith) (hs.others fresh out) in
      simulates (pos 0) q g (xs ++ (fresh, w) ∷ []) (call-add k fresh w h p ∙ run)
        (unfold step in ground arith)
        (record {
          chain = a.chain;
          others = λ b o. ground (arith, has-append b xs ((fresh, w) ∷ []), a.rest b, hs.others b);
        })
]

IsOutside-index : (place : ℤ) (n : ℕ) → index place n ≡ none → IsOutside place n
IsOutside-index (pos zero) n e = tt
IsOutside-index (pos (suc j)) n e = ground arith
IsOutside-index (negsuc j) n e = tt

index-place : (place : ℤ) (n j : ℕ) → index place n ≡ some j → (place ≡ pos (suc j)) × (j < n)
index-place (pos zero) n j e = ground arith
index-place (pos (suc i)) n j e = ground arith
index-place (negsuc i) n j e = ground arith

-- A call that changes nothing but the result.
unchanged :
    (k : ℕ) (fresh : Ptr) (place : ℤ) (w : Widget) {h : Heap} {p : Ptr} {xs : Cells} (r : ℤ)
    → insert_node (miss w) k fresh h p place w ≡ some (r, h)
    → step (insert fresh place w) xs ≡ (r, xs)
    → Holds h p xs
    → Simulates (call k (insert fresh place w) h p) (step (insert fresh place w) xs)
unchanged k fresh place w {h} {p} {xs} r e d hs =
    simulates r p h xs (call-insert k fresh place w h p ∙ rw e refl) d hs

insert_lem :
    (k : ℕ) (fresh : Ptr) (place : ℤ) (w : Widget) {h : Heap} {p : Ptr} (xs : Cells)
    → Holds h p xs
    → has fresh xs ≡ false
    → length xs < k
    → Simulates (call k (insert fresh place w) h p) (step (insert fresh place w) xs)
unfolding step
insert_lem k fresh place w {h} {p} xs hs out fuel = elim (Option-cases (index place (length xs))) [
  | inl e ↦
      unchanged k fresh place w (miss w)
        (insert_node_outside k h fresh w (miss w) place xs hs.chain fuel
          (IsOutside-index place (length xs) e))
        (rw (step, e) refl) hs
  | inr (j, e) ↦
      let (at, lt) = index-place place (length xs) j e in
      elim (Bool-cases (fresh == null)) [
        | inl z ↦
            let zero_lem : fresh ≡ null = ground arith in
            unchanged k fresh place w (negsuc 0)
              (rw (at, zero_lem) (insert_node_full k h w (miss w) j xs hs.chain fuel lt))
              (rw (step, e, z) refl) hs
        | inr nz ↦
            let (g, run, i) =
              insert_node_in_range k h fresh w (miss w) j xs hs.chain fuel lt (ground arith)
                (hs.others fresh out) in
            simulates (pos 0) p g (insert_at (suc j) (fresh, w) xs)
              (call-insert k fresh place w h p ∙ rw (at, run) refl) (rw (step, e, nz) refl)
              (record {
                chain = i.chain;
                others = λ b o.
                    ground (arith, has-insert_at b fresh w (suc j) xs, i.rest b, hs.others b);
              })
      ]
]

delete_lem :
    (k : ℕ) (place : ℤ) {h : Heap} {p : Ptr} (xs : Cells)
    → Holds h p xs
    → 0 < length xs
    → length xs < k
    → Simulates (call k (delete place) h p) (step (delete place) xs)
unfolding call step
delete_lem k place [] hs some_node fuel = absurd (omega arith)
delete_lem k place {h} {p} (x ∷ xs) hs some_node fuel =
    elim (Option-cases (index place (length xs))) [
      | inl e ↦
          simulates (negsuc 0) p h (x ∷ xs)
            (rw
              (delete_list_outside k h place xs hs.chain (omega arith)
                (IsOutside-index place (length xs) e))
              refl)
            (rw (step, e) refl) hs
      | inr (j, e) ↦
          let (at, lt) = index-place place (length xs) j e in
          let (g, run, r) =
            delete_list-Removed k h j (x ∷ xs) hs.chain (omega arith) (omega arith) in
          simulates (pos 0) p g (remove_at (suc j) (x ∷ xs)) (rw (at, run) refl) (rw (step, e) refl)
            (record {
              chain = r.chain;
              others = λ b o. elim (Bool-cases (has b (x ∷ xs))) [
                | inl i ↦ r.freed b i o
                | inr i ↦ r.rest b i ∙ hs.others b i
              ];
            })
    ]

length-remove_at : (n : ℕ) (xs : Cells) → length (remove_at n xs) ≤ length xs
length-remove_at zero [] = omega arith
length-remove_at zero (x ∷ xs) = omega arith
length-remove_at (suc n) [] = omega arith
length-remove_at (suc n) (x ∷ xs) = omega (arith, length-remove_at n xs)

length-step : (c : Call) (xs : Cells) → length (step c xs).1 ≤ suc (length xs)
unfolding step
length-step (add fresh w) xs = ground (arith, length-append xs ((fresh, w) ∷ []))
length-step (insert fresh place w) xs = elim (Option-cases (index place (length xs))) [
  | inl e ↦ rw (step, e) (omega arith)
  | inr (j, e) ↦ rw (step, e) (ground (arith, length-insert_at (suc j) (fresh, w) xs))
]
length-step (delete place) [] = omega arith
length-step (delete place) (x ∷ xs) = elim (Option-cases (index place (length xs))) [
  | inl e ↦ rw (step, e) (omega arith)
  | inr (j, e) ↦ rw (step, e) (omega (arith, length-remove_at j xs))
]

call-step :
    (k : ℕ) (c : Call) {h : Heap} {p : Ptr} (xs : Cells)
    → Holds h p xs
    → Allows c xs
    → length xs < k
    → Simulates (call k c h p) (step c xs)
unfolding Allows
call-step k (add fresh w) xs hs a fuel = add_lem k fresh w xs hs a fuel
call-step k (insert fresh place w) xs hs a fuel = insert_lem k fresh place w xs hs a fuel
call-step k (delete place) xs hs a fuel = delete_lem k place xs hs a fuel

-- On a heap that holds a list and nothing else, any sequence of `add_button`, `add_keyboard`,
-- `insert_button`, `insert_keyboard` and `delete_list` at any places, in which `malloc` fails or
-- returns an address off the list and `delete_list` is not called on an empty list, reads nothing
-- through a bad pointer and ends, with fuel for the nodes and the calls: the results are those of
-- the same steps on the plain list of cells, and the heap then holds that list and nothing else.
pub calls-steps :
    (k : ℕ) (cs : List Call) (h : Heap) {p : Ptr} (xs : Cells)
    → Holds h p xs
    → Allowed cs xs
    → length xs + length cs < k
    → (q : Ptr) × (g : Heap) × (calls k cs h p ≡ some ((steps cs xs).0, q, g))
      × Holds g q (steps cs xs).1
unfolding calls steps Allowed
calls-steps k [] h {p} xs hs a fuel = (p, h, refl, hs)
calls-steps k (c ∷ cs) h xs hs (a, rest) fuel =
    let (q, g, run, hs') = call-step k c xs hs a (omega arith) in
    let (q', g', run', hs'') =
      calls-steps k cs g (step c xs).1 hs' rest (omega (arith, length-step c xs)) in
    (q', g', rw (run, run') refl, hs'')
