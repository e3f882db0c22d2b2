-- ===== src/NodeList/Insert.antt =====
-- insert_button and insert_keyboard of list.c: a new node behind the one at a given place.
use test_tools.Common.{
  ℕ, zero, suc, ◌≤◌, ◌<◌, ◌≡◌, ◌≢◌, refl, true, false, ◌||◌, none, some, [], ◌∷◌, ◌++◌, arith, ◌==◌,
  length, take, drop,
}
use test_tools.Common.Int.{ℤ, pos, negsuc}
use test_tools.NodeList.{
  Ptr, null, Widget, button, keyboard, node, Heap, write, seek, insert_node, insert_button,
  insert_keyboard,
}
use test_tools.NodeList.Chain.{Cells, has, Chain, link, load-some, Chain-write, has-false_of_none}
use test_tools.NodeList.Seek.{address_at, IsOutside, seek_lem}

abbrev pub insert_at : ℕ → Ptr × Widget → Cells → Cells
insert_at n x cs = take n cs ++ x ∷ drop n cs

pub has-insert_at :
    (a f : Ptr) (w : Widget) (n : ℕ) (cs : Cells)
    → has a (insert_at n (f, w) cs) ≡ (has a cs || a == f)
has-insert_at a f w zero cs = ground arith
has-insert_at a f w (suc n) [] = ground arith
has-insert_at a f w (suc n) ((p, v) ∷ cs) = ground (arith, has-insert_at a f w n cs)

-- The heap that the two writes leave, at the node with number j.
abbrev spliced : Heap → Ptr → Ptr → Widget → Widget → Ptr → Heap
spliced h q fresh w v r = write (write h fresh (some (node w r))) q (some (node v fresh))

splice :
    (h : Heap) (fresh : Ptr) (w : Widget) (j : ℕ) {p : Ptr} {c : Ptr × Widget} (cs : Cells)
    → Chain h p (c ∷ cs)
    → j ≤ length cs
    → fresh ≢ null
    → has fresh (c ∷ cs) ≡ false
    → (v : Widget) × (r : Ptr) × (h (address_at (c ∷ cs) j) ≡ some (node v r))
      × (address_at (c ∷ cs) j ≢ null)
      × (has (address_at (c ∷ cs) j) (c ∷ cs) ≡ true)
      × Chain
          (spliced h (address_at (c ∷ cs) j) fresh w v r)
          p
          (insert_at (suc j) (fresh, w) (c ∷ cs))
unfolding write
splice h fresh w zero cs (link {p} {q} {w = v} pn pe po ch) le ne out = (
  v,
  q,
  pe,
  pn,
  ground arith,
  link {q = fresh} {w = v} pn (ground arith) (ground arith) (
      link {q = q} {w = w} ne (ground arith) (ground arith) (
        Chain-write p (some (node v fresh)) (Chain-write fresh (some (node w q)) ch (ground arith))
          po)),
)
splice h fresh w (suc j) [] ch le ne out = absurd (omega arith)
splice h fresh w (suc j) (d ∷ ds) (link {p} {q} {w = v} pn pe po (link {q = r} {w = u} qn qe qo ch))
      le ne out =
    let (v', r', holds, at, inside, chain) =
      splice h fresh w j ds (link qn qe qo ch) (omega arith) ne (ground arith) in
    (
      v',
      r',
      holds,
      at,
      ground arith,
      link {q = q} {w = v} pn (ground arith)
          (ground (arith, has-insert_at p fresh w (suc j) (d ∷ ds))) chain,
    )

abbrev place_of : ℕ → ℤ
place_of j = pos (suc j)

-- The heap after an insertion: no address outside the list and the new node has changed.
pub record Inserted (h g : Heap) (n : ℕ) (p : Ptr) (cs : Cells) (fresh : Ptr) (w : Widget)
    : Type 0 where
  pub chain : Chain g p (insert_at n (fresh, w) cs)
  pub rest : (a : Ptr) → has a cs ≡ false → a ≢ fresh → g a ≡ h a

pub insert_node_in_range :
    (k : ℕ) (h : Heap) (fresh : Ptr) (w : Widget) (miss : ℤ) (j : ℕ) {p : Ptr} (cs : Cells)
    → Chain h p cs
    → length cs < k
    → j < length cs
    → fresh ≢ null
    → h fresh ≡ none
    → (g : Heap) × (insert_node miss k fresh h p (place_of j) w ≡ some (pos 0, g))
      × Inserted h g (suc j) p cs fresh w
unfolding insert_node
insert_node_in_range k h fresh w miss j [] ch fuel lt ne free = absurd (omega arith)
insert_node_in_range k h fresh w miss j (c ∷ cs) ch fuel lt ne free =
    let (v, r, holds, at, inside, chain) =
      splice h fresh w j cs ch (omega arith) ne (has-false_of_none fresh ch free) in
    (
      spliced h (address_at (c ∷ cs) j) fresh w v r,
      rw (seek_lem k h 0 j (suc j) (c ∷ cs) ch fuel (omega arith))
          (ground (arith, load-some h (address_at (c ∷ cs) j) v r at holds)),
      record { chain = chain; rest = λ a i na. unfold write in ground arith },
    )

address_at-ne :
    {h : Heap} (j : ℕ) {p : Ptr} (cs : Cells)
    → Chain h p cs
    → j < length cs
    → address_at cs j ≢ null
address_at-ne j [] ch lt = absurd (omega arith)
address_at-ne zero (c ∷ cs) (link pn pe po ch) lt = pn
address_at-ne (suc j) (c ∷ cs) (link pn pe po ch) lt = address_at-ne j cs ch (omega arith)

-- Where `malloc` returns `NULL`, a place in the list gives -1 and no change.
pub insert_node_full :
    (k : ℕ) (h : Heap) (w : Widget) (miss : ℤ) (j : ℕ) {p : Ptr} (cs : Cells)
    → Chain h p cs
    → length cs < k
    → j < length cs
    → insert_node miss k null h p (place_of j) w ≡ some (negsuc 0, h)
unfolding insert_node
insert_node_full k h w miss j cs ch fuel lt =
    rw (seek_lem k h 0 j (suc j) cs ch fuel (omega arith))
      (ground (arith, address_at-ne j cs ch lt))

address_at_past : (cs : Cells) (j : ℕ) → length cs ≤ j → address_at cs j ≡ null
address_at_past [] j le = refl
address_at_past (c ∷ cs) zero le = absurd (omega arith)
address_at_past (c ∷ cs) (suc j) le = address_at_past cs j (omega arith)

insert_node_past_end :
    (k : ℕ) (h : Heap) (fresh : Ptr) (w : Widget) (miss : ℤ) (j : ℕ) {p : Ptr} (cs : Cells)
    → Chain h p cs
    → length cs < k
    → length cs ≤ j
    → insert_node miss k fresh h p (place_of j) w ≡ some (miss, h)
unfolding insert_node
insert_node_past_end k h fresh w miss j cs ch fuel le =
    rw (seek_lem k h 0 j (suc j) cs ch fuel (omega arith))
      (rw (address_at_past cs j le) (ground arith))

seek_not_positive :
    (k : ℕ) (h : Heap) (p : Ptr) (n : ℕ) → seek (suc k) h p 0 (negsuc n) ≡ some (p, 0)
unfolding seek
seek_not_positive k h p n = ground arith

insert_node_not_positive :
    (k : ℕ) (h : Heap) (fresh p : Ptr) (w : Widget) (miss : ℤ) (n : ℕ)
    → (insert_node miss (suc k) fresh h p (pos 0) w ≡ some (miss, h))
      × (insert_node miss (suc k) fresh h p (negsuc n) w ≡ some (miss, h))
unfolding insert_node
insert_node_not_positive k h fresh p w miss n =
    (unfold seek in ground arith, rw (seek_not_positive k h p n) (ground arith))

-- On a heap that holds a list, at a place from 1 up to the list's length and with a fresh address
-- from `malloc`, `insert_button` and `insert_keyboard` return 0 with a heap that holds the list with
-- the new node directly behind the place.
pub insert_in_range :
    (k : ℕ) (h : Heap) (fresh b : Ptr) (j : ℕ) {p : Ptr} (cs : Cells)
    → Chain h p cs
    → length cs < k
    → j < length cs
    → fresh ≢ null
    → h fresh ≡ none
    → ((g : Heap) × (insert_button k fresh h p (pos (suc j)) b ≡ some (pos 0, g))
        × Chain g p (insert_at (suc j) (fresh, button b) cs))
      × ((g : Heap) × (insert_keyboard k fresh h p (pos (suc j)) b ≡ some (pos 0, g))
          × Chain g p (insert_at (suc j) (fresh, keyboard b) cs))
unfolding insert_button insert_keyboard
insert_in_range k h fresh b j cs ch fuel lt ne free =
    let (g, run, i) = insert_node_in_range k h fresh (button b) (pos 0) j cs ch fuel lt ne free in
    let (g', run', i') =
      insert_node_in_range k h fresh (keyboard b) (negsuc 0) j cs ch fuel lt ne free in
    ((g, run, i.chain), (g', run', i'.chain))

pub insert_node_outside :
    (k : ℕ) (h : Heap) (fresh : Ptr) (w : Widget) (miss place : ℤ) {p : Ptr} (cs : Cells)
    → Chain h p cs
    → length cs < k
    → IsOutside place (length cs)
    → insert_node miss k fresh h p place w ≡ some (miss, h)
insert_node_outside zero h fresh w miss place cs ch fuel o = absurd (omega arith)
insert_node_outside (suc k) h fresh w miss (pos zero) {p} cs ch fuel o =
    (insert_node_not_positive k h fresh p w miss 0).0
insert_node_outside (suc k) h fresh w miss (pos (suc j)) cs ch fuel o =
    insert_node_past_end (suc k) h fresh w miss j cs ch fuel o
insert_node_outside (suc k) h fresh w miss (negsuc n) {p} cs ch fuel o =
    (insert_node_not_positive k h fresh p w miss n).1

-- At a place outside the list both functions change nothing; `insert_keyboard` returns -1, but
-- `insert_button` returns 0, the value of a successful insertion.
pub insert_outside :
    (k : ℕ) (h : Heap) (fresh b : Ptr) (place : ℤ) {p : Ptr} (cs : Cells)
    → Chain h p cs
    → length cs < k
    → IsOutside place (length cs)
    → (insert_button k fresh h p place b ≡ some (pos 0, h))
      × (insert_keyboard k fresh h p place b ≡ some (negsuc 0, h))
unfolding insert_button insert_keyboard
insert_outside k h fresh b place cs ch fuel o = (
  insert_node_outside k h fresh (button b) (pos 0) place cs ch fuel o,
  insert_node_outside k h fresh (keyboard b) (negsuc 0) place cs ch fuel o,
)
