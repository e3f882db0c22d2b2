-- ===== src/NodeList.antt =====
-- test_keyboard/list.h and list.c: singly linked lists of widget pointers on an explicit heap.
-- `none` is a read through `NULL` or through an address that holds no node, or fuel that ran out.
-- `fresh` is what `malloc` returns, `NULL` if memory is exhausted.
pub mod Chain
pub mod Add
pub mod Seek
pub mod Insert
pub mod Delete
pub mod Count
pub mod Refine
mod Tests
use test_tools.Common.{
  ℕ, zero, suc, ◌+◌, ◌≡◌, Bool, ◌||◌, ◌&&◌, not, Option, none, some, ◌==◌, if◌then◌else◌,
}
pub use test_tools.Common.Bind.{◌>>=◌}
use test_tools.Common.Int.{ℤ, pos, negsuc, ltb_ℤ}

abbrev pub Ptr : Type 0
Ptr = ℕ

abbrev pub null : Ptr
null = 0

-- `union widget`: which member a node holds is known to the code that walks the list.
pub data Widget : Type 0 where
  button : Ptr → Widget
  keyboard : Ptr → Widget

pub record Node : Type 0 where
  pub widget : Widget
  pub next : Ptr

abbrev pub node : Widget → Ptr → Node
node w q = record { widget = w; next = q }

abbrev pub Heap : Type 0
Heap = Ptr → Option Node

unfoldable pub write : Heap → Ptr → Option Node → Heap
write h a c p = if p == a then c else h p

unfoldable pub load : Heap → Ptr → Option Node
load h p = if p == null then none else h p

pub initialize_list : Ptr → Ptr
initialize_list head = null

pub is_empty : Heap → Ptr → Option ℤ
unfolding load
is_empty h head = do n ← load h head; if n.next == null then some (pos 1) else some (pos 0)

-- `while (p != NULL) { ++len; p = p->pNext; }`
pub length_loop : ℕ → Heap → Ptr → ℕ → Option ℕ
length_loop zero h p len = none
length_loop (suc k) h p len =
    let rest = (do n ← load h p; length_loop k h n.next (len + 1)) in
    if p == null then some len else rest

pub length_list : ℕ → Heap → Ptr → Option ℕ
length_list fuel h head = do n ← load h head; length_loop fuel h n.next 0

-- The loop of `insert_button` and `insert_keyboard`: the node reached and the steps made.
pub seek : ℕ → Heap → Ptr → ℕ → ℤ → Option (Ptr × ℕ)
seek zero h p i place = none
seek (suc k) h p i place =
    let rest = (do n ← load h p; seek k h n.next (i + 1) place) in
    if not (p == null) && ltb_ℤ (pos (i + 1)) place then rest else some (p, i)

-- What `insert_button` and `insert_keyboard` share; `miss` is returned for a place out of range.
pub insert_node : ℤ → ℕ → Ptr → Heap → Ptr → ℤ → Widget → Option (ℤ × Heap)
insert_node miss fuel fresh h head place w = do
  (p, i) ← seek fuel h head 0 place
  if ltb_ℤ place (pos (i + 1)) || p == null
      then some (miss, h)
      else if fresh == null
      then some (negsuc 0, h)
      else do
        n ← load h p
        some (pos 0, write (write h fresh (some (node w n.next))) p (some (node n.widget fresh)))

pub insert_button : ℕ → Ptr → Heap → Ptr → ℤ → Ptr → Option (ℤ × Heap)
insert_button fuel fresh h head place b = insert_node (pos 0) fuel fresh h head place (button b)

pub insert_keyboard : ℕ → Ptr → Heap → Ptr → ℤ → Ptr → Option (ℤ × Heap)
insert_keyboard fuel fresh h head place b =
    insert_node (negsuc 0) fuel fresh h head place (keyboard b)

-- `while (scan->pNext != NULL) scan = scan->pNext; scan->pNext = pnew;`
pub link_last : ℕ → Heap → Ptr → Ptr → Option Heap
link_last zero h scan fresh = none
link_last (suc k) h scan fresh = do
  n ← load h scan
  let rest = link_last k h n.next fresh
  if n.next == null then some (write h scan (some (node n.widget fresh))) else rest

-- What `add_button` and `add_keyboard` share: the result, the new `*pHead` and the heap.
pub add_node : ℕ → Ptr → Heap → Ptr → Widget → Option (ℤ × Ptr × Heap)
add_node fuel fresh h head w =
    if fresh == null
    then some (negsuc 0, head, h)
    else let g = write h fresh (some (node w null)) in
      if head == null
      then some (pos 0, fresh, g)
      else do g' ← link_last fuel g head fresh; some (pos 0, head, g')

pub add_button : ℕ → Ptr → Heap → Ptr → Ptr → Option (ℤ × Ptr × Heap)
add_button fuel fresh h head b = add_node fuel fresh h head (button b)

pub add_keyboard : ℕ → Ptr → Heap → Ptr → Ptr → Option (ℤ × Ptr × Heap)
add_keyboard fuel fresh h head b = add_node fuel fresh h head (keyboard b)

-- `while (p->pNext != NULL && i < pos - 1)`: the node reached and the steps made.
pub seek_before : ℕ → Heap → Ptr → ℕ → ℤ → Option (Ptr × ℕ)
seek_before zero h p i place = none
seek_before (suc k) h p i place = do
  n ← load h p
  let rest = seek_before k h n.next (i + 1) place
  if not (n.next == null) && ltb_ℤ (pos (i + 1)) place then rest else some (p, i)

pub delete_list : ℕ → Heap → Ptr → ℤ → Option (ℤ × Heap)
delete_list fuel h head place = do
  (p, i) ← seek_before fuel h head 0 place
  n ← load h p
  if ltb_ℤ place (pos (i + 1)) || n.next == null then some (negsuc 0, h) else do
    m ← load h n.next
    some (pos 0, write (write h p (some (node n.widget m.next))) n.next none)
