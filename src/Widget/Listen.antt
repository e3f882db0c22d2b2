-- ===== src/Widget/Listen.antt =====
-- start_listen of widget.c. `epoll_wait` is the environment: a run is given the list of its returns.
-- What a call of catch_action_for_button leaves unread stays pending on the descriptor. A button's
-- callback is a function of the program that links widget.c, named by its address: a parameter.
use test_tools.Common.{Bool, true, false, Option, none, some, List, [], ◌∷◌, ◌++◌}
use test_tools.Common.Int.{ℤ, pos, negsuc}
use test_tools.Widget.Types.{Ptr, Ui, InputEvent, ButtonMode, ecs_listen, normal, write_button}
use test_tools.Widget.Touch.{find_button_by_id}
use test_tools.Widget.Catch.{catch_action_for_button, catch_action_for_keyboard}

-- A descriptor that is ready, with the events that have come in on it.
pub data Source : Type 0 where
  from_buttons : List InputEvent → Source
  from_keys : List InputEvent → Source
  from_other : Source

-- A return of `epoll_wait`: -1, or the descriptors that are ready.
pub data Wake : Type 0 where
  interrupted : Wake
  ready : List Source → Wake

abbrev pub is_listen_end : ButtonMode → Bool
is_listen_end ecs_listen = true
is_listen_end normal = false

-- `func(param)`: the callback's address, its parameter (`NULL` is `none`), and the state.
abbrev pub Callbacks : Type 0
Callbacks = Ptr → Option Ptr → Ui → Ui

unfoldable pub run_callback : Callbacks → Option Ptr → Option Ptr → Ui → Ui
run_callback call none param s = s
run_callback call (some f) param s = call f param s

-- The button is marked and its callback runs; the answer is whether the listening ends.
unfoldable pub touched : Callbacks → Ptr → Ui → Ui × Bool
touched call p s =
    let b = record (s.button_at p) { result = 1 } in
    let s' = run_callback call b.func b.param (write_button p b s) in
    (s', is_listen_end (s'.button_at p).mode)

-- The pending events come back with the state and the answer.
unfoldable pub on_source : Callbacks → Source → List InputEvent → Ui → Ui × List InputEvent × Bool
on_source call (from_buttons es) pending s =
    let (id, left, s') = catch_action_for_button (pending ++ es) s.button_list s in
    elim (find_button_by_id s'.button_at id s'.button_list) [
      | none ↦ (s', left, false)
      | some p ↦ ((touched call p s').0, left, (touched call p s').1)
    ]
on_source call (from_keys es) pending s =
    (catch_action_for_keyboard es s.keyboard_list s, pending, false)
on_source call from_other pending s = (s, pending, false)

unfoldable pub on_sources :
    Callbacks → List Source → List InputEvent → Ui → Ui × List InputEvent × Bool
on_sources call [] pending s = (s, pending, false)
on_sources call (x ∷ xs) pending s =
    let (s', pending', stop) = on_source call x pending s in
    elim stop [ true ↦ (s', pending', true) | false ↦ on_sources call xs pending' s' ]

-- The result is `none` if the loop still waits after these returns.
unfoldable pub listen_loop : Callbacks → List Wake → List InputEvent → Ui → Ui × Option ℤ
listen_loop call [] pending s = (s, none)
listen_loop call (interrupted ∷ ws) pending s = listen_loop call ws pending s
listen_loop call (ready xs ∷ ws) pending s =
    let (s', pending', stop) = on_sources call xs pending s in
    elim stop [ true ↦ (s', some (pos 0)) | false ↦ listen_loop call ws pending' s' ]

-- `add_button` and `add_key` tell whether `epoll_ctl` took the descriptors.
unfoldable pub start_listen :
    Callbacks → (add_button add_key : Bool) → List Wake → Ui → Ui × Option ℤ
start_listen call false add_key ws s = (s, some (negsuc 0))
start_listen call true false ws s = (s, some (negsuc 0))
start_listen call true true ws s = listen_loop call ws [] s
