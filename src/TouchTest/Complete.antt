-- ===== src/TouchTest/Complete.antt =====
-- The touch test ends exactly when every button of the grid has been touched.
use test_tools.Common.{
  ℕ, ◌<◌, ◌≡◌, ◌≢◌, inl, inr, true, false, Option, none, some, List, [], ◌∷◌, arith, ◌==◌, ==_refl,
  Bool-cases, All,
}
use test_tools.Common.Int.{ℤ}
use test_tools.Widget.Types.{Ptr, Ui, MinUi}
use test_tools.Widget.Search.{mem}
use test_tools.Widget.Listen.{Wake, start_listen, listen_loop}
use test_tools.Widget.Returns.{Ends, listen_loop-Ends}
use test_tools.TouchTest.{Para, Layout, untouched, bt_pass, mpara, callbacks, set_up, main}
use test_tools.TouchTest.Covered.{Waiting, Done, same-Waiting, touch_step}
use test_tools.TouchTest.Grid.{IsNew, set_up-list, set_up-Built}

-- A button of the grid has not been touched.
abbrev pub SomeLeft : List Ptr → Ui → Type 0
SomeLeft ps s = (p : Ptr) × (mem p ps ≡ true) × ((s.button_at p).result ≡ 0)

-- All buttons of the grid have been touched.
abbrev pub AllTouched : List Ptr → Ui → Type 0
AllTouched ps s = All (λ p. (s.button_at p).result ≢ 0) ps

untouched-SomeLeft : (s : Ui) (ps : List Ptr) → untouched s.button_at ps ≡ true → SomeLeft ps s
unfolding untouched
untouched-SomeLeft s [] h = cc
untouched-SomeLeft s (p ∷ ps) h = elim (Bool-cases ((s.button_at p).result == 0)) [
  | inl e ↦ (p, ground arith, ground arith)
  | inr e ↦ let (q, m, r) = untouched-SomeLeft s ps (ground arith) in (q, ground arith, r)
]

untouched-AllTouched : (s : Ui) (ps : List Ptr) → untouched s.button_at ps ≡ false → AllTouched ps s
unfolding untouched
untouched-AllTouched s [] h = tt
untouched-AllTouched s (p ∷ ps) h = (ground arith, untouched-AllTouched s ps (ground arith))

module _ (g : MinUi) (l : Layout) (at : Ptr → Para) (f1 : ℕ) (s0 : Ui)
    (memory : (k : ℕ) → k < 25 → at (l.para k) ≡ mpara l k) (empty : s0.button_list ≡ []) where
  start : Ui
  start = set_up g l f1 s0

  start-Waiting : Waiting l at memory start
  unfolding start
  start-Waiting = record {
    list = set_up-list g l f1 s0 empty;
    cells = λ p m.
        let n : IsNew l p (start.button_at p) = set_up-Built g l f1 s0 empty p m in
        record {
          mode = n.mode;
          func = n.func;
          index = n.index;
          small = n.small;
          param = n.param;
          own = n.own;
        };
    left =
        let n : IsNew l (l.fresh 0) (start.button_at (l.fresh 0)) =
          set_up-Built g l f1 s0 empty (l.fresh 0) (unfold bt_pass in rw (==_refl (l.fresh 0))) in
        unfold bt_pass untouched in rw n.result;
  }

  of-Ends :
      (s : Ui) (r : Option ℤ)
      → Ends (Waiting l at memory) (Done l at memory) s r
      → Ends (SomeLeft (bt_pass l.fresh 25 0)) (AllTouched (bt_pass l.fresh 25 0)) s r
  of-Ends s none w = untouched-SomeLeft s (bt_pass l.fresh 25 0) w.left
  of-Ends s (some r) (d, e) = (untouched-AllTouched s (bt_pass l.fresh 25 0) d, e)

-- If the test can read the parameters it has written, its list of buttons is empty at the start and
-- `epoll_ctl` takes both descriptors, then, whatever is touched, however the touches are grouped and whether or not there are keys: while
-- it listens, some button of the grid has not been touched, and when it has returned, with 0, all 25
-- have been.
pub main-AllTouched :
    (g : MinUi) (l : Layout) (at : Ptr → Para) (f1 : ℕ) (s0 : Ui) (ws : List Wake)
    → ((k : ℕ) → k < 25 → at (l.para k) ≡ mpara l k)
    → s0.button_list ≡ []
    → let r = main g l at f1 true true ws s0 in
      Ends (SomeLeft (bt_pass l.fresh 25 0)) (AllTouched (bt_pass l.fresh 25 0)) r.0 r.1
unfolding main start_listen
main-AllTouched g l at f1 s0 ws memory empty =
    let r = listen_loop (callbacks at) ws [] (set_up g l f1 s0) in
    of-Ends g l at f1 s0 memory empty r.0 r.1 (
      listen_loop-Ends (callbacks at) (Waiting l at memory) (Done l at memory)
        (same-Waiting l at memory) (touch_step l at memory) ws [] (set_up g l f1 s0)
        (unfold start in start-Waiting g l at f1 s0 memory empty))
