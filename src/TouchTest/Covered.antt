-- ===== src/TouchTest/Covered.antt =====
-- When the touch test ends.
use test_tools.Common.{
  ℕ, ◌<◌, ◌≡◌, inl, inr, refl, true, false, Option, some, List, [], ◌∷◌, arith, ap, ◌∙◌, subst,
  ==_refl, Bool-cases,
}
use test_tools.Widget.Types.{Ptr, Ui, Button, ecs_listen, normal, update, write_button}
use test_tools.Widget.Setup.{set_button_mode}
use test_tools.Widget.Search.{mem}
use test_tools.Widget.Fields.{SameButtons}
use test_tools.Widget.Listen.{touched, run_callback, is_listen_end}
use test_tools.Widget.Returns.{Stops}
use test_tools.TouchTest.{Para, Layout, untouched, check_bt, bt_pass, mpara, callbacks}

untouched-results :
    (at at' : Ptr → Button) (ps : List Ptr)
    → ((p : Ptr) → (at' p).result ≡ (at p).result)
    → untouched at' ps ≡ untouched at ps
unfolding untouched
untouched-results at at' [] same = refl
untouched-results at at' (p ∷ ps) same = rw (same p, untouched-results at at' ps same)

module _ (l : Layout) (at : Ptr → Para)
    (memory : (k : ℕ) → k < 25 → at (l.para k) ≡ mpara l k) where
  -- A button of the grid as `main` sets it up, but for its result.
  pub record IsCell (p : Ptr) (b : Button) : Type 0 where
    pub mode : b.mode ≡ normal
    pub func : b.func ≡ some l.check
    pub index : ℕ
    pub small : index < 25
    pub param : b.param ≡ some (l.para index)
    pub own : l.fresh index ≡ p

  pub record Waiting (s : Ui) : Type 0 where
    pub list : s.button_list ≡ bt_pass l.fresh 25 0
    pub cells : (p : Ptr) → mem p (bt_pass l.fresh 25 0) ≡ true → IsCell p (s.button_at p)
    pub left : untouched s.button_at (bt_pass l.fresh 25 0) ≡ true

  IsCell-same :
      (p : Ptr) (b b' : Button)
      → b'.mode ≡ b.mode
      → b'.func ≡ b.func
      → b'.param ≡ b.param
      → IsCell p b
      → IsCell p b'
  IsCell-same p b b' m f r c = record {
    mode = m ∙ c.mode;
    func = f ∙ c.func;
    index = c.index;
    small = c.small;
    param = r ∙ c.param;
    own = c.own;
  }

  pub same-Waiting : (s s' : Ui) → SameButtons s s' → Waiting s → Waiting s'
  same-Waiting s s' same w = record {
    list = same.list ∙ w.list;
    cells = λ p m.
        IsCell-same p (s.button_at p) (s'.button_at p) (ap (λ (b : Button). b.mode) (same.button p))
          (ap (λ (b : Button). b.func) (same.button p))
          (ap (λ (b : Button). b.param) (same.button p)) (w.cells p m);
    left =
        untouched-results s.button_at s'.button_at (bt_pass l.fresh 25 0)
          (λ p. ap (λ (b : Button). b.result) (same.button p))
        ∙ w.left;
  }

  -- The state with the result of one button set.
  abbrev marked : Ptr → Ui → Ui
  marked p s = write_button p (record (s.button_at p) { result = 1 }) s

  run_callback-check :
      (k : ℕ) (f r : Option Ptr) (u : Ui)
      → k < 25
      → f ≡ some l.check
      → r ≡ some (l.para k)
      → run_callback (callbacks at) f r u ≡ check_bt (mpara l k) u
  unfolding run_callback callbacks
  run_callback-check k f r u small ef er =
      rw ef (rw er (ap (λ (m : Para). check_bt m u) (memory k small)))

  touched-cell :
      (p : Ptr) (s : Ui) (c : IsCell p (s.button_at p))
      → touched (callbacks at) p s ≡ (
        check_bt (mpara l c.index) (marked p s),
        is_listen_end ((check_bt (mpara l c.index) (marked p s)).button_at p).mode,
      )
  unfolding touched
  touched-cell p s c =
      ap (λ (u : Ui). (u, is_listen_end (u.button_at p).mode))
        (run_callback-check c.index (s.button_at p).func (s.button_at p).param (marked p s) c.small
          c.func c.param)

  abbrev pub Done : Ui → Type 0
  Done s = untouched s.button_at (bt_pass l.fresh 25 0) ≡ false

  module _ (p : Ptr) (u : Ui) (list : u.button_list ≡ bt_pass l.fresh 25 0)
      (cells : (q : Ptr) → mem q (bt_pass l.fresh 25 0) ≡ true → IsCell q (u.button_at q)) (k : ℕ)
      (mode : (u.button_at p).mode ≡ normal) (own : l.fresh k ≡ p) where
    check_bt-waits :
        untouched u.button_at (bt_pass l.fresh 25 0) ≡ true → check_bt (mpara l k) u ≡ u
    unfolding check_bt mpara bt_pass
    check_bt-waits e = rw e

    check_bt-ends :
        untouched u.button_at (bt_pass l.fresh 25 0) ≡ false
        → check_bt (mpara l k) u ≡ write_button p (record (u.button_at p) { mode = ecs_listen }) u
    unfolding check_bt mpara bt_pass set_button_mode
    check_bt-ends e = rw e (rw own)

    check_bt-Stops :
        Stops Waiting Done
          (check_bt (mpara l k) u)
          (is_listen_end ((check_bt (mpara l k) u).button_at p).mode)
    check_bt-Stops = elim (Bool-cases (untouched u.button_at (bt_pass l.fresh 25 0))) [
      | inl e ↦ rw (check_bt-waits e) (rw mode (record { list = list; cells = cells; left = e }))
      | inr e ↦ rw (check_bt-ends e) (
          rw (==_refl p) (
            untouched-results u.button_at
              (update u.button_at p (record (u.button_at p) { mode = ecs_listen }))
              (bt_pass l.fresh 25 0) (λ q. ground arith)
            ∙ e))
    ]

  marked-IsCell :
      (p : Ptr) (s : Ui) (q : Ptr) → IsCell q (s.button_at q) → IsCell q ((marked p s).button_at q)
  marked-IsCell p s q c =
      IsCell-same q (s.button_at q) ((marked p s).button_at q) (ground arith) (ground arith)
        (ground arith) c

  pub touch_step :
      (p : Ptr) (s : Ui)
      → mem p s.button_list ≡ true
      → Waiting s
      → Stops Waiting Done (touched (callbacks at) p s).0 (touched (callbacks at) p s).1
  touch_step p s m w =
      let c : IsCell p (s.button_at p) = w.cells p (subst (λ ps. mem p ps ≡ true) w.list m) in
      let mode : ((marked p s).button_at p).mode ≡ normal = (marked-IsCell p s p c).mode in
      rw (touched-cell p s c) (
        check_bt-Stops p (marked p s) w.list (λ q mq. marked-IsCell p s q (w.cells q mq)) c.index
          mode c.own)
