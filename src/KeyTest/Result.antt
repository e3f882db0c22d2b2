-- ===== src/KeyTest/Result.antt =====
-- The exit status of the key test.
use test_tools.Common.{
  ==_refl, refl, ℕ, ◌≡◌, ◌≢◌, ◌⊎◌, inl, inr, Bool, true, false, Option, none, some, List, [], ◌∷◌,
  ◌++◌, arith, ap, ◌∙◌, subst,
}
use test_tools.Common.Int.{ℤ}
use test_tools.Widget.Types.{Ptr, Ui, MinUi, Button, ecs_listen, write_button}
use test_tools.Widget.Setup.{
  init_param, init_backguound, init_keyboard, init_button, set_button_mode,
}
use test_tools.Widget.Search.{mem}
use test_tools.Widget.Fields.{SameButtons}
use test_tools.Widget.Listen.{Callbacks, Wake, touched, run_callback, start_listen, listen_loop}
use test_tools.Widget.Returns.{Stops, Ends, listen_loop-Ends}
use test_tools.KeyTest.{main, set_up, exit_status, check_button_result}

-- A button that ends the listening, has no callback, and has not been touched.
record IsWaiting (b : Button) : Type 0 where
  mode : b.mode ≡ ecs_listen
  func : b.func ≡ none
  result : b.result ≡ 0

-- Neither button has been touched.
record Waiting (pass fail : Ptr) (s : Ui) : Type 0 where
  list : s.button_list ≡ pass ∷ fail ∷ []
  at_pass : IsWaiting (s.button_at pass)
  at_fail : IsWaiting (s.button_at fail)

-- Exactly one of the two has been touched.
abbrev pub OneTouched : Ptr → Ptr → Ui → Type 0
OneTouched pass fail s =
    (((s.button_at pass).result ≡ 1) × ((s.button_at fail).result ≡ 0))
    ⊎ (((s.button_at pass).result ≡ 0) × ((s.button_at fail).result ≡ 1))

same-Waiting :
    (pass fail : Ptr) (s s' : Ui) → SameButtons s s' → Waiting pass fail s → Waiting pass fail s'
same-Waiting pass fail s s' same w = record {
  list = same.list ∙ w.list;
  at_pass = keep pass w.at_pass;
  at_fail = keep fail w.at_fail;
}
  where
    keep : (p : Ptr) → IsWaiting (s.button_at p) → IsWaiting (s'.button_at p)
    keep p h = record {
      mode = ap (λ (b : Button). b.mode) (same.button p) ∙ h.mode;
      func = ap (λ (b : Button). b.func) (same.button p) ∙ h.func;
      result = ap (λ (b : Button). b.result) (same.button p) ∙ h.result;
    }

touched-waiting :
    (call : Callbacks) (p : Ptr) (s : Ui)
    → IsWaiting (s.button_at p)
    → touched call p s ≡ (write_button p (record (s.button_at p) { result = 1 }) s, true)
unfolding touched run_callback
touched-waiting call p s h = rw (h.func) (rw (h.mode) (rw (==_refl p)))

touch_ends :
    (call : Callbacks) (pass fail p : Ptr) (s : Ui)
    → pass ≢ fail
    → mem p s.button_list ≡ true
    → Waiting pass fail s
    → Stops (Waiting pass fail) (OneTouched pass fail) (touched call p s).0 (touched call p s).1
touch_ends call pass fail p s ne m w = elim (which p (subst (λ l. mem p l ≡ true) w.list m)) [
  | inl e ↦
      rw (touched-waiting call p s (rw e w.at_pass))
        (rw e (inl (ground arith, ground (arith, w.at_fail.result))))
  | inr e ↦
      rw (touched-waiting call p s (rw e w.at_fail))
        (rw e (inr (ground (arith, w.at_pass.result), ground arith)))
]
  where
    which : (q : Ptr) → mem q (pass ∷ fail ∷ []) ≡ true → (q ≡ pass) ⊎ (q ≡ fail)
    which q h = ground arith

set_up-Waiting :
    (g : MinUi) (keys pass fail : Ptr) (s0 : Ui)
    → pass ≢ fail
    → s0.button_list ≡ []
    → Waiting pass fail (set_up g keys pass fail s0)
unfolding set_up init_param init_backguound init_keyboard init_button set_button_mode
set_up-Waiting g keys pass fail s0 ne e = record {
  list = ap (λ l. (l ++ pass ∷ []) ++ fail ∷ []) e;
  at_pass = record { mode = ground arith; func = ground arith; result = ground arith };
  at_fail = record { mode = ground arith; func = ground arith; result = ground arith };
}

-- What the exit status tells of the two buttons; `none` while the test has not ended.
abbrev pub Verdict : (pass fail : Ptr) → Ui → Option ℕ → Type 0
Verdict pass fail s none = ((s.button_at pass).result ≡ 0) × ((s.button_at fail).result ≡ 0)
Verdict pass fail s (some code) = OneTouched pass fail s × (code ≡ (s.button_at fail).result)

of_status :
    (pass fail : Ptr) (s : Ui) (r : Option ℤ)
    → Ends (Waiting pass fail) (OneTouched pass fail) s r
    → Verdict pass fail s (exit_status fail s r)
unfolding exit_status check_button_result
of_status pass fail s none w = (w.at_pass.result, w.at_fail.result)
of_status pass fail s (some r) ends = (ends.0, refl)

-- If the list is empty at the start, the two objects are distinct and `epoll_ctl` takes both
-- descriptors, then, whatever the callbacks, the events and their order: as long as the key test has not ended, neither button has been touched;
-- when it has ended, exactly one has been, and the exit status is 1 if that is the "fail" button and
-- 0 if it is the "pass" button.
pub exit_status_lem :
    (g : MinUi) (keys pass fail : Ptr) (call : Callbacks) (ws : List Wake) (s0 : Ui)
    → pass ≢ fail
    → s0.button_list ≡ []
    → let r = main g keys pass fail call true true ws s0 in Verdict pass fail r.0 r.1
unfolding main start_listen check_button_result
exit_status_lem g keys pass fail call ws s0 ne e =
    let u : Ui = set_up g keys pass fail s0 in
    let r = listen_loop call ws [] u in
    of_status pass fail r.0 r.1 (
      listen_loop-Ends call (Waiting pass fail) (OneTouched pass fail) (same-Waiting pass fail)
        (λ p s m w. touch_ends call pass fail p s ne m w) ws [] u
        (set_up-Waiting g keys pass fail s0 ne e))

-- If `epoll_ctl` refuses the descriptor of the touch screen, as it does when there is none, the list
-- is empty at the start and the two objects are distinct, then the key test exits at once with the
-- status 0 of a test that is passed, and no button has been touched.
pub exit_status-refused :
    (g : MinUi) (keys pass fail : Ptr) (call : Callbacks) (add_key : Bool) (ws : List Wake)
    (s0 : Ui)
    → pass ≢ fail
    → s0.button_list ≡ []
    → let (s, code) = main g keys pass fail call false add_key ws s0 in
      (code ≡ some 0) × ((s.button_at pass).result ≡ 0) × ((s.button_at fail).result ≡ 0)
unfolding main start_listen check_button_result exit_status
exit_status-refused g keys pass fail call add_key ws s0 ne e =
    let w : Waiting pass fail (set_up g keys pass fail s0) =
      set_up-Waiting g keys pass fail s0 ne e in
    (ap some w.at_fail.result, w.at_pass.result, w.at_fail.result)
