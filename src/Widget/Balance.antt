-- ===== src/Widget/Balance.antt =====
-- The drawing mutex: each touch takes it and gives it back.
use test_tools.Common.{
  ℕ, ◌≡◌, refl, Bool, true, false, not, ◌||◌, Option, none, some, List, [], ◌∷◌, ◌++◌, arith, ◌==◌,
  Bool-cases, Option-cases, inl, inr,
}
use test_tools.Common.Int.{eqb_ℤ, pos}
use test_tools.Widget.Types.{
  Keyboard, Ptr, Ui, Button, TouchState, InputEvent, Gfx, lock, unlock, flip, color, fill, blit,
  keep_touch, end_touch, reset_touch, emit,
}
use test_tools.Widget.Draw.{draw_default_button, draw_custom_button, draw_button}
use test_tools.Widget.Touch.{find_button_by_id, find_button_by_position, get_touch, ev_syn}
use test_tools.Widget.Catch.{
  is_enabled, release_button, press_button, on_outside, on_inside, on_keep, on_end, on_syn,
  on_event, catch_action_for_button, draw_key, draw_keys, catch_action_for_keyboard,
}

-- Whether the mutex is held after the calls; `none` if a call would wait for itself, or give back a
-- mutex that is free.
unfoldable pub run_lock : Bool → List Gfx → Option Bool
run_lock held [] = some held
run_lock true (lock ∷ gs) = none
run_lock false (lock ∷ gs) = run_lock true gs
run_lock true (unlock ∷ gs) = run_lock false gs
run_lock false (unlock ∷ gs) = none
run_lock held (flip ∷ gs) = run_lock held gs
run_lock held (color r g b a ∷ gs) = run_lock held gs
run_lock held (fill x1 y1 x2 y2 ∷ gs) = run_lock held gs
run_lock held (blit s sx sy w h x y ∷ gs) = run_lock held gs

-- draw_default_button gives the mutex back exactly if the state is 0 or 1.
pub draw_default_button-lock :
    (b : Button) (state : ℕ)
    → run_lock false (draw_default_button b state).1 ≡ some (not (state == 0 || state == 1))
unfolding run_lock draw_default_button
draw_default_button-lock b state = ground arith

-- Calls that leave the mutex free.
abbrev pub IsFree : List Gfx → Type 0
IsFree gs = run_lock false gs ≡ some false

IsFree-append :
    (held : Bool) (gs hs : List Gfx)
    → run_lock held gs ≡ some false
    → IsFree hs
    → run_lock held (gs ++ hs) ≡ some false
unfolding run_lock
IsFree-append true [] hs a b = cc
IsFree-append false [] hs a b = b
IsFree-append true (lock ∷ gs) hs a b = cc
IsFree-append false (lock ∷ gs) hs a b = IsFree-append true gs hs a b
IsFree-append true (unlock ∷ gs) hs a b = IsFree-append false gs hs a b
IsFree-append false (unlock ∷ gs) hs a b = cc
IsFree-append true (flip ∷ gs) hs a b = IsFree-append true gs hs a b
IsFree-append false (flip ∷ gs) hs a b = IsFree-append false gs hs a b
IsFree-append true (color _ _ _ _ ∷ gs) hs a b = IsFree-append true gs hs a b
IsFree-append false (color _ _ _ _ ∷ gs) hs a b = IsFree-append false gs hs a b
IsFree-append true (fill _ _ _ _ ∷ gs) hs a b = IsFree-append true gs hs a b
IsFree-append false (fill _ _ _ _ ∷ gs) hs a b = IsFree-append false gs hs a b
IsFree-append true (blit _ _ _ _ _ _ _ ∷ gs) hs a b = IsFree-append true gs hs a b
IsFree-append false (blit _ _ _ _ _ _ _ ∷ gs) hs a b = IsFree-append false gs hs a b

draw_custom_button-lock : (b : Button) (state : ℕ) → IsFree (draw_custom_button b state).1
unfolding run_lock draw_custom_button
draw_custom_button-lock b state = ground arith

draw_button-IsFree : (b : Button) → IsFree (draw_button (some b))
unfolding draw_button run_lock draw_default_button draw_custom_button
draw_button-IsFree b = ground arith

drawn-IsFree :
    (b : Button) (gs : List Gfx) → IsFree gs → IsFree (gs ++ (draw_button (some b) ++ flip ∷ []))
drawn-IsFree b gs h = IsFree-append false gs (draw_button (some b) ++ flip ∷ []) h (
    IsFree-append false (draw_button (some b)) (flip ∷ []) (draw_button-IsFree b)
      (unfold run_lock in refl))

release_button-IsFree : (p : Ptr) (s : Ui) → IsFree s.drawn → IsFree (release_button p s).drawn
unfolding release_button
release_button-IsFree p s h =
    let b : Button = record (s.button_at p) { state = reset_touch } in
    elim (Bool-cases (is_enabled (s.button_at p).draw_button_in_end)) [
      | inl e ↦ rw e (drawn-IsFree b s.drawn h)
      | inr e ↦ rw e h
    ]

press_button-IsFree : (p : Ptr) (s : Ui) → IsFree s.drawn → IsFree (press_button p s).drawn
unfolding press_button
press_button-IsFree p s h = drawn-IsFree (record (s.button_at p) { state = keep_touch }) s.drawn h

on_outside-IsFree : (l : Option Ptr) (s : Ui) → IsFree s.drawn → IsFree (on_outside l s).drawn
unfolding on_outside
on_outside-IsFree none s h = h
on_outside-IsFree (some l) s h = release_button-IsFree l s h

on_inside-IsFree :
    (m : Ptr) (l : Option Ptr) (s : Ui) → IsFree s.drawn → IsFree (on_inside m l s).drawn
unfolding on_inside
on_inside-IsFree m none s h = press_button-IsFree m s h
on_inside-IsFree m (some l) s h = elim (Bool-cases ((s.button_at l).id == (s.button_at m).id)) [
  | inl e ↦ rw e h
  | inr e ↦ rw e (press_button-IsFree m (release_button l s) (release_button-IsFree l s h))
]

on_keep-IsFree : (list : List Ptr) (s : Ui) → IsFree s.drawn → IsFree (on_keep list s).0.drawn
unfolding on_keep
on_keep-IsFree list s h =
    elim (Option-cases (find_button_by_position s.button_at s.rec_touch list)) [
      | inl e ↦ rw (e, on_keep) (on_outside-IsFree _ s h)
      | inr (m, e) ↦ rw (e, on_keep) (on_inside-IsFree m _ s h)
    ]

on_end-IsFree : (list : List Ptr) (s : Ui) → IsFree s.drawn → IsFree (on_end list s).0.drawn
unfolding on_end
on_end-IsFree list s h =
    elim (Option-cases (find_button_by_id s.button_at s.rec_touch.bt_id list)) [
      | inl e ↦ rw (e, on_end) h
      | inr (m, e) ↦ rw (e, on_end) (release_button-IsFree m s h)
    ]

on_syn-IsFree :
    (list : List Ptr) (st : TouchState) (s : Ui)
    → IsFree s.drawn
    → IsFree (on_syn list st s).0.drawn
unfolding on_syn
on_syn-IsFree list keep_touch s h = on_keep-IsFree list s h
on_syn-IsFree list end_touch s h = on_end-IsFree list s h
on_syn-IsFree list reset_touch s h = h

on_event-IsFree :
    (list : List Ptr) (e : InputEvent) (s : Ui)
    → IsFree s.drawn
    → IsFree (on_event list e s).0.drawn
unfolding on_event
on_event-IsFree list e s h =
    let (report, t) = get_touch s e s.rec_touch in
    let s' : Ui = record s { rec_touch = t } in
    elim (Bool-cases (eqb_ℤ report (pos ev_syn))) [
      | inl k ↦ rw k (on_syn-IsFree list t.state s' h)
      | inr k ↦ rw k h
    ]

draw_key-IsFree : (e : InputEvent) (k : Keyboard) → IsFree (draw_key e k)
unfolding draw_key run_lock
draw_key-IsFree e k = ground arith

draw_keys-IsFree :
    (e : InputEvent) (ps : List Ptr) (s : Ui) → IsFree s.drawn → IsFree (draw_keys e ps s).drawn
unfolding draw_keys
draw_keys-IsFree e [] s h = h
draw_keys-IsFree e (p ∷ ps) s h = draw_keys-IsFree e ps (emit (draw_key e (s.keyboard_at p)) s) (
    IsFree-append false s.drawn (draw_key e (s.keyboard_at p)) h
      (draw_key-IsFree e (s.keyboard_at p)))

catch-IsFree :
    (es : List InputEvent) (list : List Ptr) (s : Ui)
    → IsFree s.drawn
    → IsFree (catch_action_for_button es list s).2.drawn
unfolding catch_action_for_button
catch-IsFree [] list s h = h
catch-IsFree (e ∷ es) list s h = elim (Option-cases (on_event list e s).1) [
  | inl k ↦
      rw (k, catch_action_for_button)
        (catch-IsFree es list (on_event list e s).0 (on_event-IsFree list e s h))
  | inr (id, k) ↦ rw (k, catch_action_for_button) (on_event-IsFree list e s h)
]

keys-IsFree :
    (es : List InputEvent) (list : List Ptr) (s : Ui)
    → IsFree s.drawn
    → IsFree (catch_action_for_keyboard es list s).drawn
unfolding catch_action_for_keyboard
keys-IsFree [] list s h = h
keys-IsFree (e ∷ es) list s h =
    keys-IsFree es list (draw_keys e list s) (draw_keys-IsFree e list s h)

-- Whatever events come in, catch_action_for_button and catch_action_for_keyboard take the drawing
-- mutex only when it is free and give it back each time, on every path and also where the call
-- returns early.
pub catch_actions-IsFree :
    (es : List InputEvent) (list : List Ptr) (s : Ui)
    → IsFree s.drawn
    → IsFree (catch_action_for_button es list s).2.drawn
      × IsFree (catch_action_for_keyboard es list s).drawn
catch_actions-IsFree es list s h = (catch-IsFree es list s h, keys-IsFree es list s h)
