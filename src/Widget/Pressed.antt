-- ===== src/Widget/Pressed.antt =====
-- At most one button is in the state KEEP_TOUCH, the one that the touch is on.
use test_tools.Common.{
  ◌≡◌, ◌≢◌, inl, inr, refl, true, Option, none, some, List, [], ◌∷◌, arith, ◌==◌, if◌then◌else◌,
  Bool-cases, Option-cases, ap, ◌∙◌, sym,
}
use test_tools.Common.Int.{eqb_ℤ, pos}
use test_tools.Widget.Types.{
  Ptr, Ui, Touch, TouchState, Button, InputEvent, reset_touch, keep_touch, end_touch,
}
use test_tools.Widget.Touch.{find_button_by_id, find_button_by_position, get_touch, ev_syn}
use test_tools.Widget.Catch.{
  release_button, press_button, on_outside, on_inside, on_keep, on_end, on_syn, on_event,
  catch_action_for_button,
}
use test_tools.Widget.Search.{mem, find_by_id-some, find_by_id-none}
use test_tools.Widget.Fields.{SameButtons, on_event-SameButtons}

-- Distinct buttons of the list have distinct ids.
abbrev pub DistinctIds : List Ptr → (Ptr → Button) → Type 0
DistinctIds list at =
    (p q : Ptr) → mem p list ≡ true → mem q list ≡ true → (at p).id ≡ (at q).id → p ≡ q

-- A button of the list that is pressed has the id that the touch remembers.
abbrev pub OnlyCurrent : List Ptr → Ui → Type 0
OnlyCurrent list s =
    (p : Ptr)
    → mem p list ≡ true
    → (s.button_at p).state ≡ keep_touch
    → (s.button_at p).id ≡ s.rec_touch.bt_id

pub SameButtons-id :
    {s s' : Ui} (p : Ptr) → SameButtons s s' → (s'.button_at p).id ≡ (s.button_at p).id
SameButtons-id p h = ap (λ (b : Button). b.id) (h.button p)

release_button-state :
    (p q : Ptr) (s : Ui)
    → ((release_button p s).button_at q).state
      ≡ (if q == p then reset_touch else (s.button_at q).state)
unfolding release_button
release_button-state p q s = ground arith

press_button-state :
    (p q : Ptr) (s : Ui)
    → ((press_button p s).button_at q).state
      ≡ (if q == p then keep_touch else (s.button_at q).state)
unfolding press_button
press_button-state p q s = ground arith

module _ (list : List Ptr) (s : Ui) (distinct : DistinctIds list s.button_at)
    (only : OnlyCurrent list s) (q : Ptr) (listed : mem q list ≡ true) where
  -- If the touch remembers no button of the list, none is pressed.
  none_pressed :
      find_button_by_id s.button_at s.rec_touch.bt_id list ≡ none
      → (s.button_at q).state ≢ keep_touch
  none_pressed e k = find_by_id-none s.button_at s.rec_touch.bt_id list q e listed (only q listed k)

  -- Otherwise it is the button that is found by the id.
  pressed_is_last :
      (l : Ptr)
      → find_button_by_id s.button_at s.rec_touch.bt_id list ≡ some l
      → (s.button_at q).state ≡ keep_touch
      → q ≡ l
  pressed_is_last l e k =
      let (m, i) = find_by_id-some s.button_at s.rec_touch.bt_id list e in
      distinct q l listed m (only q listed k ∙ sym i)

  on_outside-OnlyCurrent :
      (l : Option Ptr)
      → find_button_by_id s.button_at s.rec_touch.bt_id list ≡ l
      → ((on_outside l s).button_at q).state ≢ keep_touch
  unfolding on_outside
  on_outside-OnlyCurrent none e k = none_pressed e k
  on_outside-OnlyCurrent (some l) e k =
      ground (arith, release_button-state l q s, pressed_is_last l)

  on_inside-OnlyCurrent :
      (m : Ptr) (l : Option Ptr)
      → find_button_by_id s.button_at s.rec_touch.bt_id list ≡ l
      → ((on_inside m l s).button_at q).state ≡ keep_touch
      → (s.button_at q).id ≡ (on_inside m l s).rec_touch.bt_id
  unfolding on_inside
  on_inside-OnlyCurrent m none e k = ground (arith, press_button-state m q s, none_pressed e)
  on_inside-OnlyCurrent m (some l) e k = ground (
    arith,
    release_button-state l q s,
    press_button-state m q (release_button l s),
    pressed_is_last l,
  )

release_button-touch : (p : Ptr) (s : Ui) → (release_button p s).rec_touch ≡ s.rec_touch
unfolding release_button
release_button-touch p s = ground arith

module _ (list : List Ptr) (s : Ui) (distinct : DistinctIds list s.button_at)
    (only : OnlyCurrent list s) (q : Ptr) (listed : mem q list ≡ true) where
  on_keep-OnlyCurrent :
      ((on_keep list s).0.button_at q).state ≡ keep_touch
      → (s.button_at q).id ≡ (on_keep list s).0.rec_touch.bt_id
  unfolding on_keep
  on_keep-OnlyCurrent = elim (Option-cases (find_button_by_position s.button_at s.rec_touch list)) [
    | inl e ↦
        rw (e, on_keep)
          (λ k. absurd (on_outside-OnlyCurrent list s distinct only q listed _ refl k))
    | inr (m, e) ↦ rw (e, on_keep) (on_inside-OnlyCurrent list s distinct only q listed m _ refl)
  ]

  on_end-OnlyCurrent :
      ((on_end list s).0.button_at q).state ≡ keep_touch
      → (s.button_at q).id ≡ (on_end list s).0.rec_touch.bt_id
  unfolding on_end
  on_end-OnlyCurrent = elim (Option-cases (find_button_by_id s.button_at s.rec_touch.bt_id list)) [
    | inl e ↦ rw (e, on_end) (only q listed)
    | inr (m, e) ↦
        rw (e, on_end)
          (λ k. ground (arith, release_button-state m q s, release_button-touch m s, only q listed))
  ]

  on_syn-OnlyCurrent :
      (st : TouchState)
      → ((on_syn list st s).0.button_at q).state ≡ keep_touch
      → (s.button_at q).id ≡ (on_syn list st s).0.rec_touch.bt_id
  unfolding on_syn
  on_syn-OnlyCurrent keep_touch = on_keep-OnlyCurrent
  on_syn-OnlyCurrent end_touch = on_end-OnlyCurrent
  on_syn-OnlyCurrent reset_touch = only q listed

get_touch-bt_id : (s : Ui) (e : InputEvent) (t : Touch) → (get_touch s e t).1.bt_id ≡ t.bt_id
unfolding get_touch
get_touch-bt_id s e t = ground arith

on_event-current :
    (list : List Ptr) (e : InputEvent) (s : Ui)
    → DistinctIds list s.button_at
    → OnlyCurrent list s
    → (q : Ptr) → mem q list ≡ true
    → ((on_event list e s).0.button_at q).state ≡ keep_touch
    → (s.button_at q).id ≡ (on_event list e s).0.rec_touch.bt_id
unfolding on_event
on_event-current list e s distinct only q listed =
    let (report, t) = get_touch s e s.rec_touch in
    let s' : Ui = record s { rec_touch = t } in
    let only' : OnlyCurrent list s' = λ p m k. only p m k ∙ sym (get_touch-bt_id s e s.rec_touch) in
    elim (Bool-cases (eqb_ℤ report (pos ev_syn))) [
      | inl h ↦ rw h (on_syn-OnlyCurrent list s' distinct only' q listed t.state)
      | inr h ↦ rw h (only' q listed)
    ]

pub DistinctIds-SameButtons :
    {s s' : Ui} (list : List Ptr)
    → SameButtons s s'
    → DistinctIds list s.button_at
    → DistinctIds list s'.button_at
DistinctIds-SameButtons list same distinct p q mp mq e =
    distinct p q mp mq (sym (SameButtons-id p same) ∙ e ∙ SameButtons-id q same)

on_event-OnlyCurrent :
    (list : List Ptr) (e : InputEvent) (s : Ui)
    → DistinctIds list s.button_at
    → OnlyCurrent list s
    → OnlyCurrent list (on_event list e s).0
on_event-OnlyCurrent list e s distinct only q listed k =
    SameButtons-id q (on_event-SameButtons list e s)
    ∙ on_event-current list e s distinct only q listed k

-- If the buttons of the list have distinct ids, then catch_action_for_button keeps, whatever the
-- events, that a button of the list is in the state KEEP_TOUCH only if its id is the one that the touch
-- remembers: at most one button of the list is in that state at a time. (What is drawn is another
-- matter: a button with Draw_Button_In_End off leaves the state without being drawn again.)
pub catch-OnlyCurrent :
    (es : List InputEvent) (list : List Ptr) (s : Ui)
    → DistinctIds list s.button_at
    → OnlyCurrent list s
    → OnlyCurrent list (catch_action_for_button es list s).2
unfolding catch_action_for_button
catch-OnlyCurrent [] list s distinct only = only
catch-OnlyCurrent (e ∷ es) list s distinct only =
    let s' = (on_event list e s).0 in
    let only' : OnlyCurrent list s' = on_event-OnlyCurrent list e s distinct only in
    elim (Option-cases (on_event list e s).1) [
      | inl h ↦
          rw (h, catch_action_for_button)
            (catch-OnlyCurrent es list s'
              (DistinctIds-SameButtons list (on_event-SameButtons list e s) distinct) only')
      | inr (id, h) ↦ rw (h, catch_action_for_button) only'
    ]
