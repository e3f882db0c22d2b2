-- ===== src/Widget/Fields.antt =====
-- What a touch leaves alone: of the buttons it writes the states only.
use test_tools.Common.Int.{eqb_ℤ, pos}
use test_tools.Common.{
  Option-cases, ℕ, ◌≡◌, inl, inr, refl, Option, none, some, List, [], ◌∷◌, arith, ◌==◌, Bool-cases,
  ◌∙◌,
}
use test_tools.Widget.Types.{
  Ptr, Ui, TouchState, Button, InputEvent, reset_touch, keep_touch, end_touch, update,
}
use test_tools.Widget.Catch.{
  is_enabled, set_bt_id, release_button, press_button, on_outside, on_inside, on_keep, on_end,
  on_syn, on_event, catch_action_for_button,
}
use test_tools.Widget.Touch.{find_button_by_id, find_button_by_position, get_touch, ev_syn}

-- Everything of a button but its state.
abbrev pub fixed : Button → Button
fixed b = record b { state = reset_touch }

-- The buttons are those of `s` but for their states, and the list is the same.
pub record SameButtons (s s' : Ui) : Type 0 where
  pub list : s'.button_list ≡ s.button_list
  pub keys : s'.keyboard_list ≡ s.keyboard_list
  pub button : (p : Ptr) → fixed (s'.button_at p) ≡ fixed (s.button_at p)

pub SameButtons-refl : (s : Ui) → SameButtons s s
SameButtons-refl s = record { list = refl; keys = refl; button = λ p. refl }

pub SameButtons-trans : {s t u : Ui} → SameButtons s t → SameButtons t u → SameButtons s u
SameButtons-trans a b = record {
  list = b.list ∙ a.list;
  keys = b.keys ∙ a.keys;
  button = λ p. b.button p ∙ a.button p;
}

fixed-update :
    (f : Ptr → Button) (p q : Ptr) (st : TouchState)
    → fixed (update f p (record (f p) { state = st }) q) ≡ fixed (f q)
fixed-update f p q st = ground arith

release_button-SameButtons : (p : Ptr) (s : Ui) → SameButtons s (release_button p s)
unfolding release_button
release_button-SameButtons p s = elim (Bool-cases (is_enabled (s.button_at p).draw_button_in_end)) [
  | inl e ↦
      rw e (record {
        list = refl;
        keys = refl;
        button = λ q. fixed-update s.button_at p q reset_touch;
      })
  | inr e ↦
      rw e (record {
        list = refl;
        keys = refl;
        button = λ q. fixed-update s.button_at p q reset_touch;
      })
]

press_button-SameButtons : (p : Ptr) (s : Ui) → SameButtons s (press_button p s)
unfolding press_button
press_button-SameButtons p s = record {
  list = refl;
  keys = refl;
  button = λ q. fixed-update s.button_at p q keep_touch;
}

set_bt_id-SameButtons : {s t : Ui} (i : ℕ) → SameButtons s t → SameButtons s (set_bt_id i t)
set_bt_id-SameButtons i h = record { list = h.list; keys = h.keys; button = h.button }

on_outside-SameButtons : (l : Option Ptr) (s : Ui) → SameButtons s (on_outside l s)
unfolding on_outside
on_outside-SameButtons none s = set_bt_id-SameButtons 0 (SameButtons-refl s)
on_outside-SameButtons (some p) s = set_bt_id-SameButtons 0 (release_button-SameButtons p s)

on_inside-SameButtons : (m : Ptr) (l : Option Ptr) (s : Ui) → SameButtons s (on_inside m l s)
unfolding on_inside
on_inside-SameButtons m none s = set_bt_id-SameButtons _ (press_button-SameButtons m s)
on_inside-SameButtons m (some p) s = elim (Bool-cases ((s.button_at p).id == (s.button_at m).id)) [
  | inl e ↦ rw e (set_bt_id-SameButtons _ (SameButtons-refl s))
  | inr e ↦ rw e (
      set_bt_id-SameButtons _ (
        SameButtons-trans (release_button-SameButtons p s)
          (press_button-SameButtons m (release_button p s))))
]

pub on_keep-SameButtons : (list : List Ptr) (s : Ui) → SameButtons s (on_keep list s).0
unfolding on_keep
on_keep-SameButtons list s =
    elim (Option-cases (find_button_by_position s.button_at s.rec_touch list)) [
      | inl e ↦ rw (e, on_keep) (on_outside-SameButtons _ s)
      | inr (m, e) ↦ rw (e, on_keep) (on_inside-SameButtons m _ s)
    ]

pub on_end-SameButtons : (list : List Ptr) (s : Ui) → SameButtons s (on_end list s).0
unfolding on_end
on_end-SameButtons list s =
    elim (Option-cases (find_button_by_id s.button_at s.rec_touch.bt_id list)) [
      | inl e ↦ rw (e, on_end) (SameButtons-refl s)
      | inr (m, e) ↦ rw (e, on_end) (release_button-SameButtons m s)
    ]

on_syn-SameButtons :
    (list : List Ptr) (st : TouchState) (s : Ui) → SameButtons s (on_syn list st s).0
unfolding on_syn
on_syn-SameButtons list keep_touch s = on_keep-SameButtons list s
on_syn-SameButtons list end_touch s = on_end-SameButtons list s
on_syn-SameButtons list reset_touch s = SameButtons-refl s

pub on_event-SameButtons :
    (list : List Ptr) (e : InputEvent) (s : Ui) → SameButtons s (on_event list e s).0
unfolding on_event
on_event-SameButtons list e s =
    let (report, t) = get_touch s e s.rec_touch in
    let s' : Ui = record s { rec_touch = t } in
    let same : SameButtons s s' = record { list = refl; keys = refl; button = λ p. refl } in
    elim (Bool-cases (eqb_ℤ report (pos ev_syn))) [
      | inl h ↦ rw h (SameButtons-trans same (on_syn-SameButtons list t.state s'))
      | inr h ↦ rw h same
    ]

-- A call of catch_action_for_button changes of the buttons only their states.
pub catch-SameButtons :
    (es : List InputEvent) (list : List Ptr) (s : Ui)
    → SameButtons s (catch_action_for_button es list s).2
unfolding catch_action_for_button
catch-SameButtons [] list s = SameButtons-refl s
catch-SameButtons (e ∷ es) list s = elim (Option-cases (on_event list e s).1) [
  | inl h ↦
      rw (h, catch_action_for_button)
        (SameButtons-trans (on_event-SameButtons list e s)
          (catch-SameButtons es list (on_event list e s).0))
  | inr (id, h) ↦ rw (h, catch_action_for_button) (on_event-SameButtons list e s)
]
