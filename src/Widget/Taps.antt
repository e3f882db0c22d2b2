-- ===== src/Widget/Taps.antt =====
-- What catch_action_for_button reports and draws for a touch that slides, and for a second tap.
use test_tools.Common.{
  inl, inr, ==_iff, ℕ, ◌≡◌, refl, true, Option, none, some, List, [], ◌∷◌, ◌∙◌, sym, ap, arith,
  ◌==◌, Option-cases,
}
use test_tools.Widget.Types.{
  Ptr, Ui, Touch, TouchState, Button, InputEvent, reset_touch, keep_touch, end_touch, disable,
}
use test_tools.Widget.Touch.{
  find_button_by_id, find_button_by_position, get_touch, ev_syn, ev_abs, next_state,
  abs_mt_position_x, abs_mt_position_y, turned,
}
use test_tools.Widget.Catch.{
  release_button, press_button, on_inside, on_keep, on_end, on_syn, on_event,
  catch_action_for_button,
}
use test_tools.Widget.Fields.{SameButtons, catch-SameButtons}
use test_tools.Widget.Search.{
  mem-find_by_position, find_by_position-state, find_by_id-some, find_by_id-none,
}

-- The report `EV_SYN`.
abbrev pub syn : InputEvent
syn = record { type = ev_syn; code = 0; value = 0 }

-- `s` with the touch in another state.
abbrev pub in_state : TouchState → Ui → Ui
in_state st s = record s { rec_touch = record (s.rec_touch) { state = st } }

on_event-syn :
    (list : List Ptr) (s : Ui)
    → on_event list syn s
      ≡ on_syn list (next_state s.rec_touch.state) (in_state (next_state s.rec_touch.state) s)
unfolding on_event get_touch
on_event-syn list s = refl

catch-none :
    (e : InputEvent) (es : List InputEvent) (list : List Ptr) (s : Ui)
    → (on_event list e s).1 ≡ none
    → catch_action_for_button (e ∷ es) list s
      ≡ catch_action_for_button es list (on_event list e s).0
unfolding catch_action_for_button
catch-none e es list s h = rw (h, catch_action_for_button)

catch-some :
    (e : InputEvent) (es : List InputEvent) (list : List Ptr) (s : Ui) (i : ℕ)
    → (on_event list e s).1 ≡ some i
    → catch_action_for_button (e ∷ es) list s ≡ (i, es, (on_event list e s).0)
unfolding catch_action_for_button
catch-some e es list s i h = rw (h, catch_action_for_button)

on_end-returned : (list : List Ptr) (s : Ui) → (on_end list s).1 ≡ some s.rec_touch.bt_id
unfolding on_end
on_end-returned list s = ground arith

release_button-touch : (p : Ptr) (s : Ui) → (release_button p s).rec_touch ≡ s.rec_touch
unfolding release_button
release_button-touch p s = ground arith

on_inside-touch :
    (m : Ptr) (l : Option Ptr) (s : Ui)
    → (on_inside m l s).rec_touch ≡ record (s.rec_touch) { bt_id = (s.button_at m).id }
unfolding on_inside press_button
on_inside-touch m none s = refl
on_inside-touch m (some l) s = ground (arith, release_button-touch l s)

-- KEEP_TOUCH on a button that is not fast: nothing is returned, and the touch remembers it.
on_keep-found :
    (list : List Ptr) (s : Ui) (m : Ptr)
    → find_button_by_position s.button_at s.rec_touch list ≡ some m
    → (s.button_at m).fast_touch ≡ disable
    → on_keep list s ≡ (on_inside m (find_button_by_id s.button_at s.rec_touch.bt_id list) s, none)
unfolding on_keep
on_keep-found list s m e f = rw (e, on_keep) (rw f)

on_end-touch : (list : List Ptr) (s : Ui) → (on_end list s).0.rec_touch ≡ s.rec_touch
unfolding on_end
on_end-touch list s = elim (Option-cases (find_button_by_id s.button_at s.rec_touch.bt_id list)) [
  | inl e ↦ rw (e, on_end)
  | inr (m, e) ↦ rw (e, on_end) (release_button-touch m s)
]

module _ (list : List Ptr) (s : Ui) (m : Ptr) (fresh : s.rec_touch.state ≡ reset_touch)
    (hit : find_button_by_position s.button_at s.rec_touch list ≡ some m)
    (slow : (s.button_at m).fast_touch ≡ disable) where
  -- The state after the first report of a touch on the button.
  abbrev entered : Ui
  entered =
      on_inside m (find_button_by_id s.button_at s.rec_touch.bt_id list) (in_state keep_touch s)

  first_report : on_event list syn s ≡ (entered, none)
  unfolding on_syn
  first_report =
      on_event-syn list s
      ∙ rw fresh (
          on_keep-found list (in_state keep_touch s) m
            (find_by_position-state s.button_at s.rec_touch keep_touch list ∙ hit) slow)

  entered-touch :
      entered.rec_touch ≡ record (s.rec_touch) { state = keep_touch; bt_id = (s.button_at m).id }
  entered-touch =
      on_inside-touch m (find_button_by_id s.button_at s.rec_touch.bt_id list)
        (in_state keep_touch s)

  second_report : on_event list syn entered ≡ on_end list (in_state end_touch entered)
  unfolding on_syn
  second_report = on_event-syn list entered ∙ rw (ap (λ (t : Touch). t.state) entered-touch)

  -- Two reports in a row, whatever follows: the call returns the button's id.
  tap :
      (rest : List InputEvent)
      → catch_action_for_button (syn ∷ syn ∷ rest) list s
        ≡ ((s.button_at m).id, rest, (on_end list (in_state end_touch entered)).0)
  tap rest =
      let returned : (on_event list syn entered).1 ≡ some (s.button_at m).id =
        ap (λ (r : Ui × Option ℕ). r.1) second_report
        ∙ on_end-returned list (in_state end_touch entered)
        ∙ ap some (ap (λ (t : Touch). t.bt_id) entered-touch) in
      catch-none syn (syn ∷ rest) list s (ap (λ (r : Ui × Option ℕ). r.1) first_report)
      ∙ (rw (ap (λ (r : Ui × Option ℕ). r.0) first_report) (
          catch-some syn rest list entered (s.button_at m).id returned
          ∙ rw (ap (λ (r : Ui × Option ℕ). r.0) second_report)))

-- A touch that has just been put on a button `m` that does not react at once, and is then lifted, is
-- reported as a touch of `m`, whatever button the touch remembers: a finger that goes down on
-- another button and slides to `m` counts as a touch of `m`.
pub slide_reports_last :
    (rest : List InputEvent) (list : List Ptr) (s : Ui) (m : Ptr)
    → s.rec_touch.state ≡ reset_touch
    → find_button_by_position s.button_at s.rec_touch list ≡ some m
    → (s.button_at m).fast_touch ≡ disable
    → ((catch_action_for_button (syn ∷ syn ∷ rest) list s).0 ≡ (s.button_at m).id)
      × ((catch_action_for_button (syn ∷ syn ∷ rest) list s).1 ≡ rest)
slide_reports_last rest list s m fresh hit slow = (
  ap (λ (r : ℕ × List InputEvent × Ui). r.0) (tap list s m fresh hit slow rest),
  ap (λ (r : ℕ × List InputEvent × Ui). r.1) (tap list s m fresh hit slow rest),
)

-- The two events that give the position of a touch.
abbrev pub to_x : ℕ → InputEvent
to_x v = record { type = ev_abs; code = abs_mt_position_x; value = v }

abbrev pub to_y : ℕ → InputEvent
to_y v = record { type = ev_abs; code = abs_mt_position_y; value = v }

-- A touch at this point, on the screen as it is turned, before its first report.
abbrev pub moved : (x y : ℕ) → Ui → Ui
moved x y s = record s {
  rec_touch = record (s.rec_touch) {
    x = turned s.swap s.width_limit x;
    y = turned s.swap s.height_limit y;
    state = reset_touch;
  };
}

-- The state behind a tap where the last touch was.
abbrev pub tapped : List Ptr → Ui → Ui
tapped list s = (catch_action_for_button (syn ∷ syn ∷ []) list s).2

-- KEEP_TOUCH on the button that the touch remembers changes nothing.
on_keep-remembered :
    (list : List Ptr) (s : Ui) (m : Ptr)
    → find_button_by_position s.button_at s.rec_touch list ≡ some m
    → (s.button_at m).id ≡ s.rec_touch.bt_id
    → ((on_keep list s).0.drawn ≡ s.drawn) × ((on_keep list s).0.button_at ≡ s.button_at)
unfolding on_keep on_inside
on_keep-remembered list s m hit current =
    elim (Option-cases (find_button_by_id s.button_at s.rec_touch.bt_id list)) [
      | inl e ↦ absurd (
          find_by_id-none s.button_at s.rec_touch.bt_id list m e
            (mem-find_by_position s.button_at s.rec_touch list hit) current)
      | inr (l, e) ↦
          let same : ((s.button_at l).id == (s.button_at m).id) ≡ true =
            (==_iff _ _).1
              ((find_by_id-some s.button_at s.rec_touch.bt_id list e).1 ∙ sym current) in
          (
            rw (hit, on_keep) (rw (e, on_inside) (rw same)),
            rw (hit, on_keep) (rw (e, on_inside) (rw same)),
          )
    ]

catch-syn :
    (list : List Ptr) (s : Ui)
    → (catch_action_for_button (syn ∷ []) list s).2 ≡ (on_event list syn s).0
unfolding catch_action_for_button
catch-syn list s = elim (Option-cases (on_event list syn s).1) [
  | inl h ↦ rw (h, catch_action_for_button)
  | inr (i, h) ↦ rw (h, catch_action_for_button)
]

catch-moved :
    (list : List Ptr) (s : Ui) (x y : ℕ) (es : List InputEvent)
    → catch_action_for_button (to_x x ∷ to_y y ∷ es) list s
      ≡ catch_action_for_button es list (moved x y s)
unfolding catch_action_for_button on_event get_touch
catch-moved list s x y es = refl

-- A second touch on the button that was tapped last.
again :
    (list : List Ptr) (s1 : Ui) (x y : ℕ) (m : Ptr)
    → find_button_by_position s1.button_at ((moved x y s1).rec_touch) list ≡ some m
    → (s1.button_at m).id ≡ s1.rec_touch.bt_id
    → ((catch_action_for_button (to_x x ∷ to_y y ∷ syn ∷ []) list s1).2.drawn ≡ s1.drawn)
      × ((catch_action_for_button (to_x x ∷ to_y y ∷ syn ∷ []) list s1).2.button_at ≡ s1.button_at)
unfolding on_syn
again list s1 x y m hit current =
    let u = moved x y s1 in
    let run : (catch_action_for_button (to_x x ∷ to_y y ∷ syn ∷ []) list s1).2
        ≡ (on_keep list (in_state keep_touch u)).0 =
      ap (λ (r : ℕ × List InputEvent × Ui). r.2) (catch-moved list s1 x y (syn ∷ []))
      ∙ catch-syn list u
      ∙ ap (λ (r : Ui × Option ℕ). r.0) (on_event-syn list u) in
    let (d, b) =
      on_keep-remembered list (in_state keep_touch u) m
        (find_by_position-state s1.button_at u.rec_touch keep_touch list ∙ hit) current in
    (ap (λ (w : Ui). w.drawn) run ∙ d, ap (λ (w : Ui). w.button_at) run ∙ b)

-- After a tap on a button `m` that does not react at once, let the next touch be at any point of `m`, given
-- by its two positions. Then its first report draws nothing and changes no button: the press is not shown,
-- whatever is drawn for `m` stays so, since the touch still remembers `m`.
pub second_tap_not_shown :
    (list : List Ptr) (s : Ui) (m : Ptr) (x y : ℕ)
    → s.rec_touch.state ≡ reset_touch
    → find_button_by_position s.button_at s.rec_touch list ≡ some m
    → (s.button_at m).fast_touch ≡ disable
    → find_button_by_position (tapped list s).button_at (moved x y (tapped list s)).rec_touch list
      ≡ some m
    → let s1 = (catch_action_for_button (syn ∷ syn ∷ []) list s).2 in
      let s2 = (catch_action_for_button (to_x x ∷ to_y y ∷ syn ∷ []) list s1).2 in
      (s2.drawn ≡ s1.drawn) × (s2.button_at ≡ s1.button_at)
second_tap_not_shown list s m x y fresh hit slow hit' =
    let s1 = tapped list s in
    let same : SameButtons s s1 = catch-SameButtons (syn ∷ syn ∷ []) list s in
    let touch : s1.rec_touch
        ≡ record (s.rec_touch) { state = end_touch; bt_id = (s.button_at m).id } =
      ap (λ (r : ℕ × List InputEvent × Ui). r.2.rec_touch) (tap list s m fresh hit slow [])
      ∙ on_end-touch list (in_state end_touch (entered list s m fresh hit slow))
      ∙ ap (λ (t : Touch). record t { state = end_touch })
          (entered-touch list s m fresh hit slow) in
    again list s1 x y m hit'
      (ap (λ (b : Button). b.id) (same.button m) ∙ sym (ap (λ (t : Touch). t.bt_id) touch))
