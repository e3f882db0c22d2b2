-- ===== src/Widget/Returns.antt =====
-- A rule for start_listen: what holds while it waits, and when it returns.
use test_tools.Common.{
  ◌≡◌, refl, Bool, true, false, Option, none, some, List, [], ◌∷◌, ◌++◌, Bool-cases, Option-cases,
  inl, inr,
}
use test_tools.Common.Int.{ℤ, pos}
use test_tools.Widget.Types.{Ptr, Ui, InputEvent}
use test_tools.Widget.Touch.{find_button_by_id}
use test_tools.Widget.Catch.{catch_action_for_button, catch_action_for_keyboard, draw_keys}
use test_tools.Widget.Search.{mem, find_by_id-some}
use test_tools.Widget.Fields.{SameButtons, catch-SameButtons, SameButtons-refl, SameButtons-trans}
use test_tools.Widget.Listen.{
  Source, Wake, interrupted, ready, from_buttons, from_keys, from_other, Callbacks, touched,
  on_source, on_sources, listen_loop,
}

draw_keys-SameButtons : (e : InputEvent) (ps : List Ptr) (s : Ui) → SameButtons s (draw_keys e ps s)
unfolding draw_keys
draw_keys-SameButtons e [] s = SameButtons-refl s
draw_keys-SameButtons e (p ∷ ps) s =
    SameButtons-trans (record { list = refl; keys = refl; button = λ q. refl })
      (draw_keys-SameButtons e ps _)

keys-SameButtons :
    (es : List InputEvent) (list : List Ptr) (s : Ui)
    → SameButtons s (catch_action_for_keyboard es list s)
unfolding catch_action_for_keyboard
keys-SameButtons [] list s = SameButtons-refl s
keys-SameButtons (e ∷ es) list s =
    SameButtons-trans (draw_keys-SameButtons e list s)
      (keys-SameButtons es list (draw_keys e list s))

-- `P` where the loop goes on and `Q` where it ends.
abbrev pub Stops : (Ui → Type 0) → (Ui → Type 0) → Ui → Bool → Type 0
Stops P Q s false = P s
Stops P Q s true = Q s

-- `P` where the function still waits, and `Q` with the result 0 where it has returned.
abbrev pub Ends : (Ui → Type 0) → (Ui → Type 0) → Ui → Option ℤ → Type 0
Ends P Q s none = P s
Ends P Q s (some r) = Q s × (r ≡ pos 0)

module _ (call : Callbacks) (P Q : Ui → Type 0) (same : (s s' : Ui) → SameButtons s s' → P s → P s')
    (touch : (p : Ptr) (s : Ui)
      → mem p s.button_list ≡ true
      → P s
      → Stops P Q (touched call p s).0 (touched call p s).1) where
  on_source-Stops :
      (x : Source) (pending : List InputEvent) (s : Ui)
      → P s
      → Stops P Q (on_source call x pending s).0 (on_source call x pending s).2
  unfolding on_source
  on_source-Stops (from_buttons es) pending s h =
      let r = catch_action_for_button (pending ++ es) s.button_list s in
      let h' : P r.2 = same s r.2 (catch-SameButtons (pending ++ es) s.button_list s) h in
      elim (Option-cases (find_button_by_id r.2.button_at r.0 r.2.button_list)) [
        | inl e ↦ rw (e, on_source) h'
        | inr (p, e) ↦
            rw (e, on_source)
              (touch p r.2 (find_by_id-some r.2.button_at r.0 r.2.button_list e).0 h')
      ]
  on_source-Stops (from_keys es) pending s h =
      same s (catch_action_for_keyboard es s.keyboard_list s)
        (keys-SameButtons es s.keyboard_list s) h
  on_source-Stops from_other pending s h = h

  on_sources-Stops :
      (xs : List Source) (pending : List InputEvent) (s : Ui)
      → P s
      → Stops P Q (on_sources call xs pending s).0 (on_sources call xs pending s).2
  unfolding on_sources
  on_sources-Stops [] pending s h = h
  on_sources-Stops (x ∷ xs) pending s h =
      let r = on_source call x pending s in
      let k : Stops P Q r.0 r.2 = on_source-Stops x pending s h in
      elim (Bool-cases r.2) [
        | inl e ↦ rw (e, on_sources) (rw e at k)
        | inr e ↦ rw (e, on_sources) (on_sources-Stops xs r.1 r.0 (rw e at k))
      ]

  -- `P` is kept while the loop waits, and `Q` holds where it has returned.
  pub listen_loop-Ends :
      (ws : List Wake) (pending : List InputEvent) (s : Ui)
      → P s
      → Ends P Q (listen_loop call ws pending s).0 (listen_loop call ws pending s).1
  unfolding listen_loop
  listen_loop-Ends [] pending s h = h
  listen_loop-Ends (interrupted ∷ ws) pending s h = listen_loop-Ends ws pending s h
  listen_loop-Ends (ready xs ∷ ws) pending s h =
      let r = on_sources call xs pending s in
      let k : Stops P Q r.0 r.2 = on_sources-Stops xs pending s h in
      elim (Bool-cases r.2) [
        | inl e ↦ rw (e, listen_loop) (let q : Q r.0 = rw e at k in (q, refl))
        | inr e ↦ rw (e, listen_loop) (listen_loop-Ends ws r.1 r.0 (rw e at k))
      ]
