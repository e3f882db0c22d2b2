-- ===== src/Widget/Search.antt =====
-- The searches of widget.c in the button list.
use test_tools.Common.{
  ap, ℕ, ◌+◌, ◌<◌, ◌^◌, ◌≡◌, ◌≢◌, ◌↔◌, inl, inr, refl, Bool, true, false, ◌||◌, Option, none, some,
  List, [], ◌∷◌, ◌++◌, arith, ◌==◌, All, Bool-cases, ==_iff,
}
use test_tools.Widget.Types.{Ptr, Touch, TouchState, Button}
use test_tools.Widget.Touch.{istouchingbutton, find_button_by_position, find_button_by_id}

-- The addresses in a list of widgets.
abbrev pub mem : Ptr → List Ptr → Bool
mem p [] = false
mem p (q ∷ qs) = p == q || mem p qs

-- The point lies strictly inside the button's area.
pub record IsInside (b : Button) (t : Touch) : Type 0 where
  pub left : b.ps.f_position_x < t.x
  pub right : t.x < b.ps.f_position_x + b.ps.icon_width
  pub top : b.ps.f_position_y < t.y
  pub bottom : t.y < b.ps.f_position_y + b.ps.icon_height

-- The area does not run over the range of `unsigned`.
pub record Fits (b : Button) : Type 0 where
  pub horizontal : b.ps.f_position_x + b.ps.icon_width < 2 ^ 32
  pub vertical : b.ps.f_position_y + b.ps.icon_height < 2 ^ 32

-- If the button's area does not run over the range of `unsigned`, then istouchingbutton returns 1
-- exactly for the points strictly inside the area.
pub istouchingbutton-IsInside :
    (b : Button) (t : Touch) → Fits b → (istouchingbutton b t ≡ 1) ↔ IsInside b t
unfolding istouchingbutton
istouchingbutton-IsInside b t f = (λ h. ground arith, λ h. ground arith)

-- What the search by position is to find: the first button in the list with the point inside its area.
abbrev pub FirstTouched : (Ptr → Button) → Touch → List Ptr → Option Ptr → Type 0
FirstTouched at t list none = All (λ p. IsInside (at p) t → ⊥) list
FirstTouched at t list (some p) =
    (before after : List Ptr) × (list ≡ before ++ p ∷ after)
    × IsInside (at p) t
    × All (λ q. IsInside (at q) t → ⊥) before

skip_first :
    (at : Ptr → Button) (t : Touch) (p : Ptr) (ps : List Ptr) (r : Option Ptr)
    → (IsInside (at p) t → ⊥)
    → FirstTouched at t ps r
    → FirstTouched at t (p ∷ ps) r
skip_first at t p ps none h f = (h, f)
skip_first at t p ps (some q) h (before, after, e, hit, miss) =
    (p ∷ before, after, ap (◌∷◌ p) e, hit, (h, miss))

-- If no button's area runs over the range of `unsigned`, then the search by position gives the first
-- button of the list that has the point strictly inside its area, and `NULL` exactly where none has.
pub find_button_by_position-FirstTouched :
    (at : Ptr → Button) (t : Touch) (list : List Ptr)
    → All (λ p. Fits (at p)) list
    → FirstTouched at t list (find_button_by_position at t list)
unfolding find_button_by_position
find_button_by_position-FirstTouched at t [] f = tt
find_button_by_position-FirstTouched at t (p ∷ ps) f =
    let inside = istouchingbutton-IsInside (at p) t f.0 in
    elim (Bool-cases (istouchingbutton (at p) t == 1)) [
      | inl e ↦ rw e ([], ps, refl, inside.0 ((==_iff _ 1).0 e), tt)
      | inr e ↦ rw e (
          skip_first at t p ps (find_button_by_position at t ps)
            (λ i. let h = inside.1 i in ground arith)
            (find_button_by_position-FirstTouched at t ps f.1))
    ]

-- A button found by its position is in the list.
pub mem-find_by_position :
    (at : Ptr → Button) (t : Touch) (list : List Ptr) {p : Ptr}
    → find_button_by_position at t list ≡ some p
    → mem p list ≡ true
unfolding find_button_by_position
mem-find_by_position at t [] h = cc
mem-find_by_position at t (q ∷ qs) {p} h = ground (arith, mem-find_by_position at t qs {p = p})

-- The state of the touch does not bear on the search.
pub find_by_position-state :
    (at : Ptr → Button) (t : Touch) (st : TouchState) (list : List Ptr)
    → find_button_by_position at (record t { state = st }) list ≡ find_button_by_position at t list
unfolding find_button_by_position istouchingbutton
find_by_position-state at t st [] = refl
find_by_position-state at t st (p ∷ ps) = rw (find_by_position-state at t st ps)

pub find_by_id-some :
    (at : Ptr → Button) (i : ℕ) (list : List Ptr) {p : Ptr}
    → find_button_by_id at i list ≡ some p
    → (mem p list ≡ true) × ((at p).id ≡ i)
unfolding find_button_by_id
find_by_id-some at i [] h = cc
find_by_id-some at i (q ∷ qs) {p} h = ground (arith, find_by_id-some at i qs {p = p})

pub find_by_id-none :
    (at : Ptr → Button) (i : ℕ) (list : List Ptr) (p : Ptr)
    → find_button_by_id at i list ≡ none
    → mem p list ≡ true
    → (at p).id ≢ i
unfolding find_button_by_id
find_by_id-none at i [] p h m = cc
find_by_id-none at i (q ∷ qs) p h m = ground (arith, find_by_id-none at i qs p)

-- The search by id looks at the ids alone.
pub find_by_id-ids :
    (at at' : Ptr → Button) (i : ℕ) (list : List Ptr)
    → ((p : Ptr) → (at' p).id ≡ (at p).id)
    → find_button_by_id at' i list ≡ find_button_by_id at i list
unfolding find_button_by_id
find_by_id-ids at at' i [] same = refl
find_by_id-ids at at' i (p ∷ ps) same = rw (same p, find_by_id-ids at at' i ps same)

-- The search by position looks at the areas alone.
pub find_by_position-areas :
    (at at' : Ptr → Button) (t : Touch) (list : List Ptr)
    → ((p : Ptr) → (at' p).ps ≡ (at p).ps)
    → find_button_by_position at' t list ≡ find_button_by_position at t list
unfolding find_button_by_position istouchingbutton
find_by_position-areas at at' t [] same = refl
find_by_position-areas at at' t (p ∷ ps) same = rw (same p, find_by_position-areas at at' t ps same)

-- Of the touch the search by position looks at the position alone.
pub find_by_position-point :
    (at : Ptr → Button) (t t' : Touch) (list : List Ptr)
    → t'.x ≡ t.x
    → t'.y ≡ t.y
    → find_button_by_position at t' list ≡ find_button_by_position at t list
unfolding find_button_by_position istouchingbutton
find_by_position-point at t t' [] ex ey = refl
find_by_position-point at t t' (p ∷ ps) ex ey = rw (ex, ey, find_by_position-point at t t' ps ex ey)
