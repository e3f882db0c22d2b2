-- ===== src/TouchTest/Grid.antt =====
-- What `main` of the touch test sets up.
use native.Mathlib.Nat.{add-zero, zero-add}
use test_tools.Common.{
  ==_iff, ℕ, zero, suc, ◌+◌, ◌*◌, ◌/◌, ◌<◌, ◌≤◌, ◌≡◌, inl, inr, refl, true, false, ◌||◌, some, List,
  [], ◌∷◌, ◌++◌, arith, ◌==◌, if◌then◌else◌, ap, ◌∙◌, sym, subst, ==_refl, Bool-cases, append_assoc,
  append-nil,
}
use test_tools.Widget.Types.{Ptr, Ui, MinUi, Button, normal}
use test_tools.Widget.Setup.{init_param, init_default_button, set_swap}
use test_tools.Widget.Search.{mem}
use test_tools.TouchTest.{Layout, bt_pass, init_cell, init_row, init_rows, set_up}

bt_pass-append :
    (f : ℕ → Ptr) (m n k : ℕ) → bt_pass f (m + n) k ≡ bt_pass f m k ++ bt_pass f n (k + m)
unfolding bt_pass
bt_pass-append f zero n k = rw (zero-add, add-zero)
bt_pass-append f (suc m) n k =
    let e : suc m + n ≡ suc (m + n) = omega arith in
    let e' : k + suc m ≡ k + 1 + m = omega arith in rw (e, e', bt_pass-append f m n (k + 1))

mem-append : (p q : Ptr) (list : List Ptr) → mem p (list ++ q ∷ []) ≡ (mem p list || p == q)
mem-append p q [] = ground arith
mem-append p q (x ∷ xs) = ground (arith, mem-append p q xs)

-- A button as `main` sets it up.
pub record IsNew (l : Layout) (p : Ptr) (b : Button) : Type 0 where
  pub mode : b.mode ≡ normal
  pub func : b.func ≡ some l.check
  pub result : b.result ≡ 0
  pub index : ℕ
  pub small : index < 25
  pub param : b.param ≡ some (l.para index)
  pub own : l.fresh index ≡ p

abbrev Built : Layout → Ui → Type 0
Built l s = (p : Ptr) → mem p s.button_list ≡ true → IsNew l p (s.button_at p)

module _ (l : Layout) (w h i j : ℕ) (s : Ui) where
  init_cell-list : (init_cell l w h i j s).button_list ≡ s.button_list ++ l.fresh (i + j * 5) ∷ []
  unfolding init_cell init_default_button
  init_cell-list = refl

  init_cell-other :
      (p : Ptr)
      → (p == l.fresh (i + j * 5)) ≡ false
      → (init_cell l w h i j s).button_at p ≡ s.button_at p
  unfolding init_cell init_default_button
  init_cell-other p e = rw e

  init_cell-own :
      i < 5
      → j < 5
      → IsNew l (l.fresh (i + j * 5)) ((init_cell l w h i j s).button_at (l.fresh (i + j * 5)))
  unfolding init_cell init_default_button
  init_cell-own li lj = rw (==_refl (l.fresh (i + j * 5))) (record {
    mode = ground (arith, ==_refl (l.fresh (i + j * 5)));
    func = refl;
    result = ground (arith, ==_refl (l.fresh (i + j * 5)));
    index = i + j * 5;
    small = omega arith;
    param = refl;
    own = refl;
  })

  init_cell-Built : i < 5 → j < 5 → Built l s → Built l (init_cell l w h i j s)
  init_cell-Built li lj b p m = elim (Bool-cases (p == l.fresh (i + j * 5))) [
    | inl e ↦ rw ((==_iff _ _).0 e) (init_cell-own li lj)
    | inr e ↦ rw (init_cell-other p e) (b p (old e))
  ]
    where
      old : (p == l.fresh (i + j * 5)) ≡ false → mem p s.button_list ≡ true
      old e =
          ground (
            arith,
            e,
            m,
            ap (mem p) init_cell-list,
            mem-append p (l.fresh (i + j * 5)) s.button_list,
          )

init_row-list :
    (l : Layout) (w h n i j : ℕ) (s : Ui)
    → (init_row l w h n i j s).button_list ≡ s.button_list ++ bt_pass l.fresh n (i + j * 5)
unfolding init_row bt_pass
init_row-list l w h zero i j s = sym (append-nil s.button_list)
init_row-list l w h (suc n) i j s =
    let e : i + 1 + j * 5 ≡ i + j * 5 + 1 = omega arith in
    init_row-list l w h n (i + 1) j (init_cell l w h i j s)
    ∙ rw (init_cell-list l w h i j s, e, append_assoc)

init_row-Built :
    (l : Layout) (w h n i j : ℕ) (s : Ui)
    → n + i ≤ 5
    → j < 5
    → Built l s
    → Built l (init_row l w h n i j s)
unfolding init_row
init_row-Built l w h zero i j s li lj b = b
init_row-Built l w h (suc n) i j s li lj b =
    init_row-Built l w h n (i + 1) j (init_cell l w h i j s) (omega arith) lj
      (init_cell-Built l w h i j s (omega arith) lj b)

init_rows-list :
    (l : Layout) (w h n j : ℕ) (s : Ui)
    → (init_rows l w h n j s).button_list ≡ s.button_list ++ bt_pass l.fresh (n * 5) (j * 5)
unfolding init_rows
init_rows-list l w h zero j s = sym (append-nil s.button_list) ∙ (unfold bt_pass in refl)
init_rows-list l w h (suc n) j s =
    let e : suc n * 5 ≡ 5 + n * 5 = omega arith in
    let e' : (j + 1) * 5 ≡ j * 5 + 5 = omega arith in
    let e'' : 0 + j * 5 ≡ j * 5 = omega arith in
    init_rows-list l w h n (j + 1) (init_row l w h 5 0 j s)
    ∙ rw (
      init_row-list l w h 5 0 j s,
      e,
      e',
      e'',
      bt_pass-append l.fresh 5 (n * 5) (j * 5),
      append_assoc,
    )

init_rows-Built :
    (l : Layout) (w h n j : ℕ) (s : Ui) → n + j ≤ 5 → Built l s → Built l (init_rows l w h n j s)
unfolding init_rows
init_rows-Built l w h zero j s lj b = b
init_rows-Built l w h (suc n) j s lj b =
    init_rows-Built l w h n (j + 1) (init_row l w h 5 0 j s) (omega arith)
      (init_row-Built l w h 5 0 j s (omega arith) (omega arith) b)

same_list :
    (g : MinUi) (f1 : ℕ) (s0 : Ui)
    → (if f1 == 1 then set_swap (init_param g s0) else init_param g s0).button_list ≡ s0.button_list
unfolding init_param set_swap
same_list g f1 s0 = ground arith

pub set_up-list :
    (g : MinUi) (l : Layout) (f1 : ℕ) (s0 : Ui)
    → s0.button_list ≡ []
    → (set_up g l f1 s0).button_list ≡ bt_pass l.fresh 25 0
unfolding set_up
set_up-list g l f1 s0 e =
    init_rows-list l (g.fb_width / 5) (g.fb_height / 5) 5 0 _
    ∙ ap (λ ps. ps ++ bt_pass l.fresh 25 0) (same_list g f1 s0 ∙ e)

pub set_up-Built :
    (g : MinUi) (l : Layout) (f1 : ℕ) (s0 : Ui)
    → s0.button_list ≡ []
    → (p : Ptr) → mem p (bt_pass l.fresh 25 0) ≡ true
    → IsNew l p ((set_up g l f1 s0).button_at p)
unfolding set_up
set_up-Built g l f1 s0 e p m =
    let s2 = if f1 == 1 then set_swap (init_param g s0) else init_param g s0 in
    init_rows-Built l (g.fb_width / 5) (g.fb_height / 5) 5 0 s2 (omega arith)
      (λ q mq. absurd (nothing q (subst (λ ps. mem q ps ≡ true) (same_list g f1 s0 ∙ e) mq))) p
      (subst (λ ps. mem p ps ≡ true) (sym (set_up-list g l f1 s0 e)) m)
  where
    nothing : (q : Ptr) → mem q [] ≡ true → ⊥
    nothing q h = cc
