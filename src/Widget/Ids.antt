-- ===== src/Widget/Ids.antt =====
-- The ids that the constructors of widget.c give.
use test_tools.Common.{
  subst, ℕ, ◌+◌, ◌<◌, ◌≡◌, ◌^◌, ◌⊎◌, inl, inr, refl, Bool, true, false, ◌||◌, List, [], ◌∷◌, ◌++◌,
  arith, ◌==◌, if◌then◌else◌, ap, ◌∙◌, sym,
}
use test_tools.Widget.Types.{Ptr, Ui, MinUi, add32}
use test_tools.Widget.Setup.{init_param, init_button, init_default_button, init_keyboard}
use test_tools.Widget.Search.{mem}
use test_tools.Widget.Pressed.{DistinctIds}

-- The listed buttons have distinct ids from 1 up, all below the next one.
pub record HasIds (s : Ui) : Type 0 where
  pub next : 0 < s.widget_id
  pub positive : (p : Ptr) → mem p s.button_list ≡ true → 0 < (s.button_at p).id
  pub below : (p : Ptr) → mem p s.button_list ≡ true → (s.button_at p).id < s.widget_id
  pub distinct : DistinctIds s.button_list s.button_at

mem-append : (p q : Ptr) (list : List Ptr) → mem p (list ++ q ∷ []) ≡ (mem p list || p == q)
mem-append p q [] = ground arith
mem-append p q (x ∷ xs) = ground (arith, mem-append p q xs)

-- What a constructor does to the list, the ids and the counter.
record Grown (s s' : Ui) (fresh : Ptr) (room : Bool) : Type 0 where
  list : s'.button_list ≡ (if room then s.button_list ++ fresh ∷ [] else s.button_list)
  id : (p : Ptr) → (s'.button_at p).id ≡ (if p == fresh then s.widget_id else (s.button_at p).id)
  counter : s'.widget_id ≡ add32 s.widget_id 1

mem-grown :
    (p fresh : Ptr) (room : Bool) (list : List Ptr)
    → mem p (if room then list ++ fresh ∷ [] else list) ≡ true
    → (mem p list ≡ true) ⊎ (p ≡ fresh)
mem-grown p fresh true list m = ground (arith, mem-append p fresh list)
mem-grown p fresh false list m = inl m

module _ {s s' : Ui} (fresh : Ptr) (room : Bool) (g : Grown s s' fresh room) (h : HasIds s)
    (new : mem fresh s.button_list ≡ false) (small : s.widget_id + 1 < 2 ^ 32) where
  origin :
      (p : Ptr)
      → mem p s'.button_list ≡ true
      → ((mem p s.button_list ≡ true) × ((s'.button_at p).id ≡ (s.button_at p).id))
        ⊎ ((p ≡ fresh) × ((s'.button_at p).id ≡ s.widget_id))
  origin p m = elim (mem-grown p fresh room s.button_list (subst (λ l. mem p l ≡ true) g.list m)) [
    | inl old ↦
        inl (old, ground (arith, g.id p, new, ap (λ q. mem q s.button_list) {x = p} {y = fresh}))
    | inr e ↦ inr (e, ground (arith, g.id p))
  ]

  distinct : DistinctIds s'.button_list s'.button_at
  distinct p q mp mq e = elim (origin p mp) [
    | inl (op, ip) ↦ elim (origin q mq) [
      | inl (oq, iq) ↦ h.distinct p q op oq (sym ip ∙ e ∙ iq)
      | inr (fq, iq) ↦ absurd (omega (arith, h.below p op))
    ]
    | inr (fp, ip) ↦ elim (origin q mq) [
      | inl (oq, iq) ↦ absurd (omega (arith, h.below q oq))
      | inr (fq, iq) ↦ fp ∙ sym fq
    ]
  ]

  Grown-HasIds : HasIds s'
  Grown-HasIds = record {
    next = omega (arith, g.counter, h.next);
    positive = λ p m. elim (origin p m) [
      | inl (o, i) ↦ omega (arith, h.positive p o)
      | inr (f, i) ↦ omega (arith, h.next)
    ];
    below = λ p m. elim (origin p m) [
      | inl (o, i) ↦ omega (arith, h.below p o, g.counter)
      | inr (f, i) ↦ omega (arith, g.counter)
    ];
    distinct = distinct;
  }

init_button-Grown :
    (g : MinUi) (fresh : Ptr) (room : Bool) (rel prs : List ℕ) (x y : ℕ) (s : Ui)
    → Grown s (init_button g fresh room rel prs x y s) fresh room
unfolding init_button
init_button-Grown g fresh true rel prs x y s = record {
  list = refl;
  id = λ p. ground arith;
  counter = refl;
}
init_button-Grown g fresh false rel prs x y s = record {
  list = refl;
  id = λ p. ground arith;
  counter = refl;
}

init_default_button-Grown :
    (fresh : Ptr) (room : Bool) (x y w h rc pc : ℕ) (s : Ui)
    → Grown s (init_default_button fresh room x y w h rc pc s) fresh room
unfolding init_default_button
init_default_button-Grown fresh true x y w h rc pc s = record {
  list = refl;
  id = λ p. ground arith;
  counter = refl;
}
init_default_button-Grown fresh false x y w h rc pc s = record {
  list = refl;
  id = λ p. ground arith;
  counter = refl;
}

keyboard-HasIds :
    (g : MinUi) (fresh : Ptr) (room : Bool) (rel prs : List ℕ) (x y : ℕ) (s : Ui)
    → HasIds s
    → s.widget_id + 1 < 2 ^ 32
    → HasIds (init_keyboard g fresh room rel prs x y s)
unfolding init_keyboard
keyboard-HasIds g fresh true rel prs x y s h small = record {
  next = omega (arith, h.next);
  positive = h.positive;
  below = λ p m. omega (arith, h.below p m);
  distinct = h.distinct;
}
keyboard-HasIds g fresh false rel prs x y s h small = record {
  next = omega (arith, h.next);
  positive = h.positive;
  below = λ p m. omega (arith, h.below p m);
  distinct = h.distinct;
}

-- After init_param on an empty list the invariant holds.
pub init_param-HasIds : (g : MinUi) (s : Ui) → s.button_list ≡ [] → HasIds (init_param g s)
unfolding init_param
init_param-HasIds g s e = record {
  next = omega arith;
  positive = λ p m. absurd (none_listed p m);
  below = λ p m. absurd (none_listed p m);
  distinct = λ p q m _ _. absurd (none_listed p m);
}
  where
    none_listed : (p : Ptr) → mem p s.button_list ≡ true → ⊥
    none_listed p m = let m' : mem p [] ≡ true = subst (λ l. mem p l ≡ true) e m in cc

-- If the ids of the listed buttons are distinct, positive and below the counter, the new object is
-- not listed yet and the counter does not wrap, then this holds after init_button,
-- init_default_button and init_keyboard too, whether or not there is room for the list node.
pub init-HasIds :
    (g : MinUi) (fresh : Ptr) (room : Bool) (rel prs : List ℕ) (x y w h rc pc : ℕ) (s : Ui)
    → HasIds s
    → mem fresh s.button_list ≡ false
    → s.widget_id + 1 < 2 ^ 32
    → HasIds (init_button g fresh room rel prs x y s)
      × HasIds (init_default_button fresh room x y w h rc pc s)
      × HasIds (init_keyboard g fresh room rel prs x y s)
init-HasIds g fresh room rel prs x y w h rc pc s ids new small = (
  Grown-HasIds fresh room (init_button-Grown g fresh room rel prs x y s) ids new small,
  Grown-HasIds fresh room (init_default_button-Grown fresh room x y w h rc pc s) ids new small,
  keyboard-HasIds g fresh room rel prs x y s ids small,
)
