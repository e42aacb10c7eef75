-- ===== src/Book/Cut.antt =====
-- src/elm/BookSide.cpp, `reduceLevel`: a level is reduced by what its order loses.
use mathlib.Core.Path.{fun_ext}
use swirlyc.Common.{
  ◌==◌, eq_of_==, Bool-cases, ℤ, ◌+ℤ◌, ◌-ℤ◌, ◌<ℤ◌, eqb_ℤ, eqb_ℤ_of_eq, ne_of_lt_ℤ, ◌≡◌, refl, sym,
  ap, ap₂, ◌∙◌, true, List, [], ◌∷◌, ◌++◌, All, All-map, arith, inl, inr, some, int_laws,
  parts_of_eq, subst, if◌then◌else◌,
}
use swirlyc.Domain.{Side, Lots, Millis}
use swirlyc.Order.{Addr, Cells, Order, modify, revise, trade}
use swirlyc.Book.Level.{Level, reduce, modify_level}
use swirlyc.Book.Side.{remove}
use swirlyc.Book.Distinct.{
  NotIn, Distinct, has, NotIn-of_has, has-append_right, NotIn-remove, Distinct-left, Distinct-right,
  NotIn-later,
}
use swirlyc.Book.Groups.{
  Group, members, levels_of, orders_of, sum_resd, RestsAt, IsGroup, Above, Ascending, IsGroup-Agree,
  modify-Agree, groups-Agree, sum_resd-Agree, modify_self, modify_ne, rests-level,
}
use swirlyc.Book.Leave.{key_of_member, key_of_later}
use swirlyc.Book.Remove.{sum_resd-remove}

pub modify-modify :
    (a : Addr) (f g : Order → Order) (h : Cells)
    → modify a f (modify a g h) ≡ modify a (λ o. f (g o)) h
unfolding modify
modify-modify a f g h = fun_ext λ b. ground arith

pub cut_group : ℤ → Lots → List Group → List Group
cut_group k delta [] = []
cut_group k delta (g ∷ gs) =
    if eqb_ℤ g.level.key k
    then record { level = reduce delta g.level; rest = g.rest } ∷ gs
    else g ∷ cut_group k delta gs

pub modify_level-cut :
    (k : ℤ) (delta : Lots) (gs : List Group)
    → modify_level k (λ l. reduce delta l ∷ []) (levels_of gs) ≡ levels_of (cut_group k delta gs)
unfolding modify_level cut_group
modify_level-cut k delta [] = refl
modify_level-cut k delta (g ∷ gs) = ground (arith, modify_level-cut k delta gs)

pub orders_of-cut :
    (k : ℤ) (delta : Lots) (gs : List Group) → orders_of (cut_group k delta gs) ≡ orders_of gs
unfolding cut_group reduce
orders_of-cut k delta [] = refl
orders_of-cut k delta (g ∷ gs) = elim (Bool-cases (eqb_ℤ g.level.key k)) [
  | inl hit ↦ rw (hit, cut_group)
  | inr miss ↦ rw (miss, cut_group) (ap (◌++◌ (members g)) (orders_of-cut k delta gs))
]

cut_group-Above :
    (j k : ℤ) (delta : Lots) (gs : List Group) → Above j gs → Above j (cut_group k delta gs)
unfolding cut_group reduce
cut_group-Above j k delta [] up = tt
cut_group-Above j k delta (g ∷ gs) up = elim (Bool-cases (eqb_ℤ g.level.key k)) [
  | inl hit ↦ rw (hit, cut_group) up
  | inr miss ↦ rw (miss, cut_group) (up.0, cut_group-Above j k delta gs up.1)
]

pub cut_group-Ascending :
    (k : ℤ) (delta : Lots) (gs : List Group) → Ascending gs → Ascending (cut_group k delta gs)
unfolding cut_group reduce
cut_group-Ascending k delta [] asc = tt
cut_group-Ascending k delta (g ∷ gs) asc = elim (Bool-cases (eqb_ℤ g.level.key k)) [
  | inl hit ↦ rw (hit, cut_group) asc
  | inr miss ↦
      rw (miss, cut_group)
        (cut_group-Above g.level.key k delta gs asc.0, cut_group-Ascending k delta gs asc.1)
]

-- What an operation that takes delta lots off an order does to it.
pub record Cuts (delta : Lots) (o o' : Order) : Type 0 where
  pub level_kept : o'.level ≡ o.level
  pub side_kept : o'.side ≡ o.side
  pub ticks_kept : o'.ticks ≡ o.ticks
  pub resd_cut : o'.resd ≡ o.resd -ℤ delta

pub trade-Cuts : (lots : Lots) (now : Millis) (o : Order) → Cuts lots o (trade lots o.ticks now o)
unfolding trade
trade-Cuts lots now o = record {
  level_kept = refl;
  side_kept = refl;
  ticks_kept = refl;
  resd_cut = refl;
}

pub revise-Cuts :
    (lots : Lots) (now : Millis) (o : Order) → Cuts (o.lots -ℤ lots) o (revise lots now o)
unfolding revise
revise-Cuts lots now o = record {
  level_kept = refl;
  side_kept = refl;
  ticks_kept = refl;
  resd_cut = refl;
}

sub_left : (x y z : ℤ) → x -ℤ y +ℤ z ≡ x +ℤ z -ℤ y
sub_left x y z = omega int_laws

module _ (h : Cells) (side : Side) (a : Addr) (f : Order → Order) (delta : Lots)
    (cuts : Cuts delta (h a) (f (h a))) (rest_pos : delta <ℤ (h a).resd) where
  abbrev cut : Cells
  cut = modify a f h

  rests_self : (l : Level) → RestsAt side l (h a) → RestsAt side l (cut a)
  rests_self l r = subst (RestsAt side l) (sym (modify_self a f h)) (record {
    level_eq = cuts.level_kept ∙ r.level_eq;
    side_eq = cuts.side_kept ∙ r.side_eq;
    ticks_eq = cuts.ticks_kept ∙ r.ticks_eq;
    resd_pos = omega (int_laws, parts_of_eq _ _ cuts.resd_cut);
  })

  rests-cut : (l : Level) (b : Addr) → RestsAt side l (h b) → RestsAt side l (cut b)
  rests-cut l b r = elim (Bool-cases (a == b)) [
    | inl same ↦
        subst (λ c. RestsAt side l (h c) → RestsAt side l (cut c)) (eq_of_== a b same)
          (rests_self l) r
    | inr other ↦ subst (RestsAt side l) (sym (modify_ne a b f h other)) r
  ]

  sum_resd-cut :
      (os : List Addr) → has a os ≡ true → Distinct os → sum_resd cut os ≡ sum_resd h os -ℤ delta
  sum_resd-cut os m d =
      sum_resd-remove cut a os m
      ∙ ap₂ ◌+ℤ◌ (ap (λ (o : Order). o.resd) (modify_self a f h) ∙ cuts.resd_cut) (
          sum_resd-Agree h cut (remove a os)
            (modify-Agree a f h (remove a os) (NotIn-remove a os d)))
      ∙ sub_left (h a).resd delta (sum_resd h (remove a os))
      ∙ ap (λ r. r -ℤ delta) (sym (sum_resd-remove h a os m))

  pub cut_group-IsGroup :
      (k : ℤ) (gs : List Group)
      → Distinct (orders_of gs)
      → has a (orders_of gs) ≡ true
      → (h a).level ≡ some k
      → All (IsGroup h side) gs
      → Ascending gs
      → All (IsGroup cut side) (cut_group k delta gs)
  unfolding cut_group reduce
  cut_group-IsGroup k [] d m p v asc = tt
  cut_group-IsGroup k (g ∷ gs) d m p v asc = elim (Bool-cases (has a (members g))) [
    | inl here ↦
        let later : NotIn a (orders_of gs) = NotIn-later a (members g) (orders_of gs) d here in
        rw (eqb_ℤ_of_eq g.level.key k (key_of_member h side a k g v.0 here p)) (
          record {
            key_eq = v.0.key_eq;
            rests =
                rests-level side g.level _ cut (members g) refl refl
                  (All-map _ _ (members g) (rests-cut g.level) v.0.rests);
            resd_eq =
                ap (λ r. r -ℤ delta) v.0.resd_eq
                ∙ sym (sum_resd-cut (members g) here (Distinct-left (members g) (orders_of gs) d));
            count_eq = v.0.count_eq;
          },
          groups-Agree h cut side gs (modify-Agree a f h (orders_of gs) later) v.1,
        )
    | inr later ↦
        let m' : has a (orders_of gs) ≡ true =
          has-append_right a (members g) (orders_of gs) m later in
        rw (ne_of_lt_ℤ g.level.key k (key_of_later h side a g.level.key k gs v.1 asc.0 m' p)) (
          IsGroup-Agree h cut side g
              (modify-Agree a f h (members g) (NotIn-of_has a (members g) later)) v.0,
          cut_group-IsGroup k gs (Distinct-right (members g) (orders_of gs) d) m' p v.1 asc.1,
        )
  ]
