-- ===== src/Book/Remove.antt =====
-- src/elm/BookSide.cpp, `removeOrder`: an order leaves its level and the order list; an empty level
-- goes, and a level that loses its first order takes the next one.
use swirlyc.Common.{
  suc, ◌==◌, eq_of_==, Bool-cases, ℤ, pos, ◌+ℤ◌, ◌-ℤ◌, eqb_ℤ, eqb_ℤ_of_eq, ne_of_lt_ℤ, ◌≡◌, refl,
  sym, ap, ◌∙◌, true, List, [], ◌∷◌, All, All-append, length, inl, inr, some, int_laws, parts_of_eq,
  subst, +ℤ_left_comm,
}
use swirlyc.Domain.{Side}
use swirlyc.Order.{Addr, Cells, Order, modify}
use swirlyc.Book.Level.{sub_order, set_first_order, modify_level}
use swirlyc.Book.Side.{BookSide, remove, settle, leave_level}
use swirlyc.Book.Distinct.{
  NotIn, Distinct, has, NotIn-of_has, has-append_right, All-remove, Distinct-remove, NotIn-remove,
  length-remove, Distinct-right, Distinct-left, NotIn-later,
}
use swirlyc.Book.Groups.{
  Group, members, orders_of, sum_resd, RestsAt, IsGroup, Above, Ascending, IsSide, IsGroup-Agree,
  modify-Agree, groups-Agree, rests-Agree, rests-level, sum_resd-Agree,
}
use swirlyc.Book.Leave.{
  group_of, group_of-Above, group_of-Ascending, leave_group, key_of_member, key_of_later,
  modify_level-leave, remove-leave,
}

pub sum_resd-remove :
    (h : Cells) (a : Addr) (os : List Addr)
    → has a os ≡ true
    → sum_resd h os ≡ (h a).resd +ℤ sum_resd h (remove a os)
unfolding has remove
sum_resd-remove h a [] m = cc
sum_resd-remove h a (b ∷ os) m = elim (Bool-cases (a == b)) [
  | inl same ↦ rw (same, remove) (ap (λ c. (h c).resd +ℤ sum_resd h os) (sym (eq_of_== a b same)))
  | inr other ↦
      rw (other, remove)
        (ap (◌+ℤ◌ (h b).resd) (sum_resd-remove h a os (sym (rw other refl) ∙ m))
          ∙ +ℤ_left_comm (h b).resd (h a).resd (sum_resd h (remove a os)))
]

sub_of_add : (x y z : ℤ) → y ≡ x +ℤ z → y -ℤ x ≡ z
sub_of_add x y z e = omega (int_laws, parts_of_eq _ _ e)

-- The members that stay make a group, also after the order that left is written to.
module _ (h : Cells) (side : Side) (a : Addr) (f : Order → Order) where
  abbrev left : Cells
  left = modify a f h

  group_of-IsGroup :
      (g : Group) (os : List Addr)
      → NotIn a os
      → All (λ b. RestsAt side g.level (h b)) os
      → g.level.resd ≡ (h a).resd +ℤ sum_resd h os
      → g.level.count ≡ pos (suc (length os))
      → IsGroup h side g
      → All (IsGroup left side) (group_of (sub_order (h a) g.level) os)
  unfolding group_of set_first_order sub_order
  group_of-IsGroup g [] n r s c v = tt
  group_of-IsGroup g (b ∷ os) n r s c v = (
    record {
      key_eq = v.key_eq;
      rests =
          rests-Agree side _ h left (b ∷ os) (modify-Agree a f h (b ∷ os) n)
            (rests-level side g.level _ h (b ∷ os) refl refl r);
      resd_eq =
          sub_of_add (h a).resd g.level.resd _ s
          ∙ sym (sum_resd-Agree h left (b ∷ os) (modify-Agree a f h (b ∷ os) n));
      count_eq = omega (int_laws, parts_of_eq _ _ c);
    },
    tt,
  )

  leave_group-IsGroup :
      (k : ℤ) (gs : List Group)
      → Distinct (orders_of gs)
      → has a (orders_of gs) ≡ true
      → (h a).level ≡ some k
      → All (IsGroup h side) gs
      → Ascending gs
      → All (IsGroup left side) (leave_group k a (h a) gs)
  unfolding leave_group
  leave_group-IsGroup k [] d m p v asc = tt
  leave_group-IsGroup k (g ∷ gs) d m p v asc = elim (Bool-cases (has a (members g))) [
    | inl here ↦
        let later : NotIn a (orders_of gs) = NotIn-later a (members g) (orders_of gs) d here in
        rw (eqb_ℤ_of_eq g.level.key k (key_of_member h side a k g v.0 here p)) (
          All-append _ _ gs
            (group_of-IsGroup g (remove a (members g))
              (NotIn-remove a (members g) (Distinct-left (members g) (orders_of gs) d))
              (All-remove _ a (members g) v.0.rests)
              (v.0.resd_eq ∙ sum_resd-remove h a (members g) here)
              (v.0.count_eq ∙ ap pos (length-remove a (members g) here)) v.0)
            (groups-Agree h left side gs (modify-Agree a f h (orders_of gs) later) v.1))
    | inr later ↦
        let m' : has a (orders_of gs) ≡ true =
          has-append_right a (members g) (orders_of gs) m later in
        rw (ne_of_lt_ℤ g.level.key k (key_of_later h side a g.level.key k gs v.1 asc.0 m' p)) (
          IsGroup-Agree h left side g
              (modify-Agree a f h (members g) (NotIn-of_has a (members g) later)) v.0,
          leave_group-IsGroup k gs (Distinct-right (members g) (orders_of gs) d) m' p v.1 asc.1,
        )
  ]

leave_group-Above :
    (j k : ℤ) (a : Addr) (o : Order) (gs : List Group) → Above j gs → Above j (leave_group k a o gs)
unfolding leave_group sub_order
leave_group-Above j k a o [] up = tt
leave_group-Above j k a o (g ∷ gs) up = elim (Bool-cases (eqb_ℤ g.level.key k)) [
  | inl hit ↦
      rw (hit, leave_group)
        (All-append _ _ gs (group_of-Above j (sub_order o g.level) (remove a (members g)) up.0)
          up.1)
  | inr miss ↦ rw (miss, leave_group) (up.0, leave_group-Above j k a o gs up.1)
]

leave_group-Ascending :
    (k : ℤ) (a : Addr) (o : Order) (gs : List Group)
    → Ascending gs
    → Ascending (leave_group k a o gs)
unfolding leave_group sub_order
leave_group-Ascending k a o [] asc = tt
leave_group-Ascending k a o (g ∷ gs) asc = elim (Bool-cases (eqb_ℤ g.level.key k)) [
  | inl hit ↦
      rw (hit, leave_group)
        (group_of-Ascending (sub_order o g.level) (remove a (members g)) gs asc.0 asc.1)
  | inr miss ↦
      rw (miss, leave_group)
        (leave_group-Above g.level.key k a o gs asc.0, leave_group-Ascending k a o gs asc.1)
]

-- Leaving a level keeps the side's invariant, whatever is written to the order that left; the other
-- orders keep their places.
pub leave_level-IsSide :
    (h : Cells) (side : Side) (a : Addr) (k : ℤ) (f : Order → Order) (s : BookSide)
    → has a s.orders ≡ true
    → (h a).level ≡ some k
    → IsSide h side s
    → IsSide (modify a f h) side (leave_level k a (s, h)).0
unfolding leave_level
leave_level-IsSide h side a k f s m p v =
    let m' : has a (orders_of v.groups) ≡ true = sym (ap (has a) v.orders_eq) ∙ m in
    let gr = v.grouped in
    record {
      groups = leave_group k a (h a) v.groups;
      levels_eq =
          ap (modify_level k (λ l. settle a s.orders (sub_order (h a) l))) v.levels_eq
          ∙ modify_level-leave h side a k v.groups s.orders [] v.orders_eq tt m' p gr.groups
              gr.ascending;
      orders_eq =
          ap (remove a) v.orders_eq ∙ remove-leave h side a k v.groups m' p gr.groups gr.ascending;
      grouped = record {
        groups = leave_group-IsGroup h side a f k v.groups gr.distinct m' p gr.groups gr.ascending;
        ascending = leave_group-Ascending k a (h a) v.groups gr.ascending;
        distinct =
            subst Distinct (remove-leave h side a k v.groups m' p gr.groups gr.ascending)
              (Distinct-remove a (orders_of v.groups) gr.distinct);
      };
    }
