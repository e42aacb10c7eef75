-- ===== src/Book/Join.antt =====
-- src/elm/BookSide.cpp, `insertLevel`: an order opens a level or joins one.
use swirlyc.Common.{
  Bool-cases, ℤ, pos, ◌+ℤ◌, ◌<ℤ◌, ltb_ℤ, ◌≡◌, refl, sym, ap, ap₂, ◌∙◌, false, List, [], ◌∷◌, ◌++◌,
  All, All-append, All-append_left, All-append_right, arith, inl, inr, some, int_laws, parts_of_eq,
  length-append, ltb_ℤ→lt, zero_+ℤ, +ℤ_zero, +ℤ_assoc,
}
use swirlyc.Domain.{Side, compose_key, compose_key-injective}
use swirlyc.Order.{Addr, Cells, Order, modify, set_level}
use swirlyc.Book.Level.{Level, order_key, new_level, add_order}
use swirlyc.Book.Distinct.{NotIn}
use swirlyc.Book.Groups.{
  Group, members, orders_of, sum_resd, RestsAt, IsGroup, Above, Ascending, modify_self,
  modify-Agree, groups-Agree, IsGroup-Agree, Agree, rests-Agree, rests-level, sum_resd-Agree,
}
use swirlyc.Book.Insert.{insert_group, new_group, join_group}
use swirlyc.Book.Sorted.{Above-le}

sum_resd-append :
    (h : Cells) (xs ys : List Addr) → sum_resd h (xs ++ ys) ≡ sum_resd h xs +ℤ sum_resd h ys
sum_resd-append h [] ys = sym (zero_+ℤ _)
sum_resd-append h (x ∷ xs) ys =
    ap (◌+ℤ◌ (h x).resd) (sum_resd-append h xs ys) ∙ sym (+ℤ_assoc _ _ _)

same_key : (j k : ℤ) → ltb_ℤ j k ≡ false → ltb_ℤ k j ≡ false → k ≡ j
same_key j k p q = ground arith

module _ (h : Cells) (side : Side) (a : Addr) (side_eq : (h a).side ≡ side)
    (live : pos 0 <ℤ (h a).resd) where
  abbrev level_set : Cells
  level_set = modify a (set_level (some (order_key (h a)))) h

  rests_new :
      (l : Level) → l.key ≡ order_key (h a) → l.ticks ≡ (h a).ticks → RestsAt side l (level_set a)
  unfolding set_level
  rests_new l e t =
      rw (modify_self a (set_level (some (order_key (h a)))) h) (record {
        level_eq = ap some (sym e);
        side_eq = side_eq;
        ticks_eq = sym t;
        resd_pos = live;
      })

  resd_new : (level_set a).resd ≡ (h a).resd
  unfolding set_level
  resd_new = ap (λ (o : Order). o.resd) (modify_self a (set_level (some (order_key (h a)))) h)

  new_group-IsGroup : IsGroup level_set side (new_group a (h a))
  unfolding new_level
  new_group-IsGroup = record {
    key_eq = ap (λ s. compose_key s (h a).ticks) side_eq;
    rests = (rests_new _ refl refl, tt);
    resd_eq = sym (+ℤ_zero _ ∙ resd_new);
    count_eq = refl;
  }

  agree : (os : List Addr) → NotIn a os → Agree h level_set os
  agree os n = modify-Agree a _ h os n

  join_group-IsGroup :
      (g : Group)
      → NotIn a (members g)
      → g.level.key ≡ order_key (h a)
      → IsGroup h side g
      → IsGroup level_set side (join_group a (h a) g)
  unfolding add_order order_key
  join_group-IsGroup g n e v = record {
    key_eq = v.key_eq;
    rests =
        All-append _ (members g) (a ∷ [])
          (rests-Agree side (add_order (h a) g.level) h level_set (members g) (agree (members g) n)
            (rests-level side g.level (add_order (h a) g.level) h (members g) refl refl v.rests))
          (
            rests_new _ e (
                compose_key-injective side _ _
                  (sym v.key_eq ∙ e ∙ ap (λ s. compose_key s (h a).ticks) side_eq)),
            tt,
          );
    resd_eq =
        ap₂ ◌+ℤ◌ (v.resd_eq ∙ sym (sum_resd-Agree h level_set (members g) (agree (members g) n)))
          (sym (+ℤ_zero _ ∙ resd_new))
        ∙ sym (sum_resd-append level_set (members g) (a ∷ []));
    count_eq = omega (int_laws, parts_of_eq _ _ v.count_eq, length-append g.rest (a ∷ []));
  }

  pub insert_group-IsGroup :
      (gs : List Group)
      → NotIn a (orders_of gs)
      → All (IsGroup h side) gs
      → All (IsGroup level_set side) (insert_group a (h a) gs)
  unfolding insert_group
  insert_group-IsGroup [] n v = (new_group-IsGroup, tt)
  insert_group-IsGroup (g ∷ gs) n v =
      let here : NotIn a (members g) = All-append_left _ (members g) (orders_of gs) n in
      let later : NotIn a (orders_of gs) = All-append_right _ (members g) (orders_of gs) n in
      let kept : IsGroup level_set side g =
        IsGroup-Agree h level_set side g (agree (members g) here) v.0 in
      let kept_later : All (IsGroup level_set side) gs =
        groups-Agree h level_set side gs (agree (orders_of gs) later) v.1 in
      elim (Bool-cases (ltb_ℤ g.level.key (order_key (h a)))) [
        | inl below ↦ rw (below, insert_group) (kept, insert_group-IsGroup gs later v.1)
        | inr not_below ↦ elim (Bool-cases (ltb_ℤ (order_key (h a)) g.level.key)) [
          | inl above ↦ rw (not_below, above) (new_group-IsGroup, (kept, kept_later))
          | inr same ↦
              rw (not_below, same)
                (
                  join_group-IsGroup g here (same_key (order_key (h a)) g.level.key same not_below)
                      v.0,
                  kept_later,
                )
        ]
      ]

-- The groups stay in the order of their keys.
insert_group-Above :
    (k : ℤ) (a : Addr) (o : Order) (gs : List Group)
    → k <ℤ order_key o
    → Above k gs
    → Above k (insert_group a o gs)
unfolding insert_group new_level add_order
insert_group-Above k a o [] h up = (h, tt)
insert_group-Above k a o (g ∷ gs) h up = ground (arith, insert_group-Above k a o gs h up.1)

pub insert_group-Ascending :
    (a : Addr) (o : Order) (gs : List Group) → Ascending gs → Ascending (insert_group a o gs)
unfolding insert_group new_level add_order
insert_group-Ascending a o [] asc = (tt, tt)
insert_group-Ascending a o (g ∷ gs) asc = elim (Bool-cases (ltb_ℤ g.level.key (order_key o))) [
  | inl below ↦
      rw (below, insert_group)
        (
          insert_group-Above g.level.key a o gs (ltb_ℤ→lt g.level.key (order_key o) below) asc.0,
          insert_group-Ascending a o gs asc.1,
        )
  | inr not_below ↦ elim (Bool-cases (ltb_ℤ (order_key o) g.level.key)) [
    | inl above ↦
        let lt : order_key o <ℤ g.level.key = ltb_ℤ→lt (order_key o) g.level.key above in
        rw (not_below, above) ((lt, Above-le (order_key o) g.level.key gs (omega arith) asc.0), asc)
    | inr same ↦ rw (not_below, same) asc
  ]
]
