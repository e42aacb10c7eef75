-- ===== src/Book/Reduce.antt =====
-- include/swirly/elm/BookSide.hpp and src/elm/BookSide.cpp: taking, revising, cancelling and removing
-- an order that rests in a side.
use swirlyc.Common.{
  Bool-cases, ℤ, ◌-ℤ◌, ◌<ℤ◌, ltb_ℤ, ltb_ℤ→lt, ◌≡◌, refl, sym, ap, ◌∙◌, true, List, [], ◌∷◌, All,
  inl, inr, some, none, subst, if◌then◌else◌,
}
use swirlyc.Domain.{Side, Lots, Millis}
use swirlyc.Order.{Addr, Cells, Order, modify, set_level, revise, cancel, trade}
use swirlyc.Book.Level.{reduce, modify_level}
use swirlyc.Book.Side.{
  BookSide, remove, leave_level, reduce_level, at_level, update_order, remove_order, revise_order,
  cancel_order, take_order,
}
use swirlyc.Book.Distinct.{Distinct, has, has-append_right, All-has}
use swirlyc.Book.Groups.{Group, members, orders_of, IsGroup, IsSide, modify_self}
use swirlyc.Book.Remove.{leave_level-IsSide}
use swirlyc.Book.Cut.{
  modify-modify, cut_group, modify_level-cut, orders_of-cut, cut_group-Ascending, Cuts, trade-Cuts,
  revise-Cuts, cut_group-IsGroup,
}

-- Where an order with delta lots or less left leaves the book, and any other stays.
abbrev pub orders_left : Addr → Lots → Order → List Addr → List Addr
orders_left a delta o os = if ltb_ℤ delta o.resd then os else remove a os

-- The order is in the side, so its pointer is set.
level_of_rests :
    (h : Cells) (side : Side) (a : Addr) (gs : List Group)
    → All (IsGroup h side) gs
    → has a (orders_of gs) ≡ true
    → (k : ℤ) × ((h a).level ≡ some k)
unfolding has
level_of_rests h side a [] v m = cc
level_of_rests h side a (g ∷ gs) v m = elim (Bool-cases (has a (members g))) [
  | inl here ↦ (g.level.key, (All-has _ a (members g) v.0.rests here).level_eq)
  | inr later ↦
      level_of_rests h side a gs v.1 (has-append_right a (members g) (orders_of gs) m later)
]

stays-IsSide :
    (h : Cells) (side : Side) (a : Addr) (f : Order → Order) (delta : Lots) (k : ℤ) (s : BookSide)
    → Cuts delta (h a) (f (h a))
    → delta <ℤ (h a).resd
    → has a s.orders ≡ true
    → (h a).level ≡ some k
    → IsSide h side s
    → IsSide
        (modify a f h)
        side
        (record s { levels = modify_level k (λ l. reduce delta l ∷ []) s.levels })
stays-IsSide h side a f delta k s c lt m p v =
    let m' : has a (orders_of v.groups) ≡ true = sym (ap (has a) v.orders_eq) ∙ m in
    let gr = v.grouped in
    record {
      groups = cut_group k delta v.groups;
      levels_eq =
          ap (modify_level k (λ l. reduce delta l ∷ [])) v.levels_eq
          ∙ modify_level-cut k delta v.groups;
      orders_eq = v.orders_eq ∙ sym (orders_of-cut k delta v.groups);
      grouped = record {
        groups =
            cut_group-IsGroup h side a f delta c lt k v.groups gr.distinct m' p gr.groups
              gr.ascending;
        ascending = cut_group-Ascending k delta v.groups gr.ascending;
        distinct = subst Distinct (sym (orders_of-cut k delta v.groups)) gr.distinct;
      };
    }

-- A reduction of the level, and the order's own update.
reduced-IsSide :
    (h : Cells) (side : Side) (a : Addr) (f : Order → Order) (delta : Lots) (k : ℤ) (s : BookSide)
    → Cuts delta (h a) (f (h a))
    → has a s.orders ≡ true
    → (h a).level ≡ some k
    → IsSide h side s
    → let r = update_order a f (reduce_level k a delta (s, h)) in
      IsSide r.1 side r.0 × (r.0.orders ≡ orders_left a delta (h a) s.orders)
unfolding update_order reduce_level leave_level
reduced-IsSide h side a f delta k s c m p v = elim (Bool-cases (ltb_ℤ delta (h a).resd)) [
  | inl more ↦
      rw (more, reduce_level)
        (stays-IsSide h side a f delta k s c (ltb_ℤ→lt delta (h a).resd more) m p v, refl)
  | inr all ↦
      rw (all, reduce_level)
        (
          subst (λ h'. IsSide h' side (leave_level k a (s, h)).0)
              (sym (modify-modify a f (set_level none) h))
              (leave_level-IsSide h side a k (λ o. f (set_level none o)) s m p v),
          refl,
        )
]

-- Every operation on a side that meets its invariant, with an order that rests in it, keeps the
-- invariant; each is stated with the order list that it leaves.
module _ (h : Cells) (side : Side) (a : Addr) (s : BookSide) (m : has a s.orders ≡ true)
    (v : IsSide h side s) where
  pointer : (k : ℤ) × ((h a).level ≡ some k)
  pointer = level_of_rests h side a v.groups v.grouped.groups (sym (ap (has a) v.orders_eq) ∙ m)

  -- Taking lots off a resting order keeps the side's invariant. The order leaves the order list
  -- when no more than these lots were left of it, and nothing else moves.
  pub take_order-IsSide :
      (lots : Lots) (now : Millis)
      → let r = take_order a lots now (s, h) in
        IsSide r.1 side r.0 × (r.0.orders ≡ orders_left a lots (h a) s.orders)
  unfolding take_order at_level
  take_order-IsSide lots now =
      rw (pointer.1, at_level)
        (reduced-IsSide h side a (λ o. trade lots o.ticks now o) lots pointer.0 s
          (trade-Cuts lots now (h a)) m pointer.1 v)

  -- Revising the lots of a resting order keeps the side's invariant. The order leaves the order
  -- list when nothing is left of it, and keeps its place in the queue otherwise.
  pub revise_order-IsSide :
      (lots : Lots) (now : Millis)
      → let r = revise_order a lots now (s, h) in
        IsSide r.1 side r.0 × (r.0.orders ≡ orders_left a ((h a).lots -ℤ lots) (h a) s.orders)
  unfolding revise_order at_level
  revise_order-IsSide lots now =
      rw (pointer.1, at_level)
        (reduced-IsSide h side a (revise lots now) ((h a).lots -ℤ lots) pointer.0 s
          (revise-Cuts lots now (h a)) m pointer.1 v)

  -- Cancelling a resting order keeps the side's invariant, and takes the order out of the list.
  pub cancel_order-IsSide :
      (now : Millis)
      → let r = cancel_order a now (s, h) in IsSide r.1 side r.0 × (r.0.orders ≡ remove a s.orders)
  unfolding cancel_order at_level update_order leave_level
  cancel_order-IsSide now =
      rw (pointer.1, at_level)
        (
          subst (λ h'. IsSide h' side (leave_level pointer.0 a (s, h)).0)
              (sym (modify-modify a (cancel now) (set_level none) h))
              (leave_level-IsSide h side a pointer.0 (λ o. cancel now (set_level none o)) s m
                pointer.1 v),
          refl,
        )

  -- So does removing it, which leaves the order's quantities alone.
  pub remove_order-IsSide :
      let r = remove_order a (s, h) in
      IsSide r.1 side r.0 × (r.0.orders ≡ remove a s.orders) × ((r.1 a).resd ≡ (h a).resd)
  unfolding remove_order at_level leave_level set_level
  remove_order-IsSide =
      rw (pointer.1, at_level)
        (leave_level-IsSide h side a pointer.0 (set_level none) s m pointer.1 v, refl, resd_kept)
    where
      resd_kept : (modify a (set_level none) h a).resd ≡ (h a).resd
      resd_kept = ap (λ (o : Order). o.resd) (modify_self a (set_level none) h)
