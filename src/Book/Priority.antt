-- ===== src/Book/Priority.antt =====
-- src/elm/BookSide.cpp, `insertOrder`: the levels lead to the place that price-time priority asks
-- for, and the side's invariant is kept.
use swirlyc.Common.{pos, ◌<ℤ◌, ◌≡◌, sym, ap, ap₂, ◌∙◌, subst}
use swirlyc.Domain.{Side}
use swirlyc.Order.{Addr, Cells}
use swirlyc.Book.Level.{Placed, insert_level}
use swirlyc.Book.Side.{BookSide, insert_order, place}
use swirlyc.Book.Distinct.{NotIn, Distinct}
use swirlyc.Book.Groups.{levels_of, orders_of, IsSide}
use swirlyc.Book.Insert.{insert_group, groups_after, insert_level-groups, orders-insert_group}
use swirlyc.Book.Sorted.{insert_sorted, insert_sorted-groups, insert_sorted-Distinct}
use swirlyc.Book.Join.{insert_group-IsGroup, insert_group-Ascending}

-- The new level set, and the place in the order list.
insert_order-levels :
    (h : Cells) (side : Side) (a : Addr) (s : BookSide) (v : IsSide h side s)
    → insert_level a (h a) s.levels ≡ record {
      levels = levels_of (insert_group a (h a) v.groups);
      next = levels_of (groups_after a (h a) v.groups);
    }
insert_order-levels h side a s v =
    ap (insert_level a (h a)) v.levels_eq ∙ insert_level-groups a (h a) v.groups

insert_order-orders :
    (h : Cells) (side : Side) (a : Addr) (s : BookSide) (v : IsSide h side s)
    → place a (insert_level a (h a) s.levels).next s.orders
      ≡ orders_of (insert_group a (h a) v.groups)
insert_order-orders h side a s v =
    ap₂ (place a) (ap (λ (p : Placed). p.next) (insert_order-levels h side a s v)) v.orders_eq
    ∙ orders-insert_group a (h a) v.groups v.grouped.distinct

-- The order list after an insertion into a side that meets its invariant: the new order stands
-- behind every order whose price is as good or better, and before every other one.
pub insert_order-sorted :
    (h : Cells) (side : Side) (a : Addr) (s : BookSide)
    → IsSide h side s
    → (insert_order a (s, h)).0.orders ≡ insert_sorted h a s.orders
unfolding insert_order
insert_order-sorted h side a s v =
    insert_order-orders h side a s v
    ∙ sym (insert_sorted-groups h side a v.groups v.grouped.groups v.grouped.ascending)
    ∙ ap (insert_sorted h a) (sym v.orders_eq)

-- Inserting a live order of the right side, which does not rest in the side yet, keeps the side's
-- invariant.
pub insert_order-IsSide :
    (h : Cells) (side : Side) (a : Addr) (s : BookSide)
    → (h a).side ≡ side
    → pos 0 <ℤ (h a).resd
    → NotIn a s.orders
    → IsSide h side s
    → IsSide (insert_order a (s, h)).1 side (insert_order a (s, h)).0
unfolding insert_order
insert_order-IsSide h side a s e live n v =
    let fresh : NotIn a (orders_of v.groups) = subst (NotIn a) v.orders_eq n in
    record {
      groups = insert_group a (h a) v.groups;
      levels_eq = ap (λ (p : Placed). p.levels) (insert_order-levels h side a s v);
      orders_eq = insert_order-orders h side a s v;
      grouped = record {
        groups = insert_group-IsGroup h side a e live v.groups fresh v.grouped.groups;
        ascending = insert_group-Ascending a (h a) v.groups v.grouped.ascending;
        distinct =
            subst Distinct
              (insert_sorted-groups h side a v.groups v.grouped.groups v.grouped.ascending)
              (insert_sorted-Distinct h a (orders_of v.groups) fresh v.grouped.distinct);
      };
    }
