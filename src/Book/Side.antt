-- ===== src/Book/Side.antt =====
-- include/swirly/elm/BookSide.hpp, src/elm/BookSide.cpp and the order list of
-- include/swirly/elm/Order.hpp: one side of the book. A side's operations also write to the orders,
-- so they take and return the cells of the store. The asserts are preconditions; the book's
-- invariant and the hypotheses of the theorems state them.
use swirlyc.Common.{
  ◌==◌, if◌then◌else◌, ℤ, pos, eqb_ℤ, ltb_ℤ, ◌-ℤ◌, List, [], ◌∷◌, ◌++◌, some, none,
}
use swirlyc.Domain.{Lots, Millis}
use swirlyc.Order.{Addr, Cells, Order, modify, set_level, create, revise, cancel, trade}
use swirlyc.Book.Level.{
  Level, order_key, set_first_order, reduce, sub_order, insert_level, modify_level,
}

pub record BookSide : Type 0 where
  pub levels : List Level
  pub orders : List Addr

-- `OrderList::insertBack`.
unfoldable pub insert_back : Addr → List Addr → List Addr
insert_back a os = os ++ a ∷ []

-- `OrderList::insertBefore`.
unfoldable pub insert_before : Addr → Addr → List Addr → List Addr
insert_before a next [] = []
insert_before a next (b ∷ os) = if next == b then a ∷ b ∷ os else b ∷ insert_before a next os

-- `OrderList::remove`.
unfoldable pub remove : Addr → List Addr → List Addr
remove a [] = []
remove a (b ∷ os) = if a == b then os else b ∷ remove a os

-- The order behind a in the list. Where there is none, the iterator is the end, which must not be
-- read: a itself stands for that.
unfoldable pub next_order : Addr → List Addr → Addr
next_order a [] = a
next_order a (b ∷ []) = a
next_order a (b ∷ c ∷ os) = if a == b then c else next_order a (c ∷ os)

-- Before the first order of the next level, or at the end.
unfoldable pub place : Addr → List Level → List Addr → List Addr
unfolding insert_back insert_before
place a [] os = insert_back a os
place a (l ∷ ls) os = insert_before a l.first_order os

unfoldable pub insert_order : Addr → BookSide × Cells → BookSide × Cells
unfolding insert_level place set_level modify
insert_order a (s, h) =
    let placed = insert_level a (h a) s.levels in
    (
      record { levels = placed.levels; orders = place a placed.next s.orders },
      modify a (set_level (some (order_key (h a)))) h,
    )

-- What is left of a level when the order at a leaves it.
unfoldable pub settle : Addr → List Addr → Level → List Level
settle a os l =
    if eqb_ℤ l.count (pos 0)
    then []
    else if l.first_order == a
    then set_first_order (next_order a os) l ∷ []
    else l ∷ []

-- `removeOrder(Level&, const Order&)`.
unfoldable pub leave_level : ℤ → Addr → BookSide × Cells → BookSide × Cells
unfolding settle modify_level remove set_level modify
leave_level k a (s, h) = (
  record {
    levels = modify_level k (λ l. settle a s.orders (sub_order (h a) l)) s.levels;
    orders = remove a s.orders;
  },
  modify a (set_level none) h,
)

unfoldable pub reduce_level : ℤ → Addr → Lots → BookSide × Cells → BookSide × Cells
unfolding leave_level modify_level
reduce_level k a delta (s, h) =
    if ltb_ℤ delta (h a).resd
    then (record s { levels = modify_level k (λ l. reduce delta l ∷ []) s.levels }, h)
    else leave_level k a (s, h)

-- The call on the order's level, if it has one.
unfoldable pub at_level :
    Addr → (ℤ → BookSide × Cells → BookSide × Cells) → BookSide × Cells → BookSide × Cells
at_level a f (s, h) = elim ((h a).level) [ none ↦ (s, h) | some k ↦ f k (s, h) ]

-- Write to an order only.
unfoldable pub update_order : Addr → (Order → Order) → BookSide × Cells → BookSide × Cells
unfolding modify
update_order a f (s, h) = (s, modify a f h)

unfoldable pub remove_order : Addr → BookSide × Cells → BookSide × Cells
unfolding at_level leave_level
remove_order a sh = at_level a (λ k. leave_level k a) sh

unfoldable pub create_order : Addr → Millis → BookSide × Cells → BookSide × Cells
unfolding insert_order update_order
create_order a now sh = insert_order a (update_order a (create now) sh)

unfoldable pub revise_order : Addr → Lots → Millis → BookSide × Cells → BookSide × Cells
unfolding at_level reduce_level update_order
revise_order a lots now sh =
    update_order a (revise lots now) (at_level a (λ k. reduce_level k a ((sh.1 a).lots -ℤ lots)) sh)

unfoldable pub cancel_order : Addr → Millis → BookSide × Cells → BookSide × Cells
unfolding at_level leave_level update_order
cancel_order a now sh = update_order a (cancel now) (at_level a (λ k. leave_level k a) sh)

-- The order's price is constant, so it may be read before the level is reduced.
unfoldable pub take_order : Addr → Lots → Millis → BookSide × Cells → BookSide × Cells
unfolding at_level reduce_level update_order
take_order a lots now sh =
    update_order a (λ o. trade lots o.ticks now o) (at_level a (λ k. reduce_level k a lots) sh)
