-- ===== src/Book/Whole.antt =====
-- include/swirly/elm/MarketBook.hpp: the invariant of a whole book. An operation on an order of one
-- side leaves the other side alone, since no order of the other side is at the same address.
use swirlyc.Common.{
  Bool-cases, pos, ◌<ℤ◌, ◌≡◌, ◌≢◌, refl, sym, ap, ◌∙◌, true, List, [], ◌∷◌, All, All-map,
  All-append, inl, inr, subst,
}
use swirlyc.Domain.{Side, Lots, Ticks, Millis}
use swirlyc.Order.{Addr, Cells}
use swirlyc.Book.Side
use swirlyc.Book.Side.{BookSide, remove}
use swirlyc.Book.Distinct.{NotIn, has, NotIn-of_has, All-has}
use swirlyc.Book.Groups.{Group, members, orders_of, IsGroup, IsSide, groups-Agree, Agree}
use swirlyc.Book.Frame.{
  SameElse, KeepsTicks, insert_order-SameElse, take_order-SameElse, remove_order-SameElse,
  insert_order-KeepsTicks, take_order-KeepsTicks, remove_order-KeepsTicks,
}
use swirlyc.Book.Sorted.{insert_sorted}
use swirlyc.Book.Priority.{insert_order-IsSide, insert_order-sorted}
use swirlyc.Book.Reduce.{orders_left, take_order-IsSide, remove_order-IsSide}
use swirlyc.Book.Market.{
  MarketBook, side, set_side, on_side, insert_order, remove_order, take_order, set_last,
}

pub record IsBook (h : Cells) (b : MarketBook) : Type 0 where
  pub bids : IsSide h Side.buy b.bid_side
  pub offers : IsSide h Side.sell b.offer_side

pub IsBook-side : (h : Cells) (b : MarketBook) (d : Side) → IsBook h b → IsSide h d (side d b)
unfolding side
IsBook-side h b Side.buy v = v.bids
IsBook-side h b Side.sell v = v.offers

-- What is known of every resting order.
pub record Rests (h : Cells) (d : Side) (a : Addr) : Type 0 where
  pub rests_side : (h a).side ≡ d
  pub rests_live : pos 0 <ℤ (h a).resd

groups-Rests :
    (h : Cells) (d : Side) (gs : List Group) → All (IsGroup h d) gs → All (Rests h d) (orders_of gs)
groups-Rests h d [] v = tt
groups-Rests h d (g ∷ gs) v =
    All-append _ (members g) (orders_of gs)
      (All-map _ _ (members g) (λ a r. record { rests_side = r.side_eq; rests_live = r.resd_pos })
        v.0.rests)
      (groups-Rests h d gs v.1)

pub IsSide-Rests : (h : Cells) (d : Side) (s : BookSide) → IsSide h d s → All (Rests h d) s.orders
IsSide-Rests h d s v =
    subst (All (Rests h d)) (sym v.orders_eq) (groups-Rests h d v.groups v.grouped.groups)

pub NotIn-of_side :
    (h : Cells) (d : Side) (s : BookSide) (a : Addr)
    → IsSide h d s
    → (h a).side ≢ d
    → NotIn a s.orders
NotIn-of_side h d s a v n = elim (Bool-cases (has a s.orders)) [
  | inl here ↦ absurd (n (All-has (Rests h d) a s.orders (IsSide-Rests h d s v) here).rests_side)
  | inr away ↦ NotIn-of_has a s.orders away
]

pub IsSide-SameElse :
    (h h' : Cells) (d : Side) (s : BookSide) (a : Addr)
    → SameElse a h h'
    → NotIn a s.orders
    → IsSide h d s
    → IsSide h' d s
IsSide-SameElse h h' d s a e n v = record {
  groups = v.groups;
  levels_eq = v.levels_eq;
  orders_eq = v.orders_eq;
  grouped = record {
    groups =
        groups-Agree h h' d v.groups
          (subst (Agree h h') v.orders_eq (All-map _ _ s.orders (λ b n'. e b n') n))
          v.grouped.groups;
    ascending = v.grouped.ascending;
    distinct = v.grouped.distinct;
  };
}

buy≢sell : Side.buy ≢ Side.sell
buy≢sell e = cc

-- An operation that keeps one side's invariant and writes to one of its orders keeps the book's.
on_side-IsBook :
    (h : Cells) (b : MarketBook) (a : Addr) (d : Side) (f : BookSide × Cells → BookSide × Cells)
    → (h a).side ≡ d
    → SameElse a h (f (side d b, h)).1
    → IsSide (f (side d b, h)).1 d (f (side d b, h)).0
    → IsBook h b
    → IsBook (on_side d f (b, h)).1 (on_side d f (b, h)).0
unfolding on_side side set_side
on_side-IsBook h b a Side.buy f e same kept v = record {
  bids = kept;
  offers =
      IsSide-SameElse h _ Side.sell b.offer_side a same
        (NotIn-of_side h Side.sell b.offer_side a v.offers (λ e'. buy≢sell (sym e ∙ e'))) v.offers;
}
on_side-IsBook h b a Side.sell f e same kept v = record {
  bids =
      IsSide-SameElse h _ Side.buy b.bid_side a same
        (NotIn-of_side h Side.buy b.bid_side a v.bids (λ e'. buy≢sell (sym e' ∙ e))) v.bids;
  offers = kept;
}

-- The side that the operation works on, and the other one.
side-on_side :
    (d : Side) (f : BookSide × Cells → BookSide × Cells) (b : MarketBook) (h : Cells)
    → side d (on_side d f (b, h)).0 ≡ (f (side d b, h)).0
unfolding on_side side set_side
side-on_side Side.buy f b h = refl
side-on_side Side.sell f b h = refl

side-on_side_other :
    (d d' : Side) (f : BookSide × Cells → BookSide × Cells) (b : MarketBook) (h : Cells)
    → d ≢ d'
    → side d' (on_side d f (b, h)).0 ≡ side d' b
unfolding on_side side set_side
side-on_side_other Side.buy Side.buy f b h n = absurd (n refl)
side-on_side_other Side.buy Side.sell f b h n = refl
side-on_side_other Side.sell Side.buy f b h n = refl
side-on_side_other Side.sell Side.sell f b h n = absurd (n refl)

-- What an operation on an order of side d does to a book.
pub record Changes (d : Side) (a : Addr) (os : List Addr) (b : MarketBook) (h : Cells)
    (r : MarketBook × Cells) : Type 0 where
  pub is_book : IsBook r.1 r.0
  pub same_else : SameElse a h r.1
  pub ticks_kept : KeepsTicks h r.1
  pub here : (side d r.0).orders ≡ os
  pub there : (d' : Side) → d ≢ d' → (side d' r.0).orders ≡ (side d' b).orders

on_side-Changes :
    (h : Cells) (b : MarketBook) (a : Addr) (d : Side) (f : BookSide × Cells → BookSide × Cells)
    (os : List Addr)
    → (h a).side ≡ d
    → SameElse a h (f (side d b, h)).1
    → KeepsTicks h (f (side d b, h)).1
    → IsSide (f (side d b, h)).1 d (f (side d b, h)).0
    → (f (side d b, h)).0.orders ≡ os
    → IsBook h b
    → Changes d a os b h (on_side d f (b, h))
unfolding on_side
on_side-Changes h b a d f os e same keeps kept eq v = record {
  is_book = on_side-IsBook h b a d f e same kept v;
  same_else = same;
  ticks_kept = keeps;
  here = ap (λ (s : BookSide). s.orders) (side-on_side d f b h) ∙ eq;
  there = λ d' n. ap (λ (s : BookSide). s.orders) (side-on_side_other d d' f b h n);
}

side-set_last :
    (d : Side) (r : MarketBook × Cells) (lots : Lots) (ticks : Ticks) (now : Millis)
    → side d (set_last lots ticks now r).0 ≡ side d r.0
unfolding set_last side
side-set_last Side.buy r lots ticks now = refl
side-set_last Side.sell r lots ticks now = refl

set_last-Changes :
    (h : Cells) (b : MarketBook) (a : Addr) (d : Side) (os : List Addr) (r : MarketBook × Cells)
    (lots : Lots) (ticks : Ticks) (now : Millis)
    → Changes d a os b h r
    → Changes d a os b h (set_last lots ticks now r)
unfolding set_last
set_last-Changes h b a d os r lots ticks now c = record {
  is_book = record { bids = c.is_book.bids; offers = c.is_book.offers };
  same_else = c.same_else;
  ticks_kept = c.ticks_kept;
  here = ap (λ (s : BookSide). s.orders) (side-set_last d r lots ticks now) ∙ c.here;
  there =
      λ d' n. ap (λ (s : BookSide). s.orders) (side-set_last d' r lots ticks now) ∙ c.there d' n;
}

-- Taking lots off a resting order of side d keeps the book's invariant and the other side's orders.
-- The order leaves its side when no more than these lots were left of it.
pub take_order-Changes :
    (h : Cells) (b : MarketBook) (a : Addr) (d : Side) (lots : Lots) (now : Millis)
    → (h a).side ≡ d
    → has a (side d b).orders ≡ true
    → IsBook h b
    → Changes d a (orders_left a lots (h a) (side d b).orders) b h (take_order a lots now (b, h))
unfolding take_order
take_order-Changes h b a d lots now e m v =
    let kept = take_order-IsSide h d a (side d b) m (IsBook-side h b d v) lots now in
    subst
      (λ c.
        Changes d a (orders_left a lots (h a) (side d b).orders) b h
          (set_last lots (h a).ticks now (on_side c (Side.take_order a lots now) (b, h))))
      (sym e)
      (set_last-Changes h b a d _ _ lots (h a).ticks now (
        on_side-Changes h b a d (Side.take_order a lots now) _ e
          (take_order-SameElse a lots now (side d b) h)
          (take_order-KeepsTicks a lots now (side d b) h) kept.0 kept.1 v))

-- Inserting a live order that rests nowhere keeps the book's invariant and the other side's
-- orders; on its own side the order takes its place by price and time.
pub insert_order-Changes :
    (h : Cells) (b : MarketBook) (a : Addr) (d : Side)
    → (h a).side ≡ d
    → pos 0 <ℤ (h a).resd
    → NotIn a (side d b).orders
    → IsBook h b
    → Changes d a (insert_sorted h a (side d b).orders) b h (insert_order a (b, h))
unfolding insert_order
insert_order-Changes h b a d e live n v =
    subst
      (λ c.
        Changes d a (insert_sorted h a (side d b).orders) b h
          (on_side c (Side.insert_order a) (b, h)))
      (sym e)
      (on_side-Changes h b a d (Side.insert_order a) _ e (insert_order-SameElse a (side d b) h)
        (insert_order-KeepsTicks a (side d b) h)
        (insert_order-IsSide h d a (side d b) e live n (IsBook-side h b d v))
        (insert_order-sorted h d a (side d b) (IsBook-side h b d v)) v)

-- Removing a resting order of side d keeps the book's invariant and the other side's orders.
pub remove_order-Changes :
    (h : Cells) (b : MarketBook) (a : Addr) (d : Side)
    → (h a).side ≡ d
    → has a (side d b).orders ≡ true
    → IsBook h b
    → Changes d a (remove a (side d b).orders) b h (remove_order a (b, h))
unfolding remove_order
remove_order-Changes h b a d e m v =
    let kept = remove_order-IsSide h d a (side d b) m (IsBook-side h b d v) in
    subst
      (λ c. Changes d a (remove a (side d b).orders) b h (on_side c (Side.remove_order a) (b, h)))
      (sym e)
      (on_side-Changes h b a d (Side.remove_order a) _ e (remove_order-SameElse a (side d b) h)
        (remove_order-KeepsTicks a (side d b) h) kept.0 kept.1 v)
