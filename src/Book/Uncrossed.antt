-- ===== src/Book/Uncrossed.antt =====
-- include/swirly/elm/BookSide.hpp, include/swirly/elm/MarketBook.hpp: the orders of a side are
-- sorted by price, and a book is uncrossed when every bid is below every offer.
use swirlyc.Common.{
  ℤ, ◌<ℤ◌, ◌≤ℤ◌, ◌≡◌, ◌≢◌, refl, sym, List, [], ◌∷◌, ◌++◌, All, All-map, All-append, subst,
  parts_of_eq, arith, Bool-cases, ltb_ℤ, inl, inr,
}
use swirlyc.Domain.{Side}
use swirlyc.Order.{Addr, Cells, Order}
use swirlyc.Book.Level.{order_key}
use swirlyc.Book.Side.{BookSide}
use swirlyc.Book.Frame.{KeepsTicks}
use swirlyc.Book.Groups.{Group, members, orders_of, IsGroup, IsSide, Above, Ascending}
use swirlyc.Book.Sorted.{rests_key, insert_sorted}
use swirlyc.Book.Market.{MarketBook, side}

-- The key of each order is at most that of each later one.
abbrev pub SortedKeys : Cells → List Addr → Type 0
SortedKeys h [] = Unit {0}
SortedKeys h (a ∷ os) = All (λ b. order_key (h a) ≤ℤ order_key (h b)) os × SortedKeys h os

abbrev KeysAre : Cells → ℤ → List Addr → Type 0
KeysAre h k os = All (λ a. order_key (h a) ≡ k) os

members-Keys :
    (h : Cells) (d : Side) (g : Group) → IsGroup h d g → KeysAre h g.level.key (members g)
members-Keys h d g v = All-map _ _ (members g) (λ b r. rests_key d g.level (h b) v.key_eq r) v.rests

-- The orders of later groups have greater keys.
orders-Above :
    (h : Cells) (d : Side) (k : ℤ) (gs : List Group)
    → All (IsGroup h d) gs
    → Above k gs
    → All (λ a. k <ℤ order_key (h a)) (orders_of gs)
orders-Above h d k [] v up = tt
orders-Above h d k (g ∷ gs) v up =
    All-append _ (members g) (orders_of gs)
      (All-map _ _ (members g) (λ a e. subst (λ j. k <ℤ j) (sym e) up.0) (members-Keys h d g v.0))
      (orders-Above h d k gs v.1 up.1)

SortedKeys-append :
    (h : Cells) (k : ℤ) (xs ys : List Addr)
    → KeysAre h k xs
    → All (λ a. k <ℤ order_key (h a)) ys
    → SortedKeys h ys
    → SortedKeys h (xs ++ ys)
SortedKeys-append h k [] ys e up s = s
SortedKeys-append h k (x ∷ xs) ys e up s = (
  All-append _ xs ys
      (All-map _ _ xs (λ a e'. omega (arith, parts_of_eq _ _ e.0, parts_of_eq _ _ e')) e.1)
      (All-map _ _ ys (λ a lt. omega (arith, parts_of_eq _ _ e.0, lt)) up),
  SortedKeys-append h k xs ys e.1 up s,
)

groups-SortedKeys :
    (h : Cells) (d : Side) (gs : List Group)
    → All (IsGroup h d) gs
    → Ascending gs
    → SortedKeys h (orders_of gs)
groups-SortedKeys h d [] v asc = tt
groups-SortedKeys h d (g ∷ gs) v asc =
    SortedKeys-append h g.level.key (members g) (orders_of gs) (members-Keys h d g v.0)
      (orders-Above h d g.level.key gs v.1 asc.0) (groups-SortedKeys h d gs v.1 asc.1)

-- In a side that meets its invariant the order list is sorted from the best price to the worst.
pub IsSide-SortedKeys : (h : Cells) (d : Side) (s : BookSide) → IsSide h d s → SortedKeys h s.orders
IsSide-SortedKeys h d s v =
    subst (SortedKeys h) (sym v.orders_eq)
      (groups-SortedKeys h d v.groups v.grouped.groups v.grouped.ascending)

pub SortedKeys-right : (h : Cells) (xs ys : List Addr) → SortedKeys h (xs ++ ys) → SortedKeys h ys
SortedKeys-right h [] ys s = s
SortedKeys-right h (x ∷ xs) ys s = SortedKeys-right h xs ys s.1

-- Orders of side d and of the other one that do not cross.
abbrev pub Clear : Side → Order → Order → Type 0
Clear Side.buy o o' = o.ticks <ℤ o'.ticks
Clear Side.sell o o' = o'.ticks <ℤ o.ticks

abbrev pub AllClear : Cells → Side → List Addr → List Addr → Type 0
AllClear h d os os' = All (λ a. All (λ b. Clear d (h a) (h b)) os') os

-- No bid is at or above an offer.
abbrev pub IsUncrossed : Cells → MarketBook → Type 0
IsUncrossed h b = AllClear h Side.buy b.bid_side.orders b.offer_side.orders

All-transpose :
    (P : Addr → Addr → Type 0) (xs ys : List Addr)
    → All (λ a. All (P a) ys) xs
    → All (λ b. All (λ a. P a b) xs) ys
All-transpose P xs [] h = tt
All-transpose P xs (y ∷ ys) h =
    (All-map _ _ xs (λ a k. k.0) h, All-transpose P xs ys (All-map _ _ xs (λ a k. k.1) h))

-- Seen from either side.
pub AllClear-of_IsUncrossed :
    (h : Cells) (b : MarketBook) (d d' : Side)
    → d ≢ d'
    → IsUncrossed h b
    → AllClear h d (side d b).orders (side d' b).orders
unfolding side
AllClear-of_IsUncrossed h b Side.buy Side.buy n u = absurd (n refl)
AllClear-of_IsUncrossed h b Side.buy Side.sell n u = u
AllClear-of_IsUncrossed h b Side.sell Side.buy n u = All-transpose _ _ _ u
AllClear-of_IsUncrossed h b Side.sell Side.sell n u = absurd (n refl)

pub IsUncrossed-of_AllClear :
    (h : Cells) (b : MarketBook) (d d' : Side)
    → d ≢ d'
    → AllClear h d (side d b).orders (side d' b).orders
    → IsUncrossed h b
unfolding side
IsUncrossed-of_AllClear h b Side.buy Side.buy n u = absurd (n refl)
IsUncrossed-of_AllClear h b Side.buy Side.sell n u = u
IsUncrossed-of_AllClear h b Side.sell Side.buy n u = All-transpose _ _ _ u
IsUncrossed-of_AllClear h b Side.sell Side.sell n u = absurd (n refl)

pub Clear-ticks :
    (d : Side) (o o' p p' : Order)
    → p.ticks ≡ o.ticks
    → p'.ticks ≡ o'.ticks
    → Clear d o o'
    → Clear d p p'
Clear-ticks Side.buy o o' p p' e e' lt = omega (arith, parts_of_eq _ _ e, parts_of_eq _ _ e', lt)
Clear-ticks Side.sell o o' p p' e e' lt = omega (arith, parts_of_eq _ _ e, parts_of_eq _ _ e', lt)

-- Only prices matter.
pub AllClear-KeepsTicks :
    (h h' : Cells) (d : Side) (os os' : List Addr)
    → KeepsTicks h h'
    → AllClear h d os os'
    → AllClear h' d os os'
AllClear-KeepsTicks h h' d os os' k u =
    All-map _ _ os
      (λ a us. All-map _ _ os' (λ b c. Clear-ticks d (h a) (h b) (h' a) (h' b) (k a) (k b) c) us) u

pub insert_sorted-All :
    (P : Addr → Type 0) (h : Cells) (a : Addr) (os : List Addr)
    → P a
    → All P os
    → All P (insert_sorted h a os)
insert_sorted-All P h a [] p ps = (p, tt)
insert_sorted-All P h a (b ∷ os) p ps =
    elim (Bool-cases (ltb_ℤ (order_key (h a)) (order_key (h b)))) [
      | inl lt ↦ rw lt (p, ps)
      | inr ge ↦ rw ge (ps.0, insert_sorted-All P h a os p ps.1)
    ]
