-- ===== src/Serv/Ranked.antt =====
-- src/fig/Serv.cpp, `createOrder`: the prices of a book's orders after a call.
use swirlyc.Common.{pos, ◌≤ℤ◌, ◌<ℤ◌, ◌≡◌, List, [], ◌∷◌, Bool, All, All-map₂, int_laws}
use swirlyc.Domain.{Side, Millis, Jday, Ticks, compose_key}
use swirlyc.Text.{Str}
use swirlyc.Exec.{Exec}
use swirlyc.Order.{Addr, Cells, Order}
use swirlyc.Book.Level.{order_key}
use swirlyc.Book.Market.{side}
use swirlyc.Book.Whole.{IsBook-side, Rests, IsSide-Rests}
use swirlyc.Book.Uncrossed.{SortedKeys, IsSide-SortedKeys}
use swirlyc.Serv.State.{World}
use swirlyc.Serv.Safety.{IsMarket}
use swirlyc.Serv.Kept.{create_order-IsMarket}
use swirlyc.Serv.Create.{NewOrder, create_order}

-- A price is no worse than another for who trades with it: a bid is no lower, an offer no higher.
abbrev pub NoWorse : Side → Ticks → Ticks → Type 0
NoWorse Side.buy s t = t ≤ℤ s
NoWorse Side.sell s t = s ≤ℤ t

-- The price of each order is no worse than that of each later one.
abbrev pub Ranked : Side → Cells → List Addr → Type 0
Ranked d h [] = Unit {0}
Ranked d h (a ∷ os) = All (λ b. NoWorse d ((h a).ticks) ((h b).ticks)) os × Ranked d h os

NoWorse-of_keys :
    (d : Side) (o p : Order)
    → o.side ≡ d
    → p.side ≡ d
    → order_key o ≤ℤ order_key p
    → NoWorse d o.ticks p.ticks
unfolding order_key compose_key
NoWorse-of_keys Side.buy o p e f le = let k = rw (e, f) at le in omega (int_laws, k)
NoWorse-of_keys Side.sell o p e f le = let k = rw (e, f) at le in omega (int_laws, k)

Ranked-of_keys :
    (d : Side) (h : Cells) (os : List Addr) → All (Rests h d) os → SortedKeys h os → Ranked d h os
Ranked-of_keys d h [] r s = tt
Ranked-of_keys d h (a ∷ os) r s = (
  All-map₂ _ _ _ os (λ b m k. NoWorse-of_keys d (h a) (h b) r.0.rests_side m.rests_side k) r.1 s.0,
  Ranked-of_keys d h os r.1 s.1,
)

-- After a call of createOrder for a positive number of lots, in a market that meets its invariant, the
-- bids stand from the highest price to the lowest, and the offers from the lowest to the highest,
-- whatever the business day and the journal's answer.
pub create_order-Ranked :
    (bus_day : Millis → Jday) (journ : Str → List Exec → Bool) (q : NewOrder) (w : World)
    → IsMarket w
    → pos 0 <ℤ q.lots
    → (d : Side)
    → let r = (create_order bus_day journ q w).0 in Ranked d r.cells (side d r.book).orders
create_order-Ranked bus_day journ q w v lt d =
    let r = (create_order bus_day journ q w).0 in
    let s = IsBook-side r.cells r.book d (create_order-IsMarket bus_day journ q w v lt).is_book in
    Ranked-of_keys d r.cells (side d r.book).orders (IsSide-Rests r.cells d (side d r.book) s)
      (IsSide-SortedKeys r.cells d (side d r.book) s)
