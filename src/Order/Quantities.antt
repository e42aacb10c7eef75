-- ===== src/Order/Quantities.antt =====
-- include/swirly/elm/Order.hpp: what an order's operations keep of its quantities.
use swirlyc.Common.{◌≡◌, pos, ◌+ℤ◌, ◌≤ℤ◌, int_laws, parts_of_eq}
use swirlyc.Domain.{Lots, Ticks, Cost, Millis}
use swirlyc.Order.{Order, revise, trade_sum}

-- The lots of a live order are split into a residual and an executed part.
pub record IsOpen (o : Order) : Type 0 where
  pub resd_nonneg : pos 0 ≤ℤ o.resd
  pub exec_nonneg : pos 0 ≤ℤ o.exec
  pub split : o.resd +ℤ o.exec ≡ o.lots

-- Trading lots that are not negative and at most the residual keeps an order's lots split into a
-- residual and an executed part, both not negative.
pub trade-IsOpen :
    (o : Order) (lots : Lots) (sum : Cost) (last : Lots) (ticks : Ticks) (now : Millis)
    → pos 0 ≤ℤ lots
    → lots ≤ℤ o.resd
    → IsOpen o
    → IsOpen (trade_sum lots sum last ticks now o)
unfolding trade_sum
trade-IsOpen o lots sum last ticks now h k v = record {
  resd_nonneg = omega int_laws;
  exec_nonneg = omega int_laws;
  split = omega (int_laws, parts_of_eq _ _ v.split);
}

-- Revising an order to lots between what is executed and what it had keeps its lots split into a
-- residual and an executed part, both not negative.
pub revise-IsOpen :
    (o : Order) (lots : Lots) (now : Millis)
    → o.exec ≤ℤ lots
    → lots ≤ℤ o.lots
    → IsOpen o
    → IsOpen (revise lots now o)
unfolding revise
revise-IsOpen o lots now h k v = record {
  resd_nonneg = omega (int_laws, parts_of_eq _ _ v.split);
  exec_nonneg = omega int_laws;
  split = omega (int_laws, parts_of_eq _ _ v.split);
}
