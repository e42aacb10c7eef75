-- ===== src/Order.antt =====
-- include/swirly/elm/Request.hpp, include/swirly/elm/Order.hpp and the order part of
-- src/elm/Factory.cpp: the order and its life cycle, and the store that holds the orders which the
-- book, the sessions and the responses share by reference.
use swirlyc.Common.{ℕ, suc, ◌+◌, ◌==◌, if◌then◌else◌, ℤ, pos, ◌+ℤ◌, ◌-ℤ◌, eqb_ℤ, Bool, Option, none}
use swirlyc.Domain.{Lots, Ticks, Cost, Iden, Jday, Millis, Side, State, cost}
use swirlyc.Text.{Str}
pub mod Quantities

pub record Request : Type 0 where
  pub trader : Str
  pub market : Str
  pub contr : Str
  pub settl_day : Jday
  pub id : Iden
  pub ref : Str
  pub side : Side
  pub lots : Lots
  pub created : Millis

-- `level` points to the price level of a resting order. A level is found by its key, which is
-- constant and unique in its side, so the pointer is the key; `none` is the null pointer.
pub record Order : Type 0 where
  pub request : Request
  pub open request use *
  pub level : Option ℤ
  pub state : State
  pub ticks : Ticks
  pub resd : Lots
  pub exec : Lots
  pub cost : Cost
  pub last_lots : Lots
  pub last_ticks : Ticks
  pub min_lots : Lots
  pub modified : Millis

-- `Factory::newOrder` for an order that has just been placed.
unfoldable pub new_order :
    Str → Str → Str → Jday → Iden → Str → Side → Lots → Ticks → Lots → Millis → Order
new_order trader market contr settl_day id ref side lots ticks min_lots created = record {
  request = record {
    trader = trader;
    market = market;
    contr = contr;
    settl_day = settl_day;
    id = id;
    ref = ref;
    side = side;
    lots = lots;
    created = created;
  };
  level = none;
  state = State.new;
  ticks = ticks;
  resd = lots;
  exec = pos 0;
  cost = pos 0;
  last_lots = pos 0;
  last_ticks = pos 0;
  min_lots = min_lots;
  modified = created;
}

unfoldable pub done : Order → Bool
done o = eqb_ℤ o.resd (pos 0)

unfoldable pub set_level : Option ℤ → Order → Order
set_level level o = record o { level = level }

unfoldable pub create : Millis → Order → Order
create now o = record o {
  state = State.new;
  resd = o.lots;
  exec = pos 0;
  cost = pos 0;
  modified = now;
}

unfoldable pub revise : Lots → Millis → Order → Order
revise lots now o = record o {
  request = record (o.request) { lots = lots };
  state = State.revise;
  resd = o.resd -ℤ (o.lots -ℤ lots);
  modified = now;
}

unfoldable pub cancel : Millis → Order → Order
cancel now o = record o { state = State.cancel; resd = pos 0; modified = now }

unfoldable pub trade_sum : Lots → Cost → Lots → Ticks → Millis → Order → Order
trade_sum taken_lots taken_cost last_lots last_ticks now o = record o {
  state = State.trade;
  resd = o.resd -ℤ taken_lots;
  exec = o.exec +ℤ taken_lots;
  cost = o.cost +ℤ taken_cost;
  last_lots = last_lots;
  last_ticks = last_ticks;
  modified = now;
}

unfoldable pub trade : Lots → Ticks → Millis → Order → Order
unfolding trade_sum
trade last_lots last_ticks now o =
    trade_sum last_lots (cost last_lots last_ticks) last_lots last_ticks now o

-- Orders are shared by pointer: an address names a cell, and cells from `next` on are free.
abbrev pub Addr : Type 0
Addr = ℕ

abbrev pub Cells : Type 0
Cells = Addr → Order

-- The object at address a becomes f of what it was.
unfoldable pub modify : Addr → (Order → Order) → Cells → Cells
modify a f h b = if a == b then f (h b) else h b
