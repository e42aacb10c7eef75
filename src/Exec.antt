-- ===== src/Exec.antt =====
-- include/swirly/elm/Exec.hpp, src/elm/Exec.cpp and the execution part of src/elm/Factory.cpp: an
-- execution records a step in the life of an order, a trade among them.
use swirlyc.Common.{pos, ◌+ℤ◌, ◌-ℤ◌, []}
use swirlyc.Domain.{Lots, Ticks, Cost, Iden, Millis, State, Role, cost}
use swirlyc.Text.{Str}
use swirlyc.Order.{Request, Order}

pub record Exec : Type 0 where
  pub request : Request
  pub open request use *
  pub order_id : Iden
  pub state : State
  pub ticks : Ticks
  pub resd : Lots
  pub exec : Lots
  pub cost : Cost
  pub last_lots : Lots
  pub last_ticks : Ticks
  pub min_lots : Lots
  pub match_id : Iden
  pub role : Role
  pub cpty : Str

-- `Factory::newExec`: the order as it stands now, under an identifier of its own.
unfoldable pub new_exec : Order → Iden → Millis → Exec
new_exec o id created = record {
  request = record (o.request) { id = id; created = created };
  order_id = o.id;
  state = o.state;
  ticks = o.ticks;
  resd = o.resd;
  exec = o.exec;
  cost = o.cost;
  last_lots = o.last_lots;
  last_ticks = o.last_ticks;
  min_lots = o.min_lots;
  match_id = 0;
  role = Role.none;
  cpty = [];
}

unfoldable pub revise : Lots → Exec → Exec
revise lots e = record e {
  request = record (e.request) { lots = lots };
  state = State.revise;
  resd = e.resd -ℤ (e.lots -ℤ lots);
}

unfoldable pub cancel : Exec → Exec
cancel e = record e { state = State.cancel; resd = pos 0 }

unfoldable pub trade_sum : Lots → Cost → Lots → Ticks → Iden → Role → Str → Exec → Exec
trade_sum sum_lots sum_cost last_lots last_ticks match_id role cpty e = record e {
  state = State.trade;
  resd = e.resd -ℤ sum_lots;
  exec = e.exec +ℤ sum_lots;
  cost = e.cost +ℤ sum_cost;
  last_lots = last_lots;
  last_ticks = last_ticks;
  match_id = match_id;
  role = role;
  cpty = cpty;
}

unfoldable pub trade : Lots → Ticks → Iden → Role → Str → Exec → Exec
unfolding trade_sum
trade last_lots last_ticks match_id role cpty e =
    trade_sum last_lots (cost last_lots last_ticks) last_lots last_ticks match_id role cpty e
