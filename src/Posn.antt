-- ===== src/Posn.antt =====
-- include/swirly/elm/Posn.hpp: the position of a trader in a contract, with what was bought and what
-- was sold apart.
use swirlyc.Common.{pos, ◌+ℤ◌}
use swirlyc.Domain.{Lots, Ticks, Cost, Jday, Side, cost}
use swirlyc.Text.{Str}
use swirlyc.Exec.{Exec}

pub record Posn : Type 0 where
  pub trader : Str
  pub contr : Str
  pub settl_day : Jday
  pub buy_lots : Lots
  pub buy_cost : Cost
  pub sell_lots : Lots
  pub sell_cost : Cost

-- `Factory::newPosn`.
unfoldable pub new_posn : Str → Str → Jday → Posn
new_posn trader contr settl_day = record {
  trader = trader;
  contr = contr;
  settl_day = settl_day;
  buy_lots = pos 0;
  buy_cost = pos 0;
  sell_lots = pos 0;
  sell_cost = pos 0;
}

unfoldable pub add_buy : Lots → Cost → Posn → Posn
add_buy lots cost p = record p { buy_lots = p.buy_lots +ℤ lots; buy_cost = p.buy_cost +ℤ cost }

unfoldable pub add_sell : Lots → Cost → Posn → Posn
add_sell lots cost p = record p { sell_lots = p.sell_lots +ℤ lots; sell_cost = p.sell_cost +ℤ cost }

unfoldable pub add : Posn → Posn → Posn
unfolding add_buy add_sell
add rhs p = add_sell rhs.sell_lots rhs.sell_cost (add_buy rhs.buy_lots rhs.buy_cost p)

unfoldable pub add_last : Side → Lots → Ticks → Posn → Posn
unfolding add_buy add_sell
add_last Side.buy last_lots last_ticks p = add_buy last_lots (cost last_lots last_ticks) p
add_last Side.sell last_lots last_ticks p = add_sell last_lots (cost last_lots last_ticks) p

unfoldable pub add_trade : Exec → Posn → Posn
unfolding add_last
add_trade e p = add_last e.side e.last_lots e.last_ticks p
