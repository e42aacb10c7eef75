-- ===== src/Serv/Match.antt =====
-- src/fig/Serv.cpp, `spread`, `newMatch` and `matchOrders`: the taker meets the resting orders of the
-- other side, best price first, until it is filled or prices no longer cross.
use swirlyc.Common.{
  ◌+◌, pos, ◌+ℤ◌, ◌-ℤ◌, eqb_ℤ, ltb_ℤ, min_ℤ, Bool, true, false, ◌||◌, List, [], ◌∷◌, ◌++◌,
}
use swirlyc.Domain.{Lots, Ticks, Cost, Iden, Millis, Jday, Side, Direct, Role, cost}
use swirlyc.Text.{Str}
use swirlyc.Order.{Addr, Cells, Order, modify, trade_sum}
use swirlyc.Exec
use swirlyc.Exec.{Exec, new_exec}
use swirlyc.Session.{TraderSess, lazy_posn}
use swirlyc.Book.Market.{MarketBook}
use swirlyc.Book.Market
use swirlyc.Serv.State.{Match, modify_trader}

unfoldable pub spread : Order → Order → Direct → Ticks
spread taker maker Direct.paid = maker.ticks -ℤ taker.ticks
spread taker maker Direct.given = taker.ticks -ℤ maker.ticks

-- The variables of the matching loop, with what it writes to: the greatest execution identifier of
-- the book, and the sessions, where positions of makers are opened.
pub record Matching : Type 0 where
  pub sum_lots : Lots
  pub sum_cost : Cost
  pub last_lots : Lots
  pub last_ticks : Ticks
  pub matches : List Match
  pub max_exec_id : Iden
  pub traders : List TraderSess

-- What the loop reads: the orders, the taker's order as it was before matching, the direction, and
-- the contract and settlement day of the book.
pub record Context : Type 0 where
  pub cells : Cells
  pub taker : Order
  pub direct : Direct
  pub contr : Str
  pub settl_day : Jday
  pub now : Millis

-- `newMatch`, with the two identifiers that it takes.
unfoldable pub new_match : Context → Addr → Lots → Lots → Cost → Iden → Iden → Match
unfolding new_exec Exec.trade Exec.trade_sum
new_match c a lots sum_lots sum_cost maker_id taker_id =
    let maker = c.cells a in
    record {
      lots = lots;
      maker_order = a;
      maker_trade =
          Exec.trade lots maker.ticks taker_id Role.maker c.taker.trader
            (new_exec maker maker_id c.now);
      maker_posn = record { trader = maker.trader; contr = c.contr; settl_day = c.settl_day };
      taker_trade =
          Exec.trade_sum sum_lots sum_cost lots maker.ticks maker_id Role.taker maker.trader
            (new_exec c.taker taker_id c.now);
    }

-- The two tests that end the loop.
unfoldable pub is_over : Context → Addr → Matching → Bool
unfolding spread
is_over c a m = eqb_ℤ m.sum_lots c.taker.resd || ltb_ℤ (pos 0) (spread c.taker (c.cells a) c.direct)

-- The lots of the next match.
unfoldable pub next_lots : Context → Addr → Matching → Lots
next_lots c a m = min_ℤ (c.taker.resd -ℤ m.sum_lots) (c.cells a).resd

-- One round of the loop.
unfoldable pub match_order : Context → Addr → Matching → Matching
unfolding next_lots new_match modify_trader lazy_posn
match_order c a m =
    let maker = c.cells a in
    let lots = next_lots c a m in
    let sum_lots = m.sum_lots +ℤ lots in
    let sum_cost = m.sum_cost +ℤ cost lots maker.ticks in
    record {
      sum_lots = sum_lots;
      sum_cost = sum_cost;
      last_lots = lots;
      last_ticks = maker.ticks;
      matches =
          m.matches
          ++ new_match c a lots sum_lots sum_cost (m.max_exec_id + 1) (m.max_exec_id + 2) ∷ [];
      max_exec_id = m.max_exec_id + 2;
      traders = modify_trader maker.trader (lazy_posn c.contr c.settl_day) m.traders;
    }

unfoldable pub match_loop : Context → List Addr → Matching → Matching
unfolding is_over match_order
match_loop c [] m = m
match_loop c (a ∷ os) m = elim (is_over c a m) [
  | true ↦ m
  | false ↦ match_loop c os (match_order c a m)
]

-- The side that the taker trades with, and the direction.
unfoldable pub other_side : Side → Side
other_side Side.buy = Side.sell
other_side Side.sell = Side.buy

unfoldable pub direct_of : Side → Direct
direct_of Side.buy = Direct.paid
direct_of Side.sell = Direct.given

unfoldable pub start : Iden → List TraderSess → Matching
start max_exec_id traders = record {
  sum_lots = pos 0;
  sum_cost = pos 0;
  last_lots = pos 0;
  last_ticks = pos 0;
  matches = [];
  max_exec_id = max_exec_id;
  traders = traders;
}

-- What the loop reads when the taker stands at address a.
unfoldable pub context_of : Cells → Addr → MarketBook → Millis → Context
unfolding direct_of
context_of h a b now = record {
  cells = h;
  taker = h a;
  direct = direct_of (h a).side;
  contr = b.contr;
  settl_day = b.settl_day;
  now = now;
}

-- Both functions `matchOrders` up to the update of the taker.
unfoldable pub match_orders : Cells → Addr → MarketBook → List TraderSess → Millis → Matching
unfolding match_loop start other_side context_of Market.side
match_orders h a b traders now =
    match_loop (context_of h a b now) (Market.side (other_side (h a).side) b).orders
      (start b.max_exec_id traders)

-- The update of the taker, which is left alone when nothing matched.
unfoldable pub trade_taker : Matching → Addr → Millis → Cells → Cells
unfolding modify trade_sum
trade_taker m a now h = elim (m.matches) [
  | [] ↦ h
  | _ ∷ _ ↦ modify a (trade_sum m.sum_lots m.sum_cost m.last_lots m.last_ticks now) h
]
