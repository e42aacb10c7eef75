-- ===== src/Book/Market.antt =====
-- include/swirly/elm/MarketBook.hpp and the state of include/swirly/elm/Market.hpp: two sides make
-- the book of a market. The operations send an order to its side.
use swirlyc.Common.{ℕ, ◌+◌}
use swirlyc.Domain.{Side, Lots, Ticks, Iden, Jday, Millis}
use swirlyc.Text.{Str}
use swirlyc.Order.{Addr, Cells}
use swirlyc.Book.Side
use swirlyc.Book.Side.{BookSide}

-- `view` is a copy of constant fields that no operation reads.
pub record MarketBook : Type 0 where
  pub mnem : Str
  pub display : Str
  pub contr : Str
  pub settl_day : Jday
  pub expiry_day : Jday
  pub state : ℕ
  pub last_lots : Lots
  pub last_ticks : Ticks
  pub last_time : Millis
  pub bid_side : BookSide
  pub offer_side : BookSide
  pub max_order_id : Iden
  pub max_exec_id : Iden

unfoldable pub side : Side → MarketBook → BookSide
side Side.buy b = b.bid_side
side Side.sell b = b.offer_side

unfoldable pub set_side : Side → BookSide → MarketBook → MarketBook
set_side Side.buy s b = record b { bid_side = s }
set_side Side.sell s b = record b { offer_side = s }

-- The operation of one side, on the book and the orders.
unfoldable pub on_side :
    Side → (BookSide × Cells → BookSide × Cells) → MarketBook × Cells → MarketBook × Cells
unfolding side set_side
on_side d f (b, h) = (set_side d (f (side d b, h)).0 b, (f (side d b, h)).1)

unfoldable pub insert_order : Addr → MarketBook × Cells → MarketBook × Cells
unfolding on_side Side.insert_order
insert_order a bh = on_side (bh.1 a).side (Side.insert_order a) bh

unfoldable pub remove_order : Addr → MarketBook × Cells → MarketBook × Cells
unfolding on_side Side.remove_order
remove_order a bh = on_side (bh.1 a).side (Side.remove_order a) bh

unfoldable pub create_order : Addr → Millis → MarketBook × Cells → MarketBook × Cells
unfolding on_side Side.create_order
create_order a now bh = on_side (bh.1 a).side (Side.create_order a now) bh

unfoldable pub revise_order : Addr → Lots → Millis → MarketBook × Cells → MarketBook × Cells
unfolding on_side Side.revise_order
revise_order a lots now bh = on_side (bh.1 a).side (Side.revise_order a lots now) bh

unfoldable pub cancel_order : Addr → Millis → MarketBook × Cells → MarketBook × Cells
unfolding on_side Side.cancel_order
cancel_order a now bh = on_side (bh.1 a).side (Side.cancel_order a now) bh

unfoldable pub set_last : Lots → Ticks → Millis → MarketBook × Cells → MarketBook × Cells
set_last lots ticks now (b, h) =
    (record b { last_lots = lots; last_ticks = ticks; last_time = now }, h)

unfoldable pub take_order : Addr → Lots → Millis → MarketBook × Cells → MarketBook × Cells
unfolding on_side set_last Side.take_order
take_order a lots now bh =
    set_last lots (bh.1 a).ticks now (on_side (bh.1 a).side (Side.take_order a lots now) bh)

-- The new identifier is the book's greatest one.
unfoldable pub alloc_order_id : MarketBook → MarketBook
alloc_order_id b = record b { max_order_id = b.max_order_id + 1 }

unfoldable pub alloc_exec_id : MarketBook → MarketBook
alloc_exec_id b = record b { max_exec_id = b.max_exec_id + 1 }
