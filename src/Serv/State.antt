-- ===== src/Serv/State.antt =====
-- src/fig/Serv.cpp, src/fig/Match.hpp and src/fig/Response.cpp: the state that `createOrder` works
-- on, the matches and the response.
use swirlyc.Common.{Option, some, List, [], ◌∷◌, ◌++◌, if◌then◌else◌}
use swirlyc.Domain.{Lots, Jday}
use swirlyc.Text.{Str, str_eq}
use swirlyc.Order.{Addr, Cells}
use swirlyc.Exec.{Exec}
use swirlyc.Posn.{add_trade}
use swirlyc.Session.{TraderSess, modify_posn}
use swirlyc.Book.Market.{MarketBook}

-- A pointer to a position: its trader, contract and settlement day.
pub record PosnPtr : Type 0 where
  pub trader : Str
  pub contr : Str
  pub settl_day : Jday

pub record Match : Type 0 where
  pub lots : Lots
  pub maker_order : Addr
  pub maker_trade : Exec
  pub maker_posn : PosnPtr
  pub taker_trade : Exec

-- The book of a response is the one that `createOrder` works on.
pub record Response : Type 0 where
  pub orders : List Addr
  pub execs : List Exec
  pub posn : Option PosnPtr

unfoldable pub set_posn : PosnPtr → Response → Response
set_posn p r = record r { posn = some p }

unfoldable pub insert_order : Addr → Response → Response
insert_order a r = record r { orders = r.orders ++ a ∷ [] }

unfoldable pub insert_exec : Exec → Response → Response
insert_exec e r = record r { execs = r.execs ++ e ∷ [] }

-- Traders are found by their mnemonic; a pointer to a session is the mnemonic.
unfoldable pub modify_trader : Str → (TraderSess → TraderSess) → List TraderSess → List TraderSess
modify_trader mnem f [] = []
modify_trader mnem f (t ∷ ts) = if str_eq t.mnem mnem then f t ∷ ts else t ∷ modify_trader mnem f ts

-- `Posn::addTrade` through a pointer.
unfoldable pub add_posn_trade : PosnPtr → Exec → List TraderSess → List TraderSess
unfolding modify_trader modify_posn add_trade
add_posn_trade p e ts = modify_trader p.trader (modify_posn p.contr p.settl_day (add_trade e)) ts

-- All that a request can reach: the orders, of which `next` is the first free cell, the sessions,
-- the book and the response.
pub record World : Type 0 where
  pub cells : Cells
  pub next : Addr
  pub traders : List TraderSess
  pub book : MarketBook
  pub resp : Response
