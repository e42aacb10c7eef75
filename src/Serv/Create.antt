-- ===== src/Serv/Create.antt =====
-- src/fig/Serv.cpp, `createOrder`. The business day and the journal are the callers': the former
-- comes from a time-zone library, the latter is an interface; the journal may refuse.
use swirlyc.Common.{
  ℕ, suc, ◌==◌, ltb, pos, eqb_ℤ, ltb_ℤ, Bool, not, ◌&&◌, ◌||◌, List, [], ◌∷◌, Option, none, some,
  if◌then◌else◌,
}
use swirlyc.Domain.{Lots, Ticks, Jday, Millis, Side}
use swirlyc.Text.{Str, assign}
use swirlyc.Order.{Addr, new_order, done, modify}
use swirlyc.Exec.{Exec, new_exec}
use swirlyc.Session.{TraderSess, lazy_posn}
use swirlyc.Session
use swirlyc.Book.Market.{MarketBook, alloc_order_id, alloc_exec_id}
use swirlyc.Book.Market
use swirlyc.Serv.State.{Match, World, set_posn, insert_order, insert_exec, modify_trader}
use swirlyc.Serv.Match.{match_orders, trade_taker}
use swirlyc.Serv.Commit.{on_book, on_traders, on_resp, commit_matches}

pub data Error : Type 0 where
  market_closed invalid_lots journal_failed : Error

-- The capacity of a reference.
abbrev pub ref_max : ℕ
ref_max = 64

-- What a client asks for. `trader` is the mnemonic of its session.
pub record NewOrder : Type 0 where
  pub trader : Str
  pub ref : Str
  pub side : Side
  pub lots : Lots
  pub ticks : Ticks
  pub min_lots : Lots
  pub now : Millis

-- The executions that are journalled: the new order, and both trades of each match.
unfoldable pub trades_of : List Match → List Exec
trades_of [] = []
trades_of (m ∷ ms) = m.maker_trade ∷ m.taker_trade ∷ trades_of ms

unfoldable pub is_expired : MarketBook → Jday → Bool
is_expired b bus_day = not (b.expiry_day == 0) && ltb b.expiry_day bus_day

unfoldable pub bad_lots : NewOrder → Bool
bad_lots q = eqb_ℤ q.lots (pos 0) || ltb_ℤ q.lots q.min_lots

-- The order is allocated with an identifier of the market.
unfoldable pub alloc_order : NewOrder → World → World
unfolding alloc_order_id new_order modify assign
alloc_order q w =
    let b = alloc_order_id w.book in
    record w {
      book = b;
      cells =
          modify w.next
            (λ _.
              new_order q.trader b.mnem b.contr b.settl_day b.max_order_id (assign ref_max q.ref)
                q.side q.lots q.ticks q.min_lots q.now)
            w.cells;
      next = suc w.next;
    }

-- What stands between the allocation and the journal.
pub record Placed : Type 0 where
  pub exec : Exec
  pub matches : List Match
  pub world : World

-- The new execution, the matches, and the insertion of what is left of the order at address a.
unfoldable pub match_and_place : Millis → Addr → World → Placed
unfolding alloc_exec_id new_exec match_orders trade_taker done on_book Market.insert_order
match_and_place now a w =
    let b = alloc_exec_id w.book in
    let m = match_orders w.cells a b w.traders now in
    let traded = record w {
      book = record b { max_exec_id = m.max_exec_id };
      cells = trade_taker m a now w.cells;
      traders = m.traders;
    } in
    record {
      exec = new_exec (w.cells a) b.max_exec_id now;
      matches = m.matches;
      world = if done (traded.cells a) then traded else on_book (Market.insert_order a) traded;
    }

-- The journal refused: the order is taken out of the book again.
unfoldable pub undo : Addr → World → World
unfolding done on_book Market.remove_order
undo a w = if done (w.cells a) then w else on_book (Market.remove_order a) w

-- The position of the taker, which is opened only for a trade.
unfoldable pub open_posn : Str → List Match → World → World
unfolding on_traders on_resp modify_trader lazy_posn set_posn
open_posn trader [] w = w
open_posn trader (m ∷ ms) w =
    on_resp
      (set_posn (record { trader = trader; contr = w.book.contr; settl_day = w.book.settl_day }))
      (on_traders (modify_trader trader (lazy_posn w.book.contr w.book.settl_day)) w)

unfoldable pub commit : NewOrder → Addr → Placed → World
unfolding open_posn on_traders on_resp modify_trader Session.insert_order insert_order insert_exec
    commit_matches
commit q a p =
    let w = open_posn q.trader p.matches p.world in
    commit_matches q.trader q.now p.matches (
      on_resp (λ r. insert_exec p.exec (insert_order a r))
        (on_traders (modify_trader q.trader (Session.insert_order w.cells a)) w))

module _ (bus_day : Millis → Jday) (journ : Str → List Exec → Bool) where
  -- The world afterwards, and the exception if one is thrown.
  unfoldable pub create_order : NewOrder → World → World × Option Error
  unfolding is_expired bad_lots alloc_order match_and_place trades_of undo commit
  create_order q w =
      let a = w.next in
      let p = match_and_place q.now a (alloc_order q w) in
      if is_expired w.book (bus_day q.now)
      then (w, some market_closed)
      else if bad_lots q
      then (w, some invalid_lots)
      else if journ w.book.mnem (p.exec ∷ trades_of p.matches)
      then (commit q a p, none)
      else (undo a p.world, some journal_failed)
