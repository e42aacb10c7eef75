-- ===== src/Serv/Commit.antt =====
-- src/fig/Serv.cpp, `commitMatches`: the makers are reduced, and both parties' sessions, positions
-- and the response take the trades.
use swirlyc.Common.{List, [], ◌∷◌, none, some, if◌then◌else◌}
use swirlyc.Domain.{Millis}
use swirlyc.Text.{Str, str_eq}
use swirlyc.Order.{Cells}
use swirlyc.Exec.{Exec}
use swirlyc.Session.{TraderSess, insert_trade}
use swirlyc.Book.Market.{MarketBook}
use swirlyc.Book.Market
use swirlyc.Serv.State.{
  Match, Response, World, insert_order, insert_exec, modify_trader, add_posn_trade,
}

-- The book and the orders of a world are written to.
unfoldable pub on_book : (MarketBook × Cells → MarketBook × Cells) → World → World
on_book f w = record w { book = (f (w.book, w.cells)).0; cells = (f (w.book, w.cells)).1 }

unfoldable pub on_traders : (List TraderSess → List TraderSess) → World → World
on_traders f w = record w { traders = f w.traders }

unfoldable pub on_resp : (Response → Response) → World → World
on_resp f w = record w { resp = f w.resp }

-- `Response::addTrade`, on the position that the response points to.
unfoldable pub add_resp_trade : Exec → World → World
unfolding on_traders add_posn_trade
add_resp_trade e w = elim (w.resp.posn) [ none ↦ w | some p ↦ on_traders (add_posn_trade p e) w ]

-- A maker's order and trade are reported when the taker crossed with itself.
unfoldable pub report : Str → Match → Cells → Response → Response
unfolding insert_order insert_exec
report taker m h r = insert_exec m.taker_trade (
    if str_eq (h m.maker_order).trader taker
    then insert_exec m.maker_trade (insert_order m.maker_order r)
    else r)

unfoldable pub commit_match : Str → Millis → Match → World → World
unfolding on_book on_traders on_resp add_resp_trade report Market.take_order modify_trader
    insert_trade add_posn_trade
commit_match taker now m w =
    let maker = (w.cells m.maker_order).trader in
    on_resp (report taker m w.cells) (
      add_resp_trade m.taker_trade (
        on_traders (modify_trader taker (insert_trade m.taker_trade)) (
          on_traders (add_posn_trade m.maker_posn m.maker_trade) (
            on_traders (modify_trader maker (insert_trade m.maker_trade))
              (on_book (Market.take_order m.maker_order m.lots now) w)))))

unfoldable pub commit_matches : Str → Millis → List Match → World → World
unfolding commit_match
commit_matches taker now [] w = w
commit_matches taker now (m ∷ ms) w = commit_matches taker now ms (commit_match taker now m w)
