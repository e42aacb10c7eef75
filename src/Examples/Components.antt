-- ===== src/Examples/Components.antt =====
-- The theorems at the concrete market, the most important first.
use swirlyc.Common.{pos, ◌+ℤ◌, ◌-ℤ◌, ◌≡◌, refl, [], ◌∷◌, arith}
use swirlyc.Domain.{Side}
use swirlyc.Tokeniser.{reset}
use swirlyc.Tokeniser.Split.{tokens, split, tokens-split}
use swirlyc.Order.Quantities.{IsOpen}
use swirlyc.Book.Side
use swirlyc.Book.Side.{BookSide, remove}
use swirlyc.Book.Market
use swirlyc.Book.Market.{MarketBook, side}
use swirlyc.Book.Groups.{IsSide}
use swirlyc.Book.Distinct.{has}
use swirlyc.Book.Whole.{Changes, take_order-Changes, insert_order-Changes, remove_order-Changes}
use swirlyc.Book.Sorted.{insert_sorted}
use swirlyc.Book.Priority.{insert_order-sorted}
use swirlyc.Book.Reduce.{orders_left, revise_order-IsSide, cancel_order-IsSide}
use swirlyc.Serv.Match.{match_loop, context_of, start}
use swirlyc.Serv.Fill.{Fill, match_loop-Fill}
use swirlyc.Examples.Market.{
  cells, book, sessions, ask, offers, offers-IsSide, book-IsBook, bid_away,
}

match_loop-Fill_example :
    Fill
      (context_of cells 1 book 3)
      (0 ∷ [])
      (start 2 sessions)
      (match_loop (context_of cells 1 book 3) (0 ∷ []) (start 2 sessions))
unfolding context_of start
match_loop-Fill_example =
    match_loop-Fill (context_of cells 1 book 3) (0 ∷ []) (start 2 sessions) (omega arith, tt)
      (record { nonneg = omega arith; bounded = omega arith })

take_order-Changes_example :
    Changes Side.sell 0
      (orders_left 0 (pos 4) (cells 0) (side Side.sell book).orders)
      book
      cells
      (Market.take_order 0 (pos 4) 3 (book, cells))
unfolding side has
take_order-Changes_example =
    take_order-Changes cells book 0 Side.sell (pos 4) 3 refl refl book-IsBook

insert_order-Changes_example :
    Changes Side.buy 1
      (insert_sorted cells 1 (side Side.buy book).orders)
      book
      cells
      (Market.insert_order 1 (book, cells))
insert_order-Changes_example =
    insert_order-Changes cells book 1 Side.buy refl (omega arith) (bid_away Side.buy) book-IsBook

remove_order-Changes_example :
    Changes Side.sell 0
      (remove 0 (side Side.sell book).orders)
      book
      cells
      (Market.remove_order 0 (book, cells))
unfolding side has
remove_order-Changes_example = remove_order-Changes cells book 0 Side.sell refl refl book-IsBook

revise_order-IsSide_example :
    let r = Side.revise_order 0 (pos 6) 3 (offers, cells) in
    IsSide r.1 Side.sell r.0 × (r.0.orders ≡ orders_left 0 (pos 10 -ℤ pos 6) ask (0 ∷ []))
unfolding has
revise_order-IsSide_example =
    revise_order-IsSide cells Side.sell 0 offers refl offers-IsSide (pos 6) 3

cancel_order-IsSide_example :
    let r = Side.cancel_order 0 3 (offers, cells) in
    IsSide r.1 Side.sell r.0 × (r.0.orders ≡ remove 0 (0 ∷ []))
unfolding has
cancel_order-IsSide_example = cancel_order-IsSide cells Side.sell 0 offers refl offers-IsSide 3

insert_order-sorted_example :
    (Side.insert_order 1 (offers, cells)).0.orders ≡ insert_sorted cells 1 (0 ∷ [])
insert_order-sorted_example = insert_order-sorted cells Side.sell 1 offers offers-IsSide

ask-IsOpen : IsOpen ask
unfolding ◌+ℤ◌
ask-IsOpen = record { resd_nonneg = omega arith; exec_nonneg = omega arith; split = refl }

tokens-split_example :
    tokens 44 5 (reset 44 (65 ∷ 44 ∷ 44 ∷ 66 ∷ [])) ≡ split 44 (65 ∷ 44 ∷ 44 ∷ 66 ∷ [])
tokens-split_example = tokens-split 44 5 (65 ∷ 44 ∷ 44 ∷ 66 ∷ []) (omega arith)
