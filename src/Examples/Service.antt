-- ===== src/Examples/Service.antt =====
-- The theorems on the service: a bid for four lots meets the resting offer.
use swirlyc.Common.{
  ◌-ℤ◌, ◌+ℤ◌, ◌*ℤ◌, ℕ, zero, suc, pos, ◌≡◌, refl, List, [], ◌∷◌, none, some, Bool, true, false,
  arith, All, ◌<◌, ◌≢◌, ap,
}
use swirlyc.Domain.{cost, Side, Millis, Jday}
use swirlyc.Text.{Str, str_eq}
use swirlyc.Order.{Addr, Cells}
use swirlyc.Exec.{Exec}
use swirlyc.Book.Distinct.{has}
use swirlyc.Book.Market.{side}
use swirlyc.Serv.State.{Match, World}
use swirlyc.Serv.Match.{new_match, context_of, match_orders, trade_taker, start}
use swirlyc.Serv.Taking.{AreMakers, Taken, take_orders, take_orders-Taken, book_of}
use swirlyc.Serv.Outcome.{Matched, match_orders-Matched}
use swirlyc.Serv.Standing.{Standing, match_and_place-Standing}
use swirlyc.Serv.Safety.{IsMarket}
use swirlyc.Serv.Ranked.{Ranked, create_order-Ranked}
use swirlyc.Serv.Kept.{create_order-IsMarket, create_order_thrown}
use swirlyc.Serv.Create.{NewOrder, Error, create_order, match_and_place, is_expired, bad_lots}
use swirlyc.Serv.Match.{match_loop, other_side, spread, is_over, match_order, next_lots}
use swirlyc.Serv.NetZero.{AllKnown, lots_traded, create_order-bought}
use swirlyc.Serv.Positions.{known, bought, sold}
use swirlyc.Serv.Filling.{match_orders-done}
use swirlyc.Serv.LastTrade.{Tells, last, match_orders-Tells}
use swirlyc.Serv.Trades.{Trades, match_loop-Trades}
use swirlyc.Session.{TraderSess, insert_order}
use swirlyc.Session.RefIndex.{find_ref, insert_order_not_found}
use swirlyc.Order.{Order, done}
use swirlyc.Examples.Market.{
  session, ask, cells, book, sessions, goshea, eurusd, book-IsBook, bid-Pending,
}

abbrev world : Addr → World
world next = record {
  cells = cells;
  next = next;
  traders = sessions;
  book = book;
  resp = record { orders = []; execs = []; posn = none };
}

abbrev four_lots : NewOrder
four_lots = record {
  trader = goshea;
  ref = [];
  side = Side.buy;
  lots = pos 4;
  ticks = pos 101;
  min_lots = pos 0;
  now = 3;
}

abbrev today : Millis → Jday
today now = 1

abbrev refuse : Str → List Exec → Bool
refuse mnem execs = false

world-IsMarket : IsMarket (world 1)
unfolding side
world-IsMarket = record {
  is_book = book-IsBook;
  uncrossed = tt;
  fresh = λ d. elim d as (λ x. All (λ a. a < 1) (side x book).orders) [
    | Side.buy ↦ tt
    | Side.sell ↦ (omega arith, tt)
  ];
}

-- The first match of the bid.
abbrev first_match : Match
first_match = new_match (context_of cells 1 book 3) 0 (pos 4) (pos 4) (pos 400) 3 4

first_match-AreMakers : AreMakers cells Side.sell book (first_match ∷ [])
unfolding new_match side has
first_match-AreMakers = record { on_side = (refl, tt); rest = (refl, tt); distinct = (tt, tt) }

create_order-Ranked_example :
    let r = (create_order today refuse four_lots (world 1)).0 in
    Ranked Side.sell r.cells (side Side.sell r.book).orders
create_order-Ranked_example =
    create_order-Ranked today refuse four_lots (world 1) world-IsMarket (omega arith) Side.sell

create_order-IsMarket_example : IsMarket (create_order today refuse four_lots (world 1)).0
create_order-IsMarket_example =
    create_order-IsMarket today refuse four_lots (world 1) world-IsMarket (omega arith)

refused : (create_order today refuse four_lots (world 1)).1 ≡ some Error.journal_failed
unfolding create_order is_expired bad_lots
refused = refl

create_order_thrown_example :
    (side Side.sell (create_order today refuse four_lots (world 1)).0.book).orders
    ≡ (side Side.sell book).orders
create_order_thrown_example =
    create_order_thrown today refuse four_lots (world 1) Error.journal_failed world-IsMarket
      (omega arith) refused Side.sell

match_and_place-Standing_example :
    Standing 1 book cells
      (match_and_place 3 1 (world 2)).matches
      (book_of (match_and_place 3 1 (world 2)).world)
match_and_place-Standing_example = match_and_place-Standing 3 1 (world 2) bid-Pending tt

match_orders-Matched_example :
    Matched 1 book cells
      (match_orders cells 1 book sessions 3)
      book
      (trade_taker (match_orders cells 1 book sessions 3) 1 3 cells)
match_orders-Matched_example =
    match_orders-Matched cells book book 1 sessions 3 bid-Pending
      (record { bids_same = refl; offers_same = refl })

take_orders-Taken_example :
    Taken Side.sell (first_match ∷ []) book cells (take_orders 3 (first_match ∷ []) (book, cells))
take_orders-Taken_example =
    take_orders-Taken 3 Side.sell (first_match ∷ []) book cells first_match-AreMakers book-IsBook

match_loop-Trades_example :
    Trades
      (context_of cells 1 book 3)
      (start 2 sessions)
      (match_loop (context_of cells 1 book 3) (0 ∷ []) (start 2 sessions))
match_loop-Trades_example =
    match_loop-Trades (context_of cells 1 book 3) (0 ∷ []) (start 2 sessions)

-- Two orders that differ in their references only.
abbrev with_ref : Str → Order
with_ref ref = record ask { request = record (ask.request) { ref = ref } }

abbrev two_refs : Cells
two_refs zero = with_ref (65 ∷ [])
two_refs (suc a) = with_ref (66 ∷ [])

abbrev indexed : TraderSess
indexed = record (session goshea) { ref_idx = 0 ∷ [] }

abbrev first : Str → ℕ
first [] = 0
first (c ∷ s) = c

other_ref : (two_refs 1).ref ≢ (two_refs 0).ref
other_ref e = absurd (omega (arith, ap (λ (s : Str). first s) e))

insert_order_not_found_example :
    find_ref two_refs (66 ∷ []) (insert_order two_refs 1 indexed).ref_idx ≡ none
insert_order_not_found_example =
    insert_order_not_found two_refs 1 0 indexed refl refl refl other_ref

bid_matches : last (match_orders cells 1 book sessions 3).matches ≡ some first_match
unfolding match_orders match_loop is_over match_order next_lots new_match context_of start ◌-ℤ◌ ◌+ℤ◌
    cost ◌*ℤ◌
bid_matches = refl

match_orders-Tells_example :
    Tells first_match.taker_trade (trade_taker (match_orders cells 1 book sessions 3) 1 3 cells 1)
match_orders-Tells_example = match_orders-Tells cells book 1 sessions 3 first_match bid_matches

abbrev accept : Str → List Exec → Bool
accept mnem execs = true

all_known : AllKnown (world 1)
unfolding side str_eq
all_known d =
    elim d as (λ x. All (λ a. known (cells a).trader sessions ≡ true) (side x book).orders) [
      | Side.buy ↦ tt
      | Side.sell ↦ (refl, tt)
    ]

create_order-bought_example :
    (bought (eurusd, 0) (create_order today accept four_lots (world 1)).0.traders
      ≡ bought (eurusd, 0) sessions
        +ℤ lots_traded four_lots (world 1) (create_order today accept four_lots (world 1)).1)
    × (sold (eurusd, 0) (create_order today accept four_lots (world 1)).0.traders
        ≡ sold (eurusd, 0) sessions
          +ℤ lots_traded four_lots (world 1) (create_order today accept four_lots (world 1)).1)
unfolding str_eq
create_order-bought_example =
    create_order-bought today accept four_lots (world 1) world-IsMarket all_known refl

match_orders-done_example :
    done (trade_taker (match_orders cells 1 book sessions 3) 1 3 cells 1) ≡ true
unfolding side other_side context_of spread ◌-ℤ◌ ◌+ℤ◌
match_orders-done_example = match_orders-done cells book 1 sessions 3 bid-Pending (omega arith)
