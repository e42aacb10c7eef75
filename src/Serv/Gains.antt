-- ===== src/Serv/Gains.antt =====
-- src/fig/Serv.cpp, `createOrder`: what placing an order and committing it make of the positions.
use swirlyc.Common.{
  ◌+ℤ◌, ◌≡◌, refl, sym, ap, ◌∙◌, Bool, true, false, List, All, subst, if◌then◌else◌,
}
use swirlyc.Domain.{Jday, Side, Millis}
use swirlyc.Text.{Str}
use swirlyc.Order.{Addr, Cells, done}
use swirlyc.Session.{TraderSess}
use swirlyc.Book.Side
use swirlyc.Book.Side.{BookSide}
use swirlyc.Book.Market.{MarketBook, side, alloc_exec_id, alloc_order_id}
use swirlyc.Book.Market
use swirlyc.Serv.State.{World}
use swirlyc.Serv.Match.{Context, Matching, match_orders, start, context_of, other_side, trade_taker}
use swirlyc.Serv.Commit.{on_book}
use swirlyc.Serv.Create.{NewOrder, Placed, match_and_place, commit}
use swirlyc.Serv.Fill.{total_lots}
use swirlyc.Serv.Positions.{known}
use swirlyc.Serv.Booked.{Books, Here, Moved}
use swirlyc.Serv.Opened.{IsOther, Opens, match_loop-Opens}
use swirlyc.Serv.Conserved.{commit-Moved}

-- A book keeps its contract and its settlement day when an order is inserted.
on_side_contr :
    (d : Side) (f : BookSide × Cells → BookSide × Cells) (b : MarketBook) (h : Cells)
    → ((Market.on_side d f (b, h)).0.contr ≡ b.contr)
      × ((Market.on_side d f (b, h)).0.settl_day ≡ b.settl_day)
unfolding Market.on_side Market.set_side
on_side_contr Side.buy f b h = (refl, refl)
on_side_contr Side.sell f b h = (refl, refl)

-- The order is placed, or it is done.
kept_sessions :
    (b : Bool) (a : Addr) (u : World)
    → (if b then u else on_book (Market.insert_order a) u).traders ≡ u.traders
unfolding on_book
kept_sessions true a u = refl
kept_sessions false a u = refl

kept_contr :
    (b : Bool) (a : Addr) (u : World)
    → ((if b then u else on_book (Market.insert_order a) u).book.contr ≡ u.book.contr)
      × ((if b then u else on_book (Market.insert_order a) u).book.settl_day ≡ u.book.settl_day)
unfolding on_book Market.insert_order
kept_contr true a u = (refl, refl)
kept_contr false a u = on_side_contr (u.cells a).side (Side.insert_order a) u.book u.cells

same_side : (d : Side) (b : MarketBook) → side d (alloc_exec_id b) ≡ side d b
unfolding side alloc_exec_id
same_side Side.buy b = refl
same_side Side.sell b = refl

-- The commit, with the contract, the day and the sessions that it finds.
commit_as :
    (q : NewOrder) (a : Addr) (d : Side) (p : Placed) (c : Str) (y : Jday) (ts : List TraderSess)
    → p.world.book.contr ≡ c
    → p.world.book.settl_day ≡ y
    → p.world.traders ≡ ts
    → known q.trader ts ≡ true
    → All (Books q.trader c y d) p.matches
    → All (Here q.trader c y d ts) p.matches
    → Moved q.trader c y d (total_lots p.matches) ts (commit q a p).traders
commit_as q a d p c y ts e f g =
    subst
      (λ c.
        known q.trader ts ≡ true
        → All (Books q.trader c y d) p.matches
        → All (Here q.trader c y d ts) p.matches
        → Moved q.trader c y d (total_lots p.matches) ts (commit q a p).traders)
      e
      (subst
        (λ y.
          known q.trader ts ≡ true
          → All (Books q.trader p.world.book.contr y d) p.matches
          → All (Here q.trader p.world.book.contr y d ts) p.matches
          → Moved q.trader p.world.book.contr y d (total_lots p.matches) ts (commit q a p).traders)
        f
        (subst
          (λ ts.
            known q.trader ts ≡ true
            → All (Books q.trader p.world.book.contr p.world.book.settl_day d) p.matches
            → All (Here q.trader p.world.book.contr p.world.book.settl_day d ts) p.matches
            → Moved q.trader p.world.book.contr p.world.book.settl_day d (total_lots p.matches) ts
                (commit q a p).traders)
          g (commit-Moved q a d p.matches p.exec p.world)))

-- What placing an order makes of the sessions.
module _ (now : Millis) (a : Addr) (w : World) where
  abbrev book : MarketBook
  book = alloc_exec_id w.book

  abbrev pub context : Context
  context = context_of w.cells a book now

  abbrev pub found : Matching
  found = match_orders w.cells a book w.traders now

  abbrev matched : World
  matched = record w {
    book = record book { max_exec_id = found.max_exec_id };
    cells = trade_taker found a now w.cells;
    traders = found.traders;
  }

  placed_matches : (match_and_place now a w).matches ≡ found.matches
  unfolding match_and_place
  placed_matches = refl

  pub placed_traders : (match_and_place now a w).world.traders ≡ found.traders
  unfolding match_and_place
  placed_traders = kept_sessions (done (matched.cells a)) a matched

  placed_contr :
      ((match_and_place now a w).world.book.contr ≡ w.book.contr)
      × ((match_and_place now a w).world.book.settl_day ≡ w.book.settl_day)
  unfolding match_and_place alloc_exec_id
  placed_contr = kept_contr (done (matched.cells a)) a matched

  pub found-Opens :
      All (IsOther context w.traders) (side (other_side (w.cells a).side) w.book).orders
      → Opens context w.traders found
  unfolding match_orders start alloc_exec_id context_of
  found-Opens h =
      match_loop-Opens context (side (other_side (w.cells a).side) book).orders w.traders
        (start book.max_exec_id w.traders)
        (subst (λ (s : BookSide). All (IsOther context w.traders) s.orders)
          (sym (same_side (other_side (w.cells a).side) w.book)) h)
        (record { books = tt; here = tt; bought_same = refl; sold_same = refl; still = λ m i. i })

  -- The sums after the commit.
  pub placed-Moved :
      (q : NewOrder)
      → q.trader ≡ (w.cells a).trader
      → known q.trader w.traders ≡ true
      → All (IsOther context w.traders) (side (other_side (w.cells a).side) w.book).orders
      → Moved q.trader w.book.contr w.book.settl_day
          (w.cells a).side
          (total_lots (match_and_place now a w).matches)
          w.traders
          (commit q a (match_and_place now a w)).traders
  unfolding match_and_place
  placed-Moved q e n h =
      let o = found-Opens h in
      let d = (w.cells a).side in
      let p = match_and_place now a w in
      let m : Moved q.trader w.book.contr w.book.settl_day d (total_lots p.matches) found.traders
          (commit q a p).traders =
        commit_as q a d p w.book.contr w.book.settl_day found.traders placed_contr.0 placed_contr.1
          placed_traders (o.still q.trader n)
          (subst (λ t. All (Books t w.book.contr w.book.settl_day d) found.matches) (sym e) o.books)
          o.here in
      record {
        bought_eq = m.bought_eq ∙ ap (λ x. x +ℤ total_lots p.matches) o.bought_same;
        sold_eq = m.sold_eq ∙ ap (λ x. x +ℤ total_lots p.matches) o.sold_same;
      }
