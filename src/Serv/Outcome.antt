-- ===== src/Serv/Outcome.antt =====
-- src/fig/Serv.cpp, `createOrder`: what the steps up to the journal make of the book.
use swirlyc.Common.{
  ℕ, ◌==◌, pos, ◌<ℤ◌, ◌≤ℤ◌, ◌≡◌, refl, sym, ap, ap₂, ◌∙◌, false, List, [], All, All-map, All-map₂,
  All-append_right, subst, int_laws, parts_of_eq, zero_+ℤ,
}
use swirlyc.Domain.{Side, Millis}
use swirlyc.Order.{Addr, Cells, Order}
use swirlyc.Session.{TraderSess}
use swirlyc.Book.Side.{BookSide}
use swirlyc.Book.Distinct.{NotIn, has, All-has}
use swirlyc.Book.Groups.{IsSide}
use swirlyc.Book.Frame.{SameElse}
use swirlyc.Book.Market.{MarketBook, side}
use swirlyc.Book.Whole.{IsBook, IsBook-side, IsSide-SameElse, IsSide-Rests}
use swirlyc.Book.Uncrossed.{Clear, Clear-ticks, SortedKeys, SortedKeys-right, IsSide-SortedKeys}
use swirlyc.Serv.State.{Match}
use swirlyc.Serv.Match.{Matching, Context, match_orders, context_of, start, other_side, trade_taker}
use swirlyc.Serv.Fill.{Fill, makers, total_lots}
use swirlyc.Serv.Taking.{AreMakers, orders_after, orders_after-Agree, orders_after_full}
use swirlyc.Serv.Placing.{
  Pending, Traded, trade_taker-Traded, match_orders-Fill, Fill-AreMakers, Stops-Clear,
}

-- Two books with the same sides.
pub record SameSides (b b' : MarketBook) : Type 0 where
  pub bids_same : b'.bid_side ≡ b.bid_side
  pub offers_same : b'.offer_side ≡ b.offer_side

pub side-SameSides : (d : Side) (b b' : MarketBook) → SameSides b b' → side d b' ≡ side d b
unfolding side
side-SameSides Side.buy b b' s = s.bids_same
side-SameSides Side.sell b b' s = s.offers_same

-- An order that rests in neither side may be written to.
pub IsBook-SameElse :
    (h h' : Cells) (b b' : MarketBook) (a : Addr)
    → SameSides b b'
    → SameElse a h h'
    → ((d : Side) → NotIn a (side d b).orders)
    → IsBook h b
    → IsBook h' b'
unfolding side
IsBook-SameElse h h' b b' a s e n v = record {
  bids =
      subst (IsSide h' Side.buy) (sym s.bids_same)
        (IsSide-SameElse h h' Side.buy b.bid_side a e (n Side.buy) v.bids);
  offers =
      subst (IsSide h' Side.sell) (sym s.offers_same)
        (IsSide-SameElse h h' Side.sell b.offer_side a e (n Side.sell) v.offers);
}

pub Pending-SameSides :
    (h : Cells) (b b' : MarketBook) (a : Addr) → SameSides b b' → Pending h b a → Pending h b' a
Pending-SameSides h b b' a s p = record {
  is_book = IsBook-SameElse h h b b' a s (λ x n. refl) p.away p.is_book;
  away = λ d.
      subst (NotIn a) (sym (ap (λ (s : BookSide). s.orders) (side-SameSides d b b' s))) (p.away d);
  live = p.live;
}

-- What the matches are worth together, when they start from nothing.
Fill-sum :
    (c : Context) (os : List Addr) (i : ℕ) (ts : List TraderSess) (m : Matching)
    → (f : Fill c os (start i ts) m) → m.matches ≡ f.added
unfolding start
Fill-sum c os i ts m f = f.matches_eq

no_matches-sum :
    (c : Context) (os : List Addr) (i : ℕ) (ts : List TraderSess) (m : Matching)
    → Fill c os (start i ts) m
    → m.matches ≡ []
    → m.sum_lots ≡ pos 0
unfolding start
no_matches-sum c os i ts m f e = f.lots_eq ∙ zero_+ℤ _ ∙ ap total_lots (sym f.matches_eq ∙ e)

pub makers-NotIn :
    (h : Cells) (d : Side) (b : MarketBook) (a : Addr) (ms : List Match)
    → NotIn a (side d b).orders
    → AreMakers h d b ms
    → NotIn a (makers ms)
makers-NotIn h d b a ms n am =
    All-map _ _ (makers ms) (λ x m. All-has (λ y. (a == y) ≡ false) x (side d b).orders n m) am.rest

-- A write to an order that is not in side d leaves the makers there alone.
pub AreMakers-SameElse :
    (h h' : Cells) (d : Side) (b b' : MarketBook) (a : Addr) (ms : List Match)
    → SameElse a h h'
    → NotIn a (side d b).orders
    → (side d b').orders ≡ (side d b).orders
    → AreMakers h d b ms
    → AreMakers h' d b' ms
AreMakers-SameElse h h' d b b' a ms e n o am = record {
  on_side =
      All-map₂ _ _ _ (makers ms) (λ x n' s. ap (λ (o : Order). o.side) (e x n') ∙ s)
        (makers-NotIn h d b a ms n am) am.on_side;
  rest = All-map _ _ (makers ms) (λ x m. ap (has x) o ∙ m) am.rest;
  distinct = am.distinct;
}

-- What matching the order at a and updating it makes of the book b and the orders h: the makers
-- rest in the other side, and what they leave of it does not cross the taker if that is not filled.
pub record Matched (a : Addr) (b : MarketBook) (h : Cells) (m : Matching) (b' : MarketBook)
    (h' : Cells) : Type 0 where
  pub is_book : IsBook h' b'
  pub same_sides : SameSides b b'
  pub traded : Traded m.sum_lots a h h'
  pub are_makers : AreMakers h' (other_side (h a).side) b' m.matches
  pub nonneg : pos 0 ≤ℤ (h' a).resd
  pub left_clear :
      pos 0 <ℤ (h' a).resd
      → All
          (λ x. Clear (h a).side (h' a) (h' x))
          (orders_after h' m.matches (side (other_side (h a).side) b').orders)

module _ (h : Cells) (b b' : MarketBook) (a : Addr) (ts : List TraderSess) (now : Millis)
    (p : Pending h b a) (s : SameSides b b') where
  abbrev taken_side : Side
  taken_side = (h a).side

  abbrev others : List Addr
  others = (side (other_side (h a).side) b).orders

  abbrev found : Matching
  found = match_orders h a b ts now

  fill : Fill (context_of h a b now) others (start b.max_exec_id ts) found
  fill = match_orders-Fill h b a ts now p

  written : Traded found.sum_lots a h (trade_taker found a now h)
  written =
      trade_taker-Traded found a now h
        (no_matches-sum (context_of h a b now) others b.max_exec_id ts found fill)

  found-AreMakers : AreMakers h (other_side taken_side) b found.matches
  found-AreMakers =
      subst (AreMakers h (other_side taken_side) b)
        (sym (Fill-sum (context_of h a b now) others b.max_exec_id ts found fill))
        (Fill-AreMakers (context_of h a b now) h b (other_side taken_side) (start b.max_exec_id ts)
          found (IsBook-side h b (other_side taken_side) p.is_book) fill)

  not_filled : pos 0 <ℤ (trade_taker found a now h a).resd → found.sum_lots <ℤ (h a).resd
  not_filled lt = omega (int_laws, lt, parts_of_eq _ _ written.resd_eq)

  -- The rest of the other side, in the store as it was.
  left-Clear_before :
      found.sum_lots <ℤ (h a).resd
      → All (λ x. Clear taken_side (h a) (h x)) (orders_after h found.matches others)
  unfolding context_of
  left-Clear_before lt =
      let c = context_of h a b now in
      let left_eq : orders_after h found.matches others ≡ fill.left =
        ap₂ (orders_after h) (Fill-sum c others b.max_exec_id ts found fill) (sym fill.in_order)
        ∙ orders_after_full c fill.added fill.left (fill.exhausted lt).0 in
      subst (All (λ x. Clear taken_side (h a) (h x))) (sym left_eq) (
        Stops-Clear h b a now fill.left
          (All-append_right _ (makers fill.added) fill.left (
            subst (All (λ x. (h x).side ≡ other_side taken_side)) (sym fill.in_order) (
              All-map _ _ others (λ x r. r.rests_side)
                (IsSide-Rests h (other_side taken_side) (side (other_side taken_side) b)
                  (IsBook-side h b (other_side taken_side) p.is_book)))))
          (SortedKeys-right h (makers fill.added) fill.left (
            subst (SortedKeys h) (sym fill.in_order) (
              IsSide-SortedKeys h (other_side taken_side) (side (other_side taken_side) b)
                (IsBook-side h b (other_side taken_side) p.is_book))))
          (fill.exhausted lt).1)

  others_same : (side (other_side taken_side) b').orders ≡ others
  others_same = ap (λ (x : BookSide). x.orders) (side-SameSides (other_side taken_side) b b' s)

  orders_after_written :
      orders_after
        (trade_taker found a now h)
        found.matches
        (side (other_side taken_side) b').orders
      ≡ orders_after h found.matches others
  orders_after_written =
      ap (orders_after (trade_taker found a now h) found.matches) others_same
      ∙ orders_after-Agree h (trade_taker found a now h) found.matches others (
          All-map _ _ (makers found.matches) (λ x n. written.same_else x n)
            (makers-NotIn h (other_side taken_side) b a found.matches
              (p.away (other_side taken_side)) found-AreMakers))

  left-Clear_after :
      pos 0 <ℤ (trade_taker found a now h a).resd
      → All
          (λ x. Clear taken_side (trade_taker found a now h a) (trade_taker found a now h x))
          (orders_after
            (trade_taker found a now h)
            found.matches
            (side (other_side taken_side) b').orders)
  left-Clear_after lt =
      subst
        (All (λ x. Clear taken_side (trade_taker found a now h a) (trade_taker found a now h x)))
        (sym orders_after_written)
        (All-map _ _ (orders_after h found.matches others)
          (λ x c.
            Clear-ticks taken_side (h a) (h x) (trade_taker found a now h a)
              (trade_taker found a now h x) (written.ticks_kept a) (written.ticks_kept x) c)
          (left-Clear_before (not_filled lt)))

  -- Matching a live order that rests nowhere keeps the book's invariant. Its makers rest in the other
  -- side, each once, it is not overfilled, and when it is not filled, then what the makers leave of
  -- the other side does not cross it.
  pub match_orders-Matched : Matched a b h found b' (trade_taker found a now h)
  unfolding context_of
  match_orders-Matched = record {
    is_book = IsBook-SameElse h _ b b' a s written.same_else p.away p.is_book;
    same_sides = s;
    traded = written;
    are_makers =
        AreMakers-SameElse h _ (other_side taken_side) b b' a found.matches written.same_else
          (p.away (other_side taken_side)) others_same found-AreMakers;
    nonneg = omega (int_laws, parts_of_eq _ _ written.resd_eq, fill.within.bounded);
    left_clear = left-Clear_after;
  }
