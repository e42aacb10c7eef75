-- ===== src/Serv/Taking.antt =====
-- src/fig/Serv.cpp, `commitMatches`: what the commit does to the book.
use swirlyc.Common.{
  ◌==◌, Bool-cases, ltb_ℤ, ◌≡◌, ◌≢◌, refl, ap, ◌∙◌, true, false, List, [], ◌∷◌, ◌++◌, All, All-map,
  All-map₂, ==-flip, inl, inr, Option-cases, arith,
}
use swirlyc.Domain.{Side, Lots, Millis}
use swirlyc.Text.{Str}
use swirlyc.Order.{Addr, Cells, Order}
use swirlyc.Book.Side.{remove}
use swirlyc.Book.Distinct.{NotIn, Distinct, has, All-remove, has-remove_ne}
use swirlyc.Book.Reduce.{orders_left}
use swirlyc.Book.Market.{MarketBook, side}
use swirlyc.Book.Market
use swirlyc.Book.Frame.{KeepsTicks}
use swirlyc.Book.Whole.{IsBook, Changes, take_order-Changes}
use swirlyc.Serv.State.{Match, World}
use swirlyc.Serv.Commit.{commit_match, commit_matches, on_book, on_traders, on_resp, add_resp_trade}
use swirlyc.Serv.Match.{Context}
use swirlyc.Serv.Fill.{makers, IsFull}

-- The commit's part that works on the book.
unfoldable pub take_orders : Millis → List Match → MarketBook × Cells → MarketBook × Cells
take_orders now [] bh = bh
take_orders now (m ∷ ms) bh = take_orders now ms (Market.take_order m.maker_order m.lots now bh)

abbrev pub book_of : World → MarketBook × Cells
book_of w = (w.book, w.cells)

add_resp_trade-book : (e : _) (w : World) → book_of (add_resp_trade e w) ≡ book_of w
unfolding add_resp_trade on_traders
add_resp_trade-book e w = elim (Option-cases w.resp.posn) [
  | inl p ↦ rw (p, add_resp_trade)
  | inr (x, p) ↦ rw (p, add_resp_trade)
]

commit_match-book :
    (taker : Str) (now : Millis) (m : Match) (w : World)
    → book_of (commit_match taker now m w) ≡ Market.take_order m.maker_order m.lots now (book_of w)
unfolding commit_match on_book on_traders on_resp
commit_match-book taker now m w = add_resp_trade-book m.taker_trade _

-- The commit does to the book what its calls of `takeOrder` do.
pub commit_matches-book :
    (taker : Str) (now : Millis) (ms : List Match) (w : World)
    → book_of (commit_matches taker now ms w) ≡ take_orders now ms (book_of w)
unfolding commit_matches take_orders
commit_matches-book taker now [] w = refl
commit_matches-book taker now (m ∷ ms) w =
    commit_matches-book taker now ms (commit_match taker now m w)
    ∙ ap (take_orders now ms) (commit_match-book taker now m w)

-- The order list of the makers' side afterwards.
abbrev pub orders_after : Cells → List Match → List Addr → List Addr
orders_after h [] os = os
orders_after h (m ∷ ms) os =
    orders_after h ms (orders_left m.maker_order m.lots (h m.maker_order) os)

-- The makers rest in side d, each once.
pub record AreMakers (h : Cells) (d : Side) (b : MarketBook) (ms : List Match) : Type 0 where
  pub on_side : All (λ a. (h a).side ≡ d) (makers ms)
  pub rest : All (λ a. has a (side d b).orders ≡ true) (makers ms)
  pub distinct : Distinct (makers ms)

orders_left-has :
    (a b : Addr) (lots : Lots) (o : Order) (os : List Addr)
    → (a == b) ≡ false
    → has b os ≡ true
    → has b (orders_left a lots o os) ≡ true
orders_left-has a b lots o os n m = elim (Bool-cases (ltb_ℤ lots o.resd)) [
  | inl more ↦ rw more m
  | inr all ↦ rw all (has-remove_ne a b os n m)
]

orders_left-All {κ} :
    (P : Addr → Type κ) (a : Addr) (lots : Lots) (o : Order) (os : List Addr)
    → All P os
    → All P (orders_left a lots o os)
orders_left-All P a lots o os h = elim (Bool-cases (ltb_ℤ lots o.resd)) [
  | inl more ↦ rw more h
  | inr all ↦ rw all (All-remove P a os h)
]

-- The commit takes orders away and adds none.
pub orders_after-All {κ} :
    (P : Addr → Type κ) (h : Cells) (ms : List Match) (os : List Addr)
    → All P os
    → All P (orders_after h ms os)
orders_after-All P h [] os p = p
orders_after-All P h (m ∷ ms) os p =
    orders_after-All P h ms _ (orders_left-All P m.maker_order m.lots (h m.maker_order) os p)

first_full :
    (c : Context) (m : Match) (os : List Addr)
    → IsFull c m
    → orders_left m.maker_order m.lots (c.cells m.maker_order) (m.maker_order ∷ os) ≡ os
unfolding remove
first_full c m os f = ground arith

-- Makers that were filled in full are gone, and the orders behind them stay.
pub orders_after_full :
    (c : Context) (ms : List Match) (left : List Addr)
    → All (IsFull c) ms
    → orders_after c.cells ms (makers ms ++ left) ≡ left
orders_after_full c [] left f = refl
orders_after_full c (m ∷ ms) left f =
    ap (orders_after c.cells ms) (first_full c m (makers ms ++ left) f.0)
    ∙ orders_after_full c ms left f.1

pub orders_after-Agree :
    (h h' : Cells) (ms : List Match) (os : List Addr)
    → All (λ a. h' a ≡ h a) (makers ms)
    → orders_after h' ms os ≡ orders_after h ms os
orders_after-Agree h h' [] os e = refl
orders_after-Agree h h' (m ∷ ms) os e =
    orders_after-Agree h h' ms _ e.1
    ∙ ap (λ o. orders_after h ms (orders_left m.maker_order m.lots o os)) e.0

-- What the commit does to a book.
pub record Taken (d : Side) (ms : List Match) (b : MarketBook) (h : Cells) (r : MarketBook × Cells)
    : Type 0 where
  pub is_book : IsBook r.1 r.0
  pub same_else : (a : Addr) → NotIn a (makers ms) → r.1 a ≡ h a
  pub ticks_kept : KeepsTicks h r.1
  pub here : (side d r.0).orders ≡ orders_after h ms (side d b).orders
  pub there : (d' : Side) → d ≢ d' → (side d' r.0).orders ≡ (side d' b).orders

-- Reducing makers of one side, each of which rests there once, keeps the book's invariant, the
-- other side's orders and all other orders.
pub take_orders-Taken :
    (now : Millis) (d : Side) (ms : List Match) (b : MarketBook) (h : Cells)
    → AreMakers h d b ms
    → IsBook h b
    → Taken d ms b h (take_orders now ms (b, h))
unfolding take_orders
take_orders-Taken now d [] b h am v = record {
  is_book = v;
  same_else = λ a n. refl;
  ticks_kept = λ x. refl;
  here = refl;
  there = λ d' n. refl;
}
take_orders-Taken now d (m ∷ ms) b h am v =
    let a = m.maker_order in
    let r = Market.take_order a m.lots now (b, h) in
    let c : Changes d a (orders_left a m.lots (h a) (side d b).orders) b h r =
      take_order-Changes h b a d m.lots now am.on_side.0 am.rest.0 v in
    let agree : All (λ x. r.1 x ≡ h x) (makers ms) =
      All-map _ _ (makers ms) (λ x n. c.same_else x n) am.distinct.0 in
    let am' : AreMakers r.1 d r.0 ms = record {
      on_side =
          All-map₂ _ _ _ (makers ms) (λ x e s. ap (λ (o : Order). o.side) e ∙ s) agree am.on_side.1;
      rest =
          All-map₂ _ _ _ (makers ms)
            (λ x n e. ap (has x) c.here ∙ orders_left-has a x m.lots (h a) (side d b).orders n e)
            am.distinct.0 am.rest.1;
      distinct = am.distinct.1;
    } in
    let t : Taken d ms r.0 r.1 (take_orders now ms r) =
      take_orders-Taken now d ms r.0 r.1 am' c.is_book in
    record {
      is_book = t.is_book;
      same_else = λ x n. t.same_else x n.1 ∙ c.same_else x (==-flip x a n.0);
      ticks_kept = λ x. t.ticks_kept x ∙ c.ticks_kept x;
      here =
          t.here
          ∙ orders_after-Agree h r.1 ms (side d r.0).orders agree
          ∙ ap (orders_after h ms) c.here;
      there = λ d' n. t.there d' n ∙ c.there d' n;
    }
