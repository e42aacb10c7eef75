-- ===== src/Serv/Safety.antt =====
-- src/fig/Serv.cpp, `createOrder`: the invariant of a market that every call keeps, whether it
-- commits, throws before the order is allocated, or fails in the journal.
use swirlyc.Common.{
  ℕ, suc, ◌<◌, ◌==◌, ==-refl, parts_of_eq, pos, ◌<ℤ◌, ◌≡◌, refl, sym, ap, ◌∙◌, false, List, [], ◌∷◌,
  All, All-map, All-map₂, inl, inr, subst, arith, Option-cases,
}
use swirlyc.Domain.{Side, Millis}
use swirlyc.Text.{Str}
use swirlyc.Order.{Addr, Cells, modify, new_order}
use swirlyc.Exec.{Exec}
use swirlyc.Book.Side.{BookSide}
use swirlyc.Book.Distinct.{NotIn}
use swirlyc.Book.Frame.{SameElse}
use swirlyc.Book.Market.{MarketBook, side, alloc_order_id}
use swirlyc.Book.Whole.{IsBook}
use swirlyc.Book.Uncrossed.{Clear, AllClear, IsUncrossed}
use swirlyc.Serv.State.{Match, World}
use swirlyc.Serv.Commit.{on_book, on_traders, on_resp, add_resp_trade, commit_match, commit_matches}
use swirlyc.Serv.Taking.{take_orders, book_of, commit_matches-book}
use swirlyc.Serv.Placing.{Pending}
use swirlyc.Serv.Outcome.{SameSides, side-SameSides, IsBook-SameElse}
use swirlyc.Serv.Create.{Placed, NewOrder, alloc_order, open_posn, commit}

-- All orders of a list stand below the address n.
abbrev pub Below : Addr → List Addr → Type 0
Below n os = All (λ x. x < n) os

-- A market whose book meets its invariant and is not crossed, and whose next order is new to it.
pub record IsMarketAt (bh : MarketBook × Cells) (n : Addr) : Type 0 where
  pub is_book : IsBook bh.1 bh.0
  pub uncrossed : IsUncrossed bh.1 bh.0
  pub fresh : (d : Side) → Below n (side d bh.0).orders

abbrev pub IsMarket : World → Type 0
IsMarket w = IsMarketAt (book_of w) w.next

pub ne_of_lt : (x n : ℕ) → x < n → (n == x) ≡ false
ne_of_lt x n lt = ground arith

pub Below-NotIn : (n : Addr) (os : List Addr) → Below n os → NotIn n os
Below-NotIn n os lt = All-map _ _ os (λ x l. ne_of_lt x n l) lt

pub Below-suc : (n : Addr) (os : List Addr) → Below n os → Below (suc n) os
Below-suc n os lt = All-map _ _ os (λ x l. omega arith) lt

-- A write to an order that is in neither list.
pub AllClear-SameElse :
    (h h' : Cells) (a : Addr) (d : Side) (os os' : List Addr)
    → SameElse a h h'
    → NotIn a os
    → NotIn a os'
    → AllClear h d os os'
    → AllClear h' d os os'
AllClear-SameElse h h' a d os os' e n n' u =
    All-map₂ _ _ _ os
      (λ x nx us.
        All-map₂ _ _ _ os'
          (λ y ny c.
            subst (λ o. Clear d o (h' y)) (sym (e x nx))
              (subst (λ o. Clear d (h x) o) (sym (e y ny)) c))
          n' us)
      n u

IsUncrossed-SameElse :
    (h h' : Cells) (b b' : MarketBook) (a : Addr)
    → SameSides b b'
    → SameElse a h h'
    → ((d : Side) → NotIn a (side d b).orders)
    → IsUncrossed h b
    → IsUncrossed h' b'
unfolding side
IsUncrossed-SameElse h h' b b' a s e n u =
    subst (λ x. AllClear h' Side.buy x.orders b'.offer_side.orders) (sym s.bids_same)
      (subst (λ x. AllClear h' Side.buy b.bid_side.orders x.orders) (sym s.offers_same)
        (AllClear-SameElse h h' a Side.buy _ _ e (n Side.buy) (n Side.sell) u))

-- The allocation writes to a free cell only.
pub record Allocates (q : NewOrder) (w w' : World) : Type 0 where
  pub same_sides : SameSides w.book w'.book
  pub same_else : SameElse w.next w.cells w'.cells
  pub resd_eq : (w'.cells w.next).resd ≡ q.lots
  pub side_eq : (w'.cells w.next).side ≡ q.side
  pub next_eq : w'.next ≡ suc w.next

pub alloc_order-Allocates : (q : NewOrder) (w : World) → Allocates q w (alloc_order q w)
unfolding alloc_order alloc_order_id new_order modify
alloc_order-Allocates q w = record {
  same_sides = record { bids_same = refl; offers_same = refl };
  same_else = λ b n. rw n refl;
  resd_eq = rw (==-refl w.next) refl;
  side_eq = rw (==-refl w.next) refl;
  next_eq = refl;
}

pub next-NotIn : (w : World) → IsMarket w → (d : Side) → NotIn w.next (side d w.book).orders
next-NotIn w v d = Below-NotIn w.next (side d w.book).orders (v.fresh d)

pub orders_same :
    (q : NewOrder) (w w' : World)
    → Allocates q w w'
    → (d : Side) → (side d w'.book).orders ≡ (side d w.book).orders
orders_same q w w' l d =
    ap (λ (s : BookSide). s.orders) (side-SameSides d w.book w'.book l.same_sides)

-- The new order, before it is matched.
pub Allocates-Pending :
    (q : NewOrder) (w w' : World)
    → Allocates q w w'
    → IsMarket w
    → pos 0 <ℤ q.lots
    → Pending w'.cells w'.book w.next
Allocates-Pending q w w' l v lt = record {
  is_book =
      IsBook-SameElse w.cells w'.cells w.book w'.book w.next l.same_sides l.same_else
        (next-NotIn w v) v.is_book;
  away = λ d. subst (NotIn w.next) (sym (orders_same q w w' l d)) (next-NotIn w v d);
  live = omega (arith, lt, parts_of_eq _ _ l.resd_eq);
}

pub Allocates-IsUncrossed :
    (q : NewOrder) (w w' : World) → Allocates q w w' → IsMarket w → IsUncrossed w'.cells w'.book
Allocates-IsUncrossed q w w' l v =
    IsUncrossed-SameElse w.cells w'.cells w.book w'.book w.next l.same_sides l.same_else
      (next-NotIn w v) v.uncrossed

-- What the commit does besides the book leaves the book, the orders and the next address alone.
add_resp_trade-next : (e : Exec) (w : World) → (add_resp_trade e w).next ≡ w.next
unfolding add_resp_trade on_traders
add_resp_trade-next e w = elim (Option-cases w.resp.posn) [
  | inl p ↦ rw (p, add_resp_trade)
  | inr (x, p) ↦ rw (p, add_resp_trade)
]

commit_match-next :
    (taker : Str) (now : Millis) (m : Match) (w : World)
    → (commit_match taker now m w).next ≡ w.next
unfolding commit_match on_book on_traders on_resp
commit_match-next taker now m w = add_resp_trade-next m.taker_trade _

commit_matches-next :
    (taker : Str) (now : Millis) (ms : List Match) (w : World)
    → (commit_matches taker now ms w).next ≡ w.next
unfolding commit_matches
commit_matches-next taker now [] w = refl
commit_matches-next taker now (m ∷ ms) w =
    commit_matches-next taker now ms (commit_match taker now m w) ∙ commit_match-next taker now m w

open_posn-book :
    (trader : Str) (ms : List Match) (w : World)
    → (book_of (open_posn trader ms w) ≡ book_of w) × ((open_posn trader ms w).next ≡ w.next)
unfolding open_posn on_traders on_resp
open_posn-book trader [] w = (refl, refl)
open_posn-book trader (m ∷ ms) w = (refl, refl)

pub commit-book :
    (q : NewOrder) (a : Addr) (p : Placed)
    → (book_of (commit q a p) ≡ take_orders q.now p.matches (book_of p.world))
      × ((commit q a p).next ≡ p.world.next)
unfolding commit on_traders on_resp
commit-book q a p =
    let o = open_posn-book q.trader p.matches p.world in
    (
      commit_matches-book q.trader q.now p.matches _ ∙ ap (take_orders q.now p.matches) o.0,
      commit_matches-next q.trader q.now p.matches _ ∙ o.1,
    )
