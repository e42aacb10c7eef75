-- ===== src/Serv/Invariant.antt =====
-- src/fig/Serv.cpp, `createOrder`: every call keeps the invariant of the market.
use swirlyc.Common.{
  ◌<◌, Bool-cases, ltb_ℤ, ◌≡◌, refl, sym, ap, ◌∙◌, true, false, List, [], ◌∷◌, All, inl, inr, subst,
  arith, ==-refl,
}
use mathlib.Core.Bool.{false≢true}
use swirlyc.Domain.{Side, Millis}
use swirlyc.Order.{Addr, Cells, done}
use swirlyc.Book.Level.{order_key}
use swirlyc.Book.Side.{remove}
use swirlyc.Book.Distinct.{NotIn, has}
use swirlyc.Book.Frame.{SameElse}
use swirlyc.Book.Market.{MarketBook, side}
use swirlyc.Book.Market
use swirlyc.Book.Sorted.{insert_sorted}
use swirlyc.Book.Whole.{IsBook, Changes, remove_order-Changes}
use swirlyc.Book.Uncrossed.{
  AllClear, AllClear-KeepsTicks, IsUncrossed, IsUncrossed-of_AllClear, insert_sorted-All,
}
use swirlyc.Serv.State.{Match, World}
use swirlyc.Serv.Match.{other_side}
use swirlyc.Serv.Commit.{on_book}
use swirlyc.Serv.Taking.{Taken, take_orders-Taken, take_orders, orders_after-All, book_of}
use swirlyc.Serv.Placing.{other_side_ne}
use swirlyc.Serv.Standing.{Joins, Standing}
use swirlyc.Serv.Safety.{Below, IsMarketAt, AllClear-SameElse}
use swirlyc.Serv.Create.{match_and_place, undo}

pub match_and_place-next :
    (now : Millis) (a : Addr) (w : World) → (match_and_place now a w).world.next ≡ w.next
unfolding match_and_place on_book
match_and_place-next now a w = ground arith

-- What holds of a side and of the other one holds of either.
either_side {κ} : (P : Side → Type κ) (d d' : Side) → P d → P (other_side d) → P d'
unfolding other_side
either_side P Side.buy Side.buy p p' = p
either_side P Side.buy Side.sell p p' = p'
either_side P Side.sell Side.buy p p' = p'
either_side P Side.sell Side.sell p p' = p

Joins-All :
    (P : Addr → Type 0) (a : Addr) (h : Cells) (os os' : List Addr)
    → Joins a h os os'
    → P a
    → All P os
    → All P os'
Joins-All P a h os os' (inl (e, same)) p ps = subst (All P) (sym same) ps
Joins-All P a h os os' (inr (e, joined)) p ps =
    subst (All P) (sym joined) (insert_sorted-All P h a os p ps)

module _ (now : Millis) (a n : Addr) (b : MarketBook) (h : Cells) (ms : List Match)
    (r : MarketBook × Cells) (st : Standing a b h ms r) (below : a < n)
    (fresh : (d : Side) → Below n (side d b).orders) where
  abbrev own : Side
  own = (h a).side

  abbrev taken : MarketBook × Cells
  taken = take_orders now ms r

  taking : Taken (other_side own) ms r.0 r.1 taken
  taking = take_orders-Taken now (other_side own) ms r.0 r.1 st.are_makers st.is_book

  own_same : (side own taken.0).orders ≡ (side own r.0).orders
  own_same = taking.there own (λ e. other_side_ne own (sym e))

  clear_after :
      AllClear taken.1 own (side own taken.0).orders (side (other_side own) taken.0).orders
  clear_after = AllClear-KeepsTicks r.1 taken.1 own (side own taken.0).orders _ taking.ticks_kept (
      subst (λ os. AllClear r.1 own os (side (other_side own) taken.0).orders) (sym own_same)
        (subst (AllClear r.1 own (side own r.0).orders) (sym taking.here) st.clear))

  fresh_after : (d : Side) → Below n (side d taken.0).orders
  fresh_after d =
      either_side (λ x. Below n (side x taken.0).orders) own d
        (subst (Below n) (sym own_same) (
          Joins-All (λ x. x < n) a r.1 (side own b).orders (side own r.0).orders st.here below
            (fresh own)))
        (subst (Below n) (sym taking.here) (
          orders_after-All (λ x. x < n) r.1 ms (side (other_side own) r.0).orders
            (subst (Below n) (sym st.there) (fresh (other_side own)))))

  -- The commit of a placed order.
  pub committed-IsMarketAt : IsMarketAt taken n
  committed-IsMarketAt = record {
    is_book = taking.is_book;
    uncrossed =
        IsUncrossed-of_AllClear taken.1 taken.0 own (other_side own) (other_side_ne own)
          clear_after;
    fresh = fresh_after;
  }

remove-insert_sorted :
    (h : Cells) (a : Addr) (os : List Addr) → NotIn a os → remove a (insert_sorted h a os) ≡ os
unfolding remove
remove-insert_sorted h a [] n = ground (arith, ==-refl a)
remove-insert_sorted h a (x ∷ os) n =
    elim (Bool-cases (ltb_ℤ (order_key (h a)) (order_key (h x)))) [
      | inl lt ↦ rw (lt, ==-refl a) refl
      | inr ge ↦ rw (ge, n.0) (ap (◌∷◌ x) (remove-insert_sorted h a os n.1))
    ]

has-insert_sorted : (h : Cells) (a : Addr) (os : List Addr) → has a (insert_sorted h a os) ≡ true
unfolding has
has-insert_sorted h a [] = ground (arith, ==-refl a)
has-insert_sorted h a (x ∷ os) = ground (arith, ==-refl a, has-insert_sorted h a os)

-- The lists of both sides are those of the book b again.
pub record Restored (a : Addr) (b : MarketBook) (h : Cells) (r : MarketBook × Cells) : Type 0 where
  pub is_book : IsBook r.1 r.0
  pub same_else : SameElse a h r.1
  pub orders_eq : (d : Side) → (side d r.0).orders ≡ (side d b).orders

module _ (a : Addr) (b : MarketBook) (h : Cells) (ms : List Match) (r : MarketBook × Cells)
    (st : Standing a b h ms r) (away : (d : Side) → NotIn a (side d b).orders) where
  done_own : done (r.1 a) ≡ true → (side (h a).side r.0).orders ≡ (side (h a).side b).orders
  done_own e = elim st.here [
    | inl (e', same) ↦ same
    | inr (e', j) ↦ absurd (false≢true (sym e' ∙ e))
  ]

  open_own :
      done (r.1 a) ≡ false
      → (has a (side (h a).side r.0).orders ≡ true)
        × (remove a (side (h a).side r.0).orders ≡ (side (h a).side b).orders)
  open_own e = elim st.here [
    | inl (e', same) ↦ absurd (false≢true (sym e ∙ e'))
    | inr (e', j) ↦ (
      ap (has a) j ∙ has-insert_sorted r.1 a (side (h a).side b).orders,
      ap (remove a) j ∙ remove-insert_sorted r.1 a (side (h a).side b).orders (away (h a).side),
    )
  ]

  kept-Restored : done (r.1 a) ≡ true → Restored a b h r
  kept-Restored e = record {
    is_book = st.is_book;
    same_else = st.same_else;
    orders_eq = λ d.
        either_side (λ x. (side x r.0).orders ≡ (side x b).orders) (h a).side d (done_own e)
          st.there;
  }

  removed-Restored : done (r.1 a) ≡ false → Restored a b h (Market.remove_order a r)
  removed-Restored e =
      let own = (h a).side in
      let c : Changes own a (remove a (side own r.0).orders) r.0 r.1 (Market.remove_order a r) =
        remove_order-Changes r.1 r.0 a own st.side_kept (open_own e).0 st.is_book in
      record {
        is_book = c.is_book;
        same_else = λ x n. c.same_else x n ∙ st.same_else x n;
        orders_eq = λ d.
            either_side (λ x. (side x (Market.remove_order a r).0).orders ≡ (side x b).orders) own d
              (c.here ∙ (open_own e).1) (c.there (other_side own) (other_side_ne own) ∙ st.there);
      }

pub undo-Restored :
    (a : Addr) (b : MarketBook) (h : Cells) (ms : List Match) (w : World)
    → Standing a b h ms (book_of w)
    → ((d : Side) → NotIn a (side d b).orders)
    → Restored a b h (book_of (undo a w)) × ((undo a w).next ≡ w.next)
unfolding undo on_book
undo-Restored a b h ms w st away = elim (Bool-cases (done (w.cells a))) [
  | inl e ↦ rw (e, undo) (kept-Restored a b h ms (book_of w) st away e, refl)
  | inr e ↦ rw (e, undo) (removed-Restored a b h ms (book_of w) st away e, refl)
]

pub Restored-IsMarketAt :
    (a n : Addr) (b : MarketBook) (h : Cells) (r : MarketBook × Cells)
    → Restored a b h r
    → ((d : Side) → NotIn a (side d b).orders)
    → ((d : Side) → Below n (side d b).orders)
    → IsUncrossed h b
    → IsMarketAt r n
unfolding side
Restored-IsMarketAt a n b h r s away fresh u = record {
  is_book = s.is_book;
  uncrossed =
      subst (λ os. AllClear r.1 Side.buy os r.0.offer_side.orders) (sym (s.orders_eq Side.buy))
        (subst (AllClear r.1 Side.buy b.bid_side.orders) (sym (s.orders_eq Side.sell)) (
          AllClear-SameElse h r.1 a Side.buy b.bid_side.orders b.offer_side.orders s.same_else
            (away Side.buy) (away Side.sell) u));
  fresh = λ d. subst (Below n) (sym (s.orders_eq d)) (fresh d);
}
