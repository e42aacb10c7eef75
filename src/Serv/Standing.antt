-- ===== src/Serv/Standing.antt =====
-- src/fig/Serv.cpp, `createOrder`: the book between the insertion of the new order and the commit.
use swirlyc.Common.{
  Bool-cases, ℤ, pos, ◌<ℤ◌, ◌≤ℤ◌, eqb_ℤ, ◌≡◌, refl, sym, ap, ◌∙◌, true, false, List, All, All-map,
  inl, inr, ◌⊎◌, Option, some, subst, arith, [], ◌∷◌, if◌then◌else◌, ltb_ℤ,
}
use swirlyc.Domain.{Side, Millis}
use swirlyc.Order.{Addr, Cells, Order, done, set_level}
use swirlyc.Book.Level.{order_key}
use swirlyc.Book.Side
use swirlyc.Book.Groups.{modify_self}
use swirlyc.Book.Side.{BookSide, remove}
use swirlyc.Book.Distinct.{NotIn}
use swirlyc.Book.Market.{MarketBook, side, alloc_exec_id}
use swirlyc.Book.Market
use swirlyc.Book.Frame.{SameElse}
use swirlyc.Book.Sorted.{insert_sorted}
use swirlyc.Book.Whole.{IsBook, Changes, insert_order-Changes}
use swirlyc.Book.Uncrossed.{
  Clear, AllClear, AllClear-of_IsUncrossed, AllClear-KeepsTicks, IsUncrossed, insert_sorted-All,
}
use swirlyc.Serv.State.{Match, World}
use swirlyc.Serv.Match.{Matching, match_orders, other_side, trade_taker}
use swirlyc.Serv.Commit.{on_book}
use swirlyc.Serv.Fill.{makers}
use swirlyc.Serv.Taking.{AreMakers, orders_after, orders_after-All, orders_after-Agree, book_of}
use swirlyc.Serv.Placing.{Pending, other_side_ne}
use swirlyc.Serv.Outcome.{
  SameSides, side-SameSides, Matched, match_orders-Matched, AreMakers-SameElse, makers-NotIn,
  Pending-SameSides,
}
use swirlyc.Serv.Create.{match_and_place}

-- The order list of the taker's side: as it was if the order is done, and otherwise with the order
-- in its place by the prices of these orders and by time.
abbrev pub Joins : Addr → Cells → List Addr → List Addr → Type 0
Joins a h os os' =
    ((done (h a) ≡ true) × (os' ≡ os)) ⊎ ((done (h a) ≡ false) × (os' ≡ insert_sorted h a os))

-- What stands when the order at a of the book b and the orders h has been matched and placed: the
-- invariant; the other side's orders; the makers, which rest there; and no order of the taker's
-- side crosses one that the makers will leave.
pub record Standing (a : Addr) (b : MarketBook) (h : Cells) (ms : List Match)
    (r : MarketBook × Cells) : Type 0 where
  pub is_book : IsBook r.1 r.0
  pub side_kept : (r.1 a).side ≡ (h a).side
  pub same_else : SameElse a h r.1
  pub here : Joins a r.1 (side (h a).side b).orders (side (h a).side r.0).orders
  pub there : (side (other_side (h a).side) r.0).orders ≡ (side (other_side (h a).side) b).orders
  pub are_makers : AreMakers r.1 (other_side (h a).side) r.0 ms
  pub clear :
      AllClear r.1
        (h a).side
        (side (h a).side r.0).orders
        (orders_after r.1 ms (side (other_side (h a).side) r.0).orders)

-- The residual of an order that is not done.
live_of_not_done : (o : Order) → pos 0 ≤ℤ o.resd → done o ≡ false → pos 0 <ℤ o.resd
unfolding done
live_of_not_done o le e = ground arith

-- An insertion sets the level of its order, and nothing else of it.
insert_order-cells :
    (a : Addr) (b : MarketBook) (h : Cells)
    → (Market.insert_order a (b, h)).1 a ≡ set_level (some (order_key (h a))) (h a)
unfolding Market.insert_order Market.on_side Side.insert_order
insert_order-cells a b h = modify_self a (set_level (some (order_key (h a)))) h

level-resd : (k : Option ℤ) (o : Order) → (set_level k o).resd ≡ o.resd
unfolding set_level
level-resd k o = refl

level-side : (k : Option ℤ) (o : Order) → (set_level k o).side ≡ o.side
unfolding set_level
level-side k o = refl

level-order_key : (k : Option ℤ) (o : Order) → order_key (set_level k o) ≡ order_key o
unfolding order_key set_level
level-order_key k o = refl

-- An insertion reads no more of the orders than their keys.
insert_sorted-keys :
    (h h' : Cells) (a : Addr) (os : List Addr)
    → order_key (h' a) ≡ order_key (h a)
    → All (λ b. order_key (h' b) ≡ order_key (h b)) os
    → insert_sorted h' a os ≡ insert_sorted h a os
insert_sorted-keys h h' a [] e es = refl
insert_sorted-keys h h' a (b ∷ os) e es =
    rw (e, es.0)
      (ap (λ r. if ltb_ℤ (order_key (h a)) (order_key (h b)) then a ∷ b ∷ os else b ∷ r)
        (insert_sorted-keys h h' a os e es.1))

done-resd : (o o' : Order) → o'.resd ≡ o.resd → done o' ≡ done o
unfolding done
done-resd o o' e = ap (λ x. eqb_ℤ x (pos 0)) e

module _ (h : Cells) (b : MarketBook) (a : Addr) (m : Matching) (b' : MarketBook) (h' : Cells)
    (mt : Matched a b h m b' h') (away : (d : Side) → NotIn a (side d b).orders)
    (u : IsUncrossed h b) where
  abbrev own : Side
  own = (h a).side

  same_orders : (d : Side) → (side d b').orders ≡ (side d b).orders
  same_orders d = ap (λ (s : BookSide). s.orders) (side-SameSides d b b' mt.same_sides)

  away_after : (d : Side) → NotIn a (side d b').orders
  away_after d = subst (NotIn a) (sym (same_orders d)) (away d)

  abbrev left : List Addr
  left = orders_after h' m.matches (side (other_side own) b').orders

  -- The orders that were there before stay clear.
  resting_clear : AllClear h' own (side own b').orders left
  resting_clear = AllClear-KeepsTicks h h' own (side own b').orders left mt.traded.ticks_kept (
      subst (λ os. AllClear h own os left) (sym (same_orders own))
        (All-map _ _ (side own b).orders
          (λ x c.
            orders_after-All _ h' m.matches (side (other_side own) b').orders
              (subst (All (λ y. Clear own (h x) (h y))) (sym (same_orders (other_side own))) c))
          (AllClear-of_IsUncrossed h b own (other_side own) (other_side_ne own) u)))

  filled-Standing : done (h' a) ≡ true → Standing a b h m.matches (b', h')
  filled-Standing e = record {
    is_book = mt.is_book;
    side_kept = mt.traded.side_kept;
    same_else = mt.traded.same_else;
    here = inl (e, same_orders own);
    there = same_orders (other_side own);
    are_makers = mt.are_makers;
    clear = resting_clear;
  }

  module _ (e : done (h' a) ≡ false) where
    abbrev placed : MarketBook × Cells
    placed = Market.insert_order a (b', h')

    live : pos 0 <ℤ (h' a).resd
    live = live_of_not_done (h' a) mt.nonneg e

    inserted : Changes own a (insert_sorted h' a (side own b').orders) b' h' placed
    inserted = insert_order-Changes h' b' a own mt.traded.side_kept live (away_after own) mt.is_book

    agree : All (λ x. placed.1 x ≡ h' x) (makers m.matches)
    agree =
        All-map _ _ (makers m.matches) (λ x n. inserted.same_else x n)
          (makers-NotIn h' (other_side own) b' a m.matches (away_after (other_side own))
            mt.are_makers)

    left_eq : orders_after placed.1 m.matches (side (other_side own) placed.0).orders ≡ left
    left_eq =
        ap (orders_after placed.1 m.matches) (inserted.there (other_side own) (other_side_ne own))
        ∙ orders_after-Agree h' placed.1 m.matches (side (other_side own) b').orders agree

    own-Clear : All (λ x. Clear own (h' a) (h' x)) left
    own-Clear = mt.left_clear live

    placed_clear :
        AllClear placed.1 own
          (side own placed.0).orders
          (orders_after placed.1 m.matches (side (other_side own) placed.0).orders)
    placed_clear =
        AllClear-KeepsTicks h' placed.1 own (side own placed.0).orders _ inserted.ticks_kept (
          subst (AllClear h' own (side own placed.0).orders) (sym left_eq) (
            subst (λ os. AllClear h' own os left) (sym inserted.here)
              (insert_sorted-All (λ x. All (λ y. Clear own (h' x) (h' y)) left) h' a
                (side own b').orders own-Clear resting_clear)))

    side_placed : (placed.1 a).side ≡ own
    side_placed =
        ap (λ (o : Order). o.side) (insert_order-cells a b' h')
        ∙ level-side (some (order_key (h' a))) (h' a)
        ∙ mt.traded.side_kept

    -- The keys are those of the orders before the insertion.
    placed_keys :
        insert_sorted placed.1 a (side own b).orders ≡ insert_sorted h' a (side own b).orders
    placed_keys =
        insert_sorted-keys h' placed.1 a (side own b).orders
          (ap order_key (insert_order-cells a b' h')
            ∙ level-order_key (some (order_key (h' a))) (h' a))
          (All-map _ _ (side own b).orders (λ x n. ap order_key (inserted.same_else x n))
            (away own))

    joined : (side own placed.0).orders ≡ insert_sorted placed.1 a (side own b).orders
    joined = inserted.here ∙ ap (insert_sorted h' a) (same_orders own) ∙ sym placed_keys

    still_live : done (placed.1 a) ≡ false
    still_live =
        done-resd (h' a) (placed.1 a) (
          ap (λ (o : Order). o.resd) (insert_order-cells a b' h')
          ∙ level-resd (some (order_key (h' a))) (h' a))
        ∙ e

    unfilled-Standing : Standing a b h m.matches placed
    unfilled-Standing = record {
      is_book = inserted.is_book;
      side_kept = side_placed;
      same_else = λ x n. inserted.same_else x n ∙ mt.traded.same_else x n;
      here = inr (still_live, joined);
      there = inserted.there (other_side own) (other_side_ne own) ∙ same_orders (other_side own);
      are_makers =
          AreMakers-SameElse h' placed.1 (other_side own) b' placed.0 a m.matches inserted.same_else
            (away_after (other_side own)) (inserted.there (other_side own) (other_side_ne own))
            mt.are_makers;
      clear = placed_clear;
    }

alloc_exec_id-SameSides : (b : MarketBook) → SameSides b (alloc_exec_id b)
unfolding alloc_exec_id
alloc_exec_id-SameSides b = record { bids_same = refl; offers_same = refl }

Matched-SameSides :
    (h : Cells) (b b1 : MarketBook) (a : Addr) (m : Matching) (b' : MarketBook) (h' : Cells)
    → SameSides b b1
    → Matched a b1 h m b' h'
    → Matched a b h m b' h'
Matched-SameSides h b b1 a m b' h' s mt = record {
  is_book = mt.is_book;
  same_sides = record {
    bids_same = mt.same_sides.bids_same ∙ s.bids_same;
    offers_same = mt.same_sides.offers_same ∙ s.offers_same;
  };
  traded = mt.traded;
  are_makers = mt.are_makers;
  nonneg = mt.nonneg;
  left_clear = mt.left_clear;
}

-- Matching a live order that rests nowhere in an uncrossed book that meets its invariant, and
-- placing what is left of it, keeps the invariant and the other side's orders. The order joins its
-- side by price and time unless it is done. The makers rest in the other side, and once they are
-- reduced no order of either side crosses.
pub match_and_place-Standing :
    (now : Millis) (a : Addr) (w : World)
    → Pending w.cells w.book a
    → IsUncrossed w.cells w.book
    → Standing a w.book w.cells
        (match_and_place now a w).matches
        (book_of (match_and_place now a w).world)
unfolding match_and_place on_book
match_and_place-Standing now a w p u =
    let b1 = alloc_exec_id w.book in
    let same = alloc_exec_id-SameSides w.book in
    let m = match_orders w.cells a b1 w.traders now in
    let h' = trade_taker m a now w.cells in
    let b2 = record b1 { max_exec_id = m.max_exec_id } in
    let mt : Matched a w.book w.cells m b2 h' = Matched-SameSides w.cells w.book b1 a m b2 h' same (
      match_orders-Matched w.cells b1 b2 a w.traders now
        (Pending-SameSides w.cells w.book b1 a same p)
        (record { bids_same = refl; offers_same = refl })) in
    elim (Bool-cases (done (h' a))) [
      | inl filled ↦
          rw (filled, match_and_place) (filled-Standing w.cells w.book a m b2 h' mt p.away u filled)
      | inr open_ ↦
          rw (open_, match_and_place) (unfilled-Standing w.cells w.book a m b2 h' mt p.away u open_)
    ]
