-- ===== src/Serv/NetZero.antt =====
-- src/fig/Serv.cpp, `createOrder`: what is bought is what is sold.
use swirlyc.Common.{
  pos, ◌+ℤ◌, ◌≡◌, refl, sym, ap, ◌∙◌, Bool, true, false, Bool-cases, inl, inr, List, ◌∷◌, All,
  All-map₂, Option, some, none, subst, +ℤ_zero, ==-refl, ◌==◌,
}
use swirlyc.Domain.{Lots, Jday, Side, Millis}
use swirlyc.Text.{Str}
use swirlyc.Order.{Addr, Order, done, new_order, modify}
use swirlyc.Exec.{Exec}
use swirlyc.Book.Whole.{IsBook-side, IsSide-Rests}
use swirlyc.Book.Market.{side, alloc_exec_id, alloc_order_id}
use swirlyc.Serv.State.{World}
use swirlyc.Serv.Match.{context_of, other_side}
use swirlyc.Serv.Commit.{on_book}
use swirlyc.Serv.Create.{
  NewOrder, Error, Placed, alloc_order, match_and_place, undo, commit, create_order, is_expired,
  bad_lots, trades_of,
}
use swirlyc.Serv.Fill.{total_lots}
use swirlyc.Serv.Safety.{IsMarket, Allocates, alloc_order-Allocates, orders_same, next-NotIn}
use swirlyc.Serv.Positions.{known, bought, sold}
use swirlyc.Serv.Booked.{Moved}
use swirlyc.Serv.Opened.{IsOther}
use swirlyc.Serv.Gains.{context, placed_traders, found-Opens, placed-Moved}

undo_sessions : (a : Addr) (u : World) → (undo a u).traders ≡ u.traders
unfolding undo on_book
undo_sessions a u = elim (Bool-cases (done (u.cells a))) [ inl e ↦ rw e refl | inr e ↦ rw e refl ]

-- The lots that a call trades: those of its matches, or none where it throws.
abbrev pub lots_traded : NewOrder → World → Option Error → Lots
lots_traded q w none = total_lots (match_and_place q.now w.next (alloc_order q w)).matches
lots_traded q w (some e) = pos 0

-- Every order that rests has a session.
abbrev pub AllKnown : World → Type 0
AllKnown w =
    (d : Side) → All (λ x. known (w.cells x).trader w.traders ≡ true) (side d w.book).orders

module _ (q : NewOrder) (w : World) (v : IsMarket w) (all : AllKnown w) where
  abbrev new_world : World
  new_world = alloc_order q w

  writes : Allocates q w new_world
  writes = alloc_order-Allocates q w

  new_trader : (new_world.cells w.next).trader ≡ q.trader
  unfolding alloc_order new_order modify
  new_trader = rw (==-refl w.next) refl

  same_sessions :
      (new_world.traders ≡ w.traders)
      × (new_world.book.contr ≡ w.book.contr)
      × (new_world.book.settl_day ≡ w.book.settl_day)
  unfolding alloc_order alloc_order_id
  same_sessions = (refl, refl, refl)

  others-IsOther :
      All
        (IsOther (context q.now w.next new_world) new_world.traders)
        (side (other_side (new_world.cells w.next).side) new_world.book).orders
  unfolding context_of alloc_order
  others-IsOther =
      let d = other_side (new_world.cells w.next).side in
      subst (All (IsOther (context q.now w.next new_world) new_world.traders))
        (sym (orders_same q w new_world writes d))
        (All-map₂ (λ x. (w.next == x) ≡ false)
          (λ x. ((w.cells x).side ≡ d) × (known (w.cells x).trader w.traders ≡ true)) _
          (side d w.book).orders
          (λ x n o.
            let e = writes.same_else x n in
            (
              ap (λ (u : Order). u.side) e ∙ o.0,
              ap (λ (u : Order). known u.trader w.traders) e ∙ o.1,
            ))
          (next-NotIn w v d)
          (All-map₂ _ (λ x. known (w.cells x).trader w.traders ≡ true) _ (side d w.book).orders
            (λ x r k. (r.rests_side, k))
            (IsSide-Rests w.cells d (side d w.book) (IsBook-side w.cells w.book d v.is_book))
            (all d)))

  abbrev placed : Placed
  placed = match_and_place q.now w.next new_world

  placed-Moves :
      known q.trader w.traders ≡ true
      → Moved q.trader w.book.contr w.book.settl_day
          (new_world.cells w.next).side
          (total_lots placed.matches)
          w.traders
          (commit q w.next placed).traders
  unfolding alloc_order alloc_order_id
  placed-Moves n = placed-Moved q.now w.next new_world q (sym new_trader) n others-IsOther

  undone :
      (bought (w.book.contr, w.book.settl_day) (undo w.next placed.world).traders
        ≡ bought (w.book.contr, w.book.settl_day) w.traders)
      × (sold (w.book.contr, w.book.settl_day) (undo w.next placed.world).traders
          ≡ sold (w.book.contr, w.book.settl_day) w.traders)
  unfolding alloc_order alloc_order_id context_of alloc_exec_id
  undone =
      let o = found-Opens q.now w.next new_world others-IsOther in
      let e = undo_sessions w.next placed.world ∙ placed_traders q.now w.next new_world in
      (
        ap (bought (w.book.contr, w.book.settl_day)) e ∙ o.bought_same,
        ap (sold (w.book.contr, w.book.settl_day)) e ∙ o.sold_same,
      )

module _ (bus_day : Millis → Jday) (journ : Str → List Exec → Bool) (q : NewOrder) (w : World) where
  -- In a market that meets its invariant, where the taker and the owner of every resting order have a
  -- session, a call of createOrder adds the lots that its matches trade to what all sessions together
  -- have bought of the market's contract and settlement day, and the same lots to what they have sold;
  -- a call that throws adds none.
  pub create_order-bought :
      IsMarket w
      → AllKnown w
      → known q.trader w.traders ≡ true
      → (bought (w.book.contr, w.book.settl_day) (create_order bus_day journ q w).0.traders
          ≡ bought (w.book.contr, w.book.settl_day) w.traders
            +ℤ lots_traded q w (create_order bus_day journ q w).1)
        × (sold (w.book.contr, w.book.settl_day) (create_order bus_day journ q w).0.traders
            ≡ sold (w.book.contr, w.book.settl_day) w.traders
              +ℤ lots_traded q w (create_order bus_day journ q w).1)
  unfolding create_order
  create_order-bought v all n =
      let k : Str × Jday = (w.book.contr, w.book.settl_day) in
      let b = sym (+ℤ_zero (bought k w.traders)) in
      let s = sym (+ℤ_zero (sold k w.traders)) in
      elim (Bool-cases (is_expired w.book (bus_day q.now))) [
        | inl e ↦ rw (e, create_order) (b, s)
        | inr e ↦ elim (Bool-cases (bad_lots q)) [
          | inl f ↦ rw (e, f, create_order) (b, s)
          | inr f ↦
              let p = match_and_place q.now w.next (alloc_order q w) in
              elim (Bool-cases (journ w.book.mnem (p.exec ∷ trades_of p.matches))) [
                | inl g ↦
                    let m = placed-Moves q w v all n in
                    rw (e, f, g, create_order) (m.bought_eq, m.sold_eq)
                | inr g ↦ let u = undone q w v all in rw (e, f, g, create_order) (u.0 ∙ b, u.1 ∙ s)
              ]
        ]
      ]
