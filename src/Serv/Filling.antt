-- ===== src/Serv/Filling.antt =====
-- src/fig/Serv.cpp, `matchOrders`: when an order is filled.
use swirlyc.Common.{
  pos, ◌+ℤ◌, ◌-ℤ◌, ◌≤ℤ◌, ◌<ℤ◌, ltb_ℤ, eqb_ℤ, min_ℤ, ◌≡◌, refl, true, false, Bool-cases, inl, inr,
  List, [], ◌∷◌, All, All-map, int_laws, arith, subst, eq_of_eqb_ℤ, eqb_ℤ_of_eq, parts_of_eq,
  ltb_ℤ→lt,
}
use swirlyc.Domain.{Lots, Millis}
use swirlyc.Order.{Addr, Cells, done}
use swirlyc.Session.{TraderSess}
use swirlyc.Book.Market.{MarketBook, side}
use swirlyc.Book.Whole.{IsSide-Rests, IsBook-side}
use swirlyc.Serv.Placing.{Pending}
use swirlyc.Serv.Outcome.{match_orders-Matched}
use swirlyc.Serv.Match.{
  Context, Matching, spread, is_over, next_lots, match_order, match_loop, match_orders, context_of,
  other_side, start, trade_taker,
}

-- One round takes all that is left of the taker or all of a maker.
enough_left :
    (s t r x : Lots)
    → pos 0 ≤ℤ x
    → s ≤ℤ t
    → t ≤ℤ s +ℤ (r +ℤ x)
    → (s +ℤ min_ℤ (t -ℤ s) r ≤ℤ t) × (t ≤ℤ s +ℤ min_ℤ (t -ℤ s) r +ℤ x)
enough_left s t r x z le e = elim (Bool-cases (ltb_ℤ r (t -ℤ s))) [
  | inl h ↦
      let l = ltb_ℤ→lt r (t -ℤ s) h in
      rw (h, min_ℤ) (omega (int_laws, l, le, e, z), omega (int_laws, l, le, e, z))
  | inr h ↦ rw (h, min_ℤ) (omega (int_laws, le, e, z), omega (int_laws, le, e, z))
]

module _ (c : Context) where
  -- The lots of the first resting orders that cross with the taker.
  abbrev pub crossing : List Addr → Lots
  crossing [] = pos 0
  crossing (a ∷ os) = elim (ltb_ℤ (pos 0) (spread c.taker (c.cells a) c.direct)) [
    | true ↦ pos 0
    | false ↦ (c.cells a).resd +ℤ crossing os
  ]

  abbrev pub Live : Addr → Type 0
  Live a = pos 0 <ℤ (c.cells a).resd

  crossing_nonneg : (os : List Addr) → All Live os → pos 0 ≤ℤ crossing os
  crossing_nonneg [] h = omega arith
  crossing_nonneg (a ∷ os) h =
      elim (Bool-cases (ltb_ℤ (pos 0) (spread c.taker (c.cells a) c.direct))) [
        | inl e ↦ rw (e, crossing) (omega arith)
        | inr e ↦ rw (e, crossing) (omega (int_laws, h.0, crossing_nonneg os h.1))
      ]

  pub match_loop-filled :
      (os : List Addr) (m : Matching)
      → All Live os
      → m.sum_lots ≤ℤ c.taker.resd
      → c.taker.resd ≤ℤ m.sum_lots +ℤ crossing os
      → (match_loop c os m).sum_lots ≡ c.taker.resd
  unfolding match_loop is_over match_order next_lots
  match_loop-filled [] m h le e = omega (int_laws, le, e)
  match_loop-filled (a ∷ os) m h le e = elim (Bool-cases (eqb_ℤ m.sum_lots c.taker.resd)) [
    | inl g ↦ rw (g, match_loop, is_over) (eq_of_eqb_ℤ m.sum_lots c.taker.resd g)
    | inr g ↦ elim (Bool-cases (ltb_ℤ (pos 0) (spread c.taker (c.cells a) c.direct))) [
      | inl x ↦
          let none_left : crossing (a ∷ os) ≡ pos 0 = rw (x, crossing) refl in
          rw (g, x, match_loop, is_over) (omega (int_laws, le, e, parts_of_eq _ _ none_left))
      | inr x ↦
          let some_left : crossing (a ∷ os) ≡ (c.cells a).resd +ℤ crossing os =
            rw (x, crossing) refl in
          let r =
            enough_left m.sum_lots c.taker.resd (c.cells a).resd (crossing os)
              (crossing_nonneg os h.1) le
              (subst (λ y. c.taker.resd ≤ℤ m.sum_lots +ℤ y) some_left e) in
          rw (g, x, match_loop, is_over) (match_loop-filled os (match_order c a m) h.1 r.0 r.1)
    ]
  ]

module _ (h : Cells) (b : MarketBook) (a : Addr) (ts : List TraderSess) (now : Millis) where
  -- The resting orders that a new order meets.
  abbrev pub opposite : List Addr
  opposite = (side (other_side (h a).side) b).orders

  abbrev found : Matching
  found = match_orders h a b ts now

  sum_filled :
      Pending h b a
      → (h a).resd ≤ℤ crossing (context_of h a b now) opposite
      → found.sum_lots ≡ (h a).resd
  unfolding match_orders start context_of
  sum_filled p e =
      let d = other_side (h a).side in
      match_loop-filled (context_of h a b now) opposite (start b.max_exec_id ts)
        (All-map _ _ opposite (λ x r. r.rests_live)
          (IsSide-Rests h d (side d b) (IsBook-side h b d p.is_book)))
        (omega (int_laws, p.live)) (omega (int_laws, e))

  -- A live order that rests nowhere, in a book that meets its invariant, is filled by matching it where
  -- the first orders of the other side that cross with it have enough lots together.
  pub match_orders-done :
      Pending h b a
      → (h a).resd ≤ℤ crossing (context_of h a b now) opposite
      → done (trade_taker (match_orders h a b ts now) a now h a) ≡ true
  unfolding done
  match_orders-done p e =
      let m =
        match_orders-Matched h b b a ts now p (record { bids_same = refl; offers_same = refl }) in
      let n = parts_of_eq _ _ m.traded.resd_eq in
      let s = parts_of_eq _ _ (sum_filled p e) in
      eqb_ℤ_of_eq (trade_taker found a now h a).resd (pos 0) (omega (int_laws, n, s))
