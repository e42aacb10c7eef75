-- ===== src/Serv/Kept.antt =====
-- src/fig/Serv.cpp, `createOrder`: the theorems on a whole call.
use swirlyc.Common.{
  suc, Bool-cases, pos, ◌<ℤ◌, ◌≡◌, ◌≢◌, refl, sym, ◌∙◌, Bool, List, ◌∷◌, inl, inr, subst, arith,
  Option, some, none,
}
use swirlyc.Domain.{Side, Millis, Jday}
use swirlyc.Text.{Str}
use swirlyc.Exec.{Exec}
use swirlyc.Book.Distinct.{NotIn}
use swirlyc.Book.Market.{side}
use swirlyc.Serv.State.{World}
use swirlyc.Serv.Taking.{book_of}
use swirlyc.Serv.Standing.{Standing, match_and_place-Standing}
use swirlyc.Serv.Safety.{
  Below, IsMarket, IsMarketAt, Allocates-Pending, Allocates-IsUncrossed, Allocates,
  alloc_order-Allocates, orders_same, next-NotIn, Below-suc, commit-book,
}
use swirlyc.Serv.Invariant.{
  match_and_place-next, committed-IsMarketAt, Restored, undo-Restored, Restored-IsMarketAt,
}
use swirlyc.Serv.Create.{
  Placed, NewOrder, Error, alloc_order, match_and_place, commit, undo, create_order, is_expired,
  bad_lots, trades_of,
}

module _ (q : NewOrder) (w : World) (v : IsMarket w) (positive : pos 0 <ℤ q.lots) where
  abbrev allocated : World
  allocated = alloc_order q w

  abbrev placed : Placed
  placed = match_and_place q.now w.next allocated

  writes : Allocates q w allocated
  writes = alloc_order-Allocates q w

  standing : Standing w.next allocated.book allocated.cells placed.matches (book_of placed.world)
  standing =
      match_and_place-Standing q.now w.next allocated
        (Allocates-Pending q w allocated writes v positive)
        (Allocates-IsUncrossed q w allocated writes v)

  away : (d : Side) → NotIn w.next (side d allocated.book).orders
  away d = subst (NotIn w.next) (sym (orders_same q w allocated writes d)) (next-NotIn w v d)

  fresh : (d : Side) → Below (suc w.next) (side d allocated.book).orders
  fresh d =
      subst (Below (suc w.next)) (sym (orders_same q w allocated writes d))
        (Below-suc w.next (side d w.book).orders (v.fresh d))

  next_eq : placed.world.next ≡ suc w.next
  next_eq = match_and_place-next q.now w.next allocated ∙ writes.next_eq

  committed : IsMarket (commit q w.next placed)
  committed =
      let e = commit-book q w.next placed in
      subst (IsMarketAt (book_of (commit q w.next placed))) (sym (e.1 ∙ next_eq)) (
        subst (λ bh. IsMarketAt bh (suc w.next)) (sym e.0)
          (committed-IsMarketAt q.now w.next (suc w.next) allocated.book allocated.cells
            placed.matches (book_of placed.world) standing (omega arith) fresh))

  restored :
      Restored w.next allocated.book allocated.cells (book_of (undo w.next placed.world))
      × ((undo w.next placed.world).next ≡ placed.world.next)
  restored =
      undo-Restored w.next allocated.book allocated.cells placed.matches placed.world standing away

  undone : IsMarket (undo w.next placed.world)
  undone = subst (IsMarketAt (book_of (undo w.next placed.world))) (sym (restored.1 ∙ next_eq)) (
      Restored-IsMarketAt w.next (suc w.next) allocated.book allocated.cells
        (book_of (undo w.next placed.world)) restored.0 away fresh
        (Allocates-IsUncrossed q w allocated writes v))

  undone_orders :
      (d : Side) → (side d (undo w.next placed.world).book).orders ≡ (side d w.book).orders
  undone_orders d = restored.0.orders_eq d ∙ orders_same q w allocated writes d

-- A call of `createOrder` for a positive number of lots keeps the market's invariant, whatever the
-- business day and whether the journal accepts or not: the book is well-formed, no bid is at or
-- above an offer, and the next order's address is free.
pub create_order-IsMarket :
    (bus_day : Millis → Jday) (journ : Str → List Exec → Bool) (q : NewOrder) (w : World)
    → IsMarket w
    → pos 0 <ℤ q.lots
    → IsMarket (create_order bus_day journ q w).0
unfolding create_order
create_order-IsMarket bus_day journ q w v lt =
    elim (Bool-cases (is_expired w.book (bus_day q.now))) [
      | inl expired ↦ rw (expired, create_order) v
      | inr current ↦ elim (Bool-cases (bad_lots q)) [
        | inl bad ↦ rw (current, bad, create_order) v
        | inr good ↦
            let p = placed q w v lt in
            elim (Bool-cases (journ w.book.mnem (p.exec ∷ trades_of p.matches))) [
              | inl stored ↦ rw (current, good, stored, create_order) (committed q w v lt)
              | inr refused ↦ rw (current, good, refused, create_order) (undone q w v lt)
            ]
      ]
    ]

none_ne_some : (e : Error) (o : Option Error) → o ≡ none → o ≢ some e
none_ne_some e o p p' = cc

-- When `createOrder` for a positive number of lots throws in a market that meets its invariant, for
-- whatever reason, the order lists of both sides are as they were.
pub create_order_thrown :
    (bus_day : Millis → Jday) (journ : Str → List Exec → Bool) (q : NewOrder) (w : World)
    (e : Error)
    → IsMarket w
    → pos 0 <ℤ q.lots
    → (create_order bus_day journ q w).1 ≡ some e
    → (d : Side) → (side d (create_order bus_day journ q w).0.book).orders ≡ (side d w.book).orders
unfolding create_order
create_order_thrown bus_day journ q w e v lt thrown d =
    elim (Bool-cases (is_expired w.book (bus_day q.now))) [
      | inl expired ↦ rw (expired, create_order) refl
      | inr current ↦ elim (Bool-cases (bad_lots q)) [
        | inl bad ↦ rw (current, bad, create_order) refl
        | inr good ↦
            let p = placed q w v lt in
            elim (Bool-cases (journ w.book.mnem (p.exec ∷ trades_of p.matches))) [
              | inl stored ↦
                  absurd (none_ne_some e _ (rw (current, good, stored, create_order) refl) thrown)
              | inr refused ↦ rw (current, good, refused, create_order) (undone_orders q w v lt d)
            ]
      ]
    ]
