-- ===== src/Serv/Opened.antt =====
-- src/fig/Serv.cpp, `matchOrders`: the positions that the matching loop opens.
use swirlyc.Common.{
  ◌≡◌, refl, ◌∙◌, true, Bool-cases, inl, inr, List, [], ◌∷◌, All, All-map, All-append,
}
use swirlyc.Domain.{Lots, Jday, Iden, Cost}
use swirlyc.Text.{Str}
use swirlyc.Order.{Addr}
use swirlyc.Exec
use swirlyc.Exec.{new_exec}
use swirlyc.Session.{TraderSess, lazy_posn, insert_posn}
use swirlyc.Serv.State.{Match, modify_trader}
use swirlyc.Serv.Match.{
  Context, Matching, other_side, new_match, is_over, next_lots, match_order, match_loop,
}
use swirlyc.Serv.Positions.{known, bought, sold, lazy_posn-total}
use swirlyc.Serv.Presence.{
  modify_trader-known, modify_trader-has, modify_trader-opened, lazy_posn-has,
}
use swirlyc.Serv.Booked.{Books, Here}

pub lazy_posn_names : (c : Str) (d : Jday) (t : TraderSess) → (lazy_posn c d t).mnem ≡ t.mnem
unfolding lazy_posn insert_posn
lazy_posn_names c d t = refl

module _ (c : Context) where
  -- A maker has the other side than the taker, and a session.
  abbrev pub IsOther : List TraderSess → Addr → Type 0
  IsOther ts a = ((c.cells a).side ≡ other_side c.taker.side) × (known (c.cells a).trader ts ≡ true)

  abbrev pub BooksHere : Match → Type 0
  BooksHere = Books c.taker.trader c.contr c.settl_day c.taker.side

  abbrev pub HereIn : List TraderSess → Match → Type 0
  HereIn = Here c.taker.trader c.contr c.settl_day c.taker.side

  -- Between two states of the loop: sessions stay, the sums of positions are the same, and each match has the position of
  -- its maker.
  pub record Opens (ts : List TraderSess) (m' : Matching) : Type 0 where
    pub books : All BooksHere m'.matches
    pub here : All (HereIn m'.traders) m'.matches
    pub bought_same : bought (c.contr, c.settl_day) m'.traders ≡ bought (c.contr, c.settl_day) ts
    pub sold_same : sold (c.contr, c.settl_day) m'.traders ≡ sold (c.contr, c.settl_day) ts
    pub still : (mnem : Str) → known mnem ts ≡ true → known mnem m'.traders ≡ true

  new_match-BooksHere :
      (a : Addr) (lots sum : Lots) (sum_cost : Cost) (i j : Iden)
      → (c.cells a).side ≡ other_side c.taker.side
      → BooksHere (new_match c a lots sum sum_cost i j)
  unfolding new_match new_exec Exec.trade Exec.trade_sum
  new_match-BooksHere a lots sum sum_cost i j s = record {
    maker = (c.cells a).trader;
    posn_eq = refl;
    maker_side = s;
    taker_side = refl;
    maker_lots = refl;
    taker_lots = refl;
  }

  match_order-Opens :
      (a : Addr) (ts : List TraderSess) (m : Matching)
      → (c.cells a).side ≡ other_side c.taker.side
      → known (c.cells a).trader m.traders ≡ true
      → Opens ts m
      → Opens ts (match_order c a m)
  unfolding match_order new_match
  match_order-Opens a ts m s k o =
      let f = lazy_posn c.contr c.settl_day in
      let maker = (c.cells a).trader in
      let names = lazy_posn_names c.contr c.settl_day in
      let t = lazy_posn-total maker c.contr c.settl_day (c.contr, c.settl_day) m.traders in
      record {
        books =
            All-append BooksHere m.matches _ o.books
              (new_match-BooksHere a (next_lots c a m) _ _ _ _ s, tt);
        here =
            All-append (HereIn (modify_trader maker f m.traders)) m.matches _
              (All-map (HereIn m.traders) (HereIn (modify_trader maker f m.traders)) m.matches
                (λ x h.
                  modify_trader-has f names maker (c.contr, c.settl_day) x.maker_posn.trader
                    m.traders (λ t g. lazy_posn-has c.contr c.settl_day t) h)
                o.here)
              (
                modify_trader-opened f names maker (c.contr, c.settl_day) m.traders
                    (lazy_posn-has c.contr c.settl_day) k,
                tt,
              );
        bought_same = t.0 ∙ o.bought_same;
        sold_same = t.1 ∙ o.sold_same;
        still = λ mnem h. modify_trader-known f names maker mnem m.traders (o.still mnem h);
      }

  pub match_loop-Opens :
      (os : List Addr) (ts : List TraderSess) (m : Matching)
      → All (IsOther ts) os
      → Opens ts m
      → Opens ts (match_loop c os m)
  unfolding match_loop
  match_loop-Opens [] ts m h o = o
  match_loop-Opens (a ∷ os) ts m h o = elim (Bool-cases (is_over c a m)) [
    | inl e ↦ rw (e, match_loop) o
    | inr e ↦
        rw (e, match_loop)
          (match_loop-Opens os ts (match_order c a m) h.1
            (match_order-Opens a ts m h.0.0 (o.still (c.cells a).trader h.0.1) o))
  ]
