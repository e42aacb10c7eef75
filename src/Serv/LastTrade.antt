-- ===== src/Serv/LastTrade.antt =====
-- src/fig/Serv.cpp, `matchOrders`: the taker's order after matching and its last trade.
use swirlyc.Common.{
  Bool-cases, ◌≡◌, ◌≢◌, refl, sym, ap, subst, ◌∙◌, List, [], ◌∷◌, ◌++◌, Option, none, some, inl,
  inr, List-cases,
}
use swirlyc.Domain.{Millis}
use swirlyc.Order.{Addr, Cells, Order, trade_sum}
use swirlyc.Exec
use swirlyc.Exec.{Exec, new_exec}
use swirlyc.Session.{TraderSess}
use swirlyc.Book.Market.{MarketBook, side}
use swirlyc.Book.Groups.{modify_self}
use swirlyc.Serv.State.{Match}
use swirlyc.Serv.Match.{
  Context, Matching, new_match, is_over, match_order, match_loop, match_orders, start, context_of,
  other_side, trade_taker,
}

-- The last match.
abbrev pub last : List Match → Option Match
last [] = none
last (m ∷ []) = some m
last (m ∷ n ∷ ms) = last (n ∷ ms)

last-append : (ms : List Match) (x : Match) → last (ms ++ x ∷ []) ≡ some x
last-append [] x = refl
last-append (m ∷ []) x = refl
last-append (m ∷ n ∷ ms) x = last-append (n ∷ ms) x

abbrev or_else : Match → Option Match → Match
or_else d none = d
or_else d (some m) = m

none_ne_some : (x : Match) (o : Option Match) → o ≡ none → o ≢ some x
none_ne_some x o p p' = cc

-- An execution that states the quantities of an order.
pub record Tells (e : Exec) (o : Order) : Type 0 where
  pub resd_told : e.resd ≡ o.resd
  pub exec_told : e.exec ≡ o.exec
  pub cost_told : e.cost ≡ o.cost
  pub lots_told : e.last_lots ≡ o.last_lots
  pub ticks_told : e.last_ticks ≡ o.last_ticks
  pub state_told : e.state ≡ o.state

-- What the taker becomes when the sums of m are written to it.
abbrev sums : Context → Matching → Order
sums c m = trade_sum m.sum_lots m.sum_cost m.last_lots m.last_ticks c.now c.taker

abbrev Ends : Context → Matching → Type 0
Ends c m = (x : Match) → last m.matches ≡ some x → Tells x.taker_trade (sums c m)

new_match-Tells :
    (c : Context) (a : Addr) (m : Matching) (x : Match)
    → last (match_order c a m).matches ≡ some x
    → Tells x.taker_trade (sums c (match_order c a m))
unfolding match_order new_match new_exec Exec.trade_sum trade_sum
new_match-Tells c a m x e =
    subst (λ (y : Match). Tells y.taker_trade (sums c (match_order c a m)))
      (ap (or_else x) (sym (last-append m.matches _) ∙ e))
      (record {
        resd_told = refl;
        exec_told = refl;
        cost_told = refl;
        lots_told = refl;
        ticks_told = refl;
        state_told = refl;
      })

match_loop-Ends :
    (c : Context) (os : List Addr) (m : Matching) → Ends c m → Ends c (match_loop c os m)
unfolding match_loop
match_loop-Ends c [] m v = v
match_loop-Ends c (a ∷ os) m v = elim (Bool-cases (is_over c a m)) [
  | inl over ↦ rw (over, match_loop) v
  | inr on ↦ rw (on, match_loop) (match_loop-Ends c os (match_order c a m) (new_match-Tells c a m))
]

none_last : (ms : List Match) (x : Match) → ms ≡ [] → last ms ≢ some x
none_last ms x e l = none_ne_some x (last ms) (ap last e) l

trade_taker_self :
    (m : Matching) (a : Addr) (now : Millis) (h : Cells) (x : Match)
    → last m.matches ≡ some x
    → trade_taker m a now h a ≡ trade_sum m.sum_lots m.sum_cost m.last_lots m.last_ticks now (h a)
unfolding trade_taker
trade_taker_self m a now h x l = elim (List-cases m.matches) [
  | inl e ↦ absurd (none_last m.matches x e l)
  | inr (y, ys, e) ↦
      rw (e, trade_taker)
        (modify_self a (trade_sum m.sum_lots m.sum_cost m.last_lots m.last_ticks now) h)
]

-- After a matching that found something, the order that was matched has the residual, executed
-- lots, cost, last lots, last price and state that the taker's trade of the last match states.
pub match_orders-Tells :
    (h : Cells) (b : MarketBook) (a : Addr) (ts : List TraderSess) (now : Millis) (x : Match)
    → last (match_orders h a b ts now).matches ≡ some x
    → Tells x.taker_trade (trade_taker (match_orders h a b ts now) a now h a)
unfolding match_orders context_of start
match_orders-Tells h b a ts now x l =
    let c = context_of h a b now in
    let m = match_orders h a b ts now in
    subst (Tells x.taker_trade) (sym (trade_taker_self m a now h x l)) (
      match_loop-Ends c (side (other_side (h a).side) b).orders (start b.max_exec_id ts)
        (λ y e. absurd (none_last [] y refl e)) x l)
