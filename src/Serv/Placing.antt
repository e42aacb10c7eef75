-- ===== src/Serv/Placing.antt =====
-- src/fig/Serv.cpp, `createOrder` up to the journal: the new order is matched, and what is left of it
-- is placed in the book.
use swirlyc.Common.{
  ℕ, ℤ, pos, ◌-ℤ◌, ◌<ℤ◌, ◌≤ℤ◌, ◌≡◌, ◌≢◌, refl, sym, ap, ◌∙◌, true, List, [], ◌∷◌, ◌++◌, All,
  All-map, All-map₂, All-append_left, List-cases, inl, inr, subst, arith, int_laws, parts_of_eq,
}
use swirlyc.Domain.{Side, Lots, Millis, compose_key}
use swirlyc.Order.{Addr, Cells, Order, modify, trade_sum}
use swirlyc.Session.{TraderSess}
use swirlyc.Book.Level.{order_key}
use swirlyc.Book.Side.{BookSide}
use swirlyc.Book.Distinct.{NotIn, Distinct, Distinct-left, has, has_self, has-append_left}
use swirlyc.Book.Groups.{IsSide, modify_self}
use swirlyc.Book.Frame.{SameElse, KeepsTicks, modify-SameElse, modify-KeepsTicks}
use swirlyc.Book.Market.{MarketBook, side}
use swirlyc.Book.Whole.{IsBook, IsBook-side, IsSide-Rests}
use swirlyc.Book.Uncrossed.{Clear, SortedKeys}
use swirlyc.Serv.Match.{
  Matching, Context, match_orders, context_of, start, other_side, direct_of, trade_taker, spread,
}
use swirlyc.Serv.Fill.{Fill, IsWithin, Stops, makers, match_loop-Fill}
use swirlyc.Serv.Taking.{AreMakers}

pub other_side_ne : (d : Side) → d ≢ other_side d
unfolding other_side
other_side_ne Side.buy e = cc
other_side_ne Side.sell e = cc

-- The orders of a side, each once.
pub IsSide-Distinct : (h : Cells) (d : Side) (s : BookSide) → IsSide h d s → Distinct s.orders
IsSide-Distinct h d s v = subst Distinct (sym v.orders_eq) v.grouped.distinct

-- A new order that is not in the book yet.
pub record Pending (h : Cells) (b : MarketBook) (a : Addr) : Type 0 where
  pub is_book : IsBook h b
  pub away : (d : Side) → NotIn a (side d b).orders
  pub live : pos 0 <ℤ (h a).resd

start-IsWithin :
    (c : Context) (i : ℕ) (ts : List TraderSess) → pos 0 <ℤ c.taker.resd → IsWithin c (start i ts)
unfolding start
start-IsWithin c i ts lt = record { nonneg = omega arith; bounded = omega arith }

-- The matching of a new order is a run of the loop over the whole other side.
pub match_orders-Fill :
    (h : Cells) (b : MarketBook) (a : Addr) (ts : List TraderSess) (now : Millis)
    → Pending h b a
    → Fill
        (context_of h a b now)
        (side (other_side (h a).side) b).orders
        (start b.max_exec_id ts)
        (match_orders h a b ts now)
unfolding match_orders context_of
match_orders-Fill h b a ts now p =
    let d' = other_side (h a).side in
    match_loop-Fill (context_of h a b now) (side d' b).orders (start b.max_exec_id ts)
      (All-map _ _ (side d' b).orders (λ x r. r.rests_live)
        (IsSide-Rests h d' (side d' b) (IsBook-side h b d' p.is_book)))
      (start-IsWithin (context_of h a b now) b.max_exec_id ts p.live)

prefix_has : (xs ys : List Addr) → All (λ a. has a (xs ++ ys) ≡ true) xs
prefix_has xs ys = All-map _ _ xs (λ a m. has-append_left a xs ys m) (has_self xs)

-- The makers of the matches rest in the other side, each once.
pub Fill-AreMakers :
    (c : Context) (h : Cells) (b : MarketBook) (d : Side) (m m' : Matching)
    → IsSide h d (side d b)
    → (f : Fill c (side d b).orders m m') → AreMakers h d b f.added
Fill-AreMakers c h b d m m' v f = record {
  on_side = All-append_left _ (makers f.added) f.left (
      subst (All (λ a. (h a).side ≡ d)) (sym f.in_order)
        (All-map _ _ (side d b).orders (λ a r. r.rests_side) (IsSide-Rests h d (side d b) v)));
  rest =
      subst (λ os. All (λ a. has a os ≡ true) (makers f.added)) f.in_order
        (prefix_has (makers f.added) f.left);
  distinct =
      Distinct-left (makers f.added) f.left
        (subst Distinct (sym f.in_order) (IsSide-Distinct h d (side d b) v));
}

-- What the update does to the taker.
pub record Traded (sum : Lots) (a : Addr) (h h' : Cells) : Type 0 where
  pub same_else : SameElse a h h'
  pub ticks_kept : KeepsTicks h h'
  pub side_kept : (h' a).side ≡ (h a).side
  pub resd_eq : (h' a).resd ≡ (h a).resd -ℤ sum

sub_zero : (x y : ℤ) → y ≡ pos 0 → x ≡ x -ℤ y
sub_zero x y e = omega (int_laws, parts_of_eq _ _ e)

-- Where the update writes, it keeps side and price and takes the sum off the residual.
record Takes (m : Matching) (f : Order → Order) : Type 0 where
  ticks_same : (o : Order) → (f o).ticks ≡ o.ticks
  side_same : (o : Order) → (f o).side ≡ o.side
  resd_less : (o : Order) → (f o).resd ≡ o.resd -ℤ m.sum_lots

trade_sum_fields :
    (m : Matching) (now : Millis)
    → Takes m (trade_sum m.sum_lots m.sum_cost m.last_lots m.last_ticks now)
unfolding trade_sum
trade_sum_fields m now = record {
  ticks_same = λ o. refl;
  side_same = λ o. refl;
  resd_less = λ o. refl;
}

modify-Traded :
    (m : Matching) (a : Addr) (h : Cells) (f : Order → Order)
    → Takes m f
    → Traded m.sum_lots a h (modify a f h)
modify-Traded m a h f t = record {
  same_else = modify-SameElse a f h;
  ticks_kept = modify-KeepsTicks a f h t.ticks_same;
  side_kept = ap (λ (o : Order). o.side) (modify_self a f h) ∙ t.side_same (h a);
  resd_eq = ap (λ (o : Order). o.resd) (modify_self a f h) ∙ t.resd_less (h a);
}

pub trade_taker-Traded :
    (m : Matching) (a : Addr) (now : Millis) (h : Cells)
    → (m.matches ≡ [] → m.sum_lots ≡ pos 0)
    → Traded m.sum_lots a h (trade_taker m a now h)
unfolding trade_taker
trade_taker-Traded m a now h z = elim (List-cases m.matches) [
  | inl e ↦
      rw (e, trade_taker)
        (record {
          same_else = λ b n. refl;
          ticks_kept = λ b. refl;
          side_kept = refl;
          resd_eq = sub_zero (h a).resd m.sum_lots (z e);
        })
  | inr (x, xs, e) ↦
      rw (e, trade_taker)
        (modify-Traded m a h (trade_sum m.sum_lots m.sum_cost m.last_lots m.last_ticks now)
          (trade_sum_fields m now))
]

-- An order of the other side whose price does not cross.
spread-Clear : (d : Side) (o o' : Order) → pos 0 <ℤ spread o o' (direct_of d) → Clear d o o'
unfolding spread direct_of
spread-Clear Side.buy o o' lt = omega (int_laws, lt)
spread-Clear Side.sell o o' lt = omega (int_laws, lt)

key_at : (o : Order) (d : Side) → o.side ≡ d → order_key o ≡ compose_key d o.ticks
unfolding order_key
key_at o d e = ap (λ c. compose_key c o.ticks) e

-- Nor does any later one.
later-Clear :
    (d : Side) (o x y : Order)
    → x.side ≡ other_side d
    → y.side ≡ other_side d
    → order_key x ≤ℤ order_key y
    → Clear d o x
    → Clear d o y
unfolding other_side compose_key
later-Clear Side.buy o x y e e' le c = omega (
  int_laws,
  parts_of_eq _ _ (key_at x Side.sell e),
  parts_of_eq _ _ (key_at y Side.sell e'),
  le,
  c,
)
later-Clear Side.sell o x y e e' le c =
    omega (
      int_laws,
      parts_of_eq _ _ (key_at x Side.buy e),
      parts_of_eq _ _ (key_at y Side.buy e'),
      le,
      c,
    )

-- What the loop leaves of the other side, when the taker is not filled, is clear of the taker.
pub Stops-Clear :
    (h : Cells) (b : MarketBook) (a : Addr) (now : Millis) (left : List Addr)
    → All (λ x. (h x).side ≡ other_side (h a).side) left
    → SortedKeys h left
    → Stops (context_of h a b now) left
    → All (λ x. Clear (h a).side (h a) (h x)) left
unfolding context_of
Stops-Clear h b a now [] e s stops = tt
Stops-Clear h b a now (x ∷ os) e s stops =
    let c : Clear (h a).side (h a) (h x) = spread-Clear (h a).side (h a) (h x) stops in
    (c, All-map₂ _ _ _ os (λ y e' le. later-Clear (h a).side (h a) (h x) (h y) e.0 e' le c) e.1 s.0)
