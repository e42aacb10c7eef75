-- ===== src/Serv/Trades.antt =====
-- src/fig/Serv.cpp, `newMatch`: the two trades of a match, and the identifiers that they take.
use swirlyc.Common.{
  ◌+◌, ◌*◌, Bool-cases, ◌-ℤ◌, ◌≡◌, refl, sym, ◌∙◌, List, [], ◌∷◌, ◌++◌, All, append_assoc,
  append-nil, arith, inl, inr, length,
}
use swirlyc.Domain.{Iden, Lots, Role}
use swirlyc.Order.{Addr}
use swirlyc.Exec
use swirlyc.Exec.{Exec, new_exec}
use swirlyc.Serv.State.{Match}
use swirlyc.Serv.Match.{Context, Matching, new_match, is_over, match_order, match_loop}

-- The trades of a match tell the same story from both sides: each names the other, both are of the
-- match's lots at the maker's price, and the maker's one states what is left of the maker.
pub record IsTrade (c : Context) (m : Match) : Type 0 where
  pub maker_names : m.maker_trade.match_id ≡ m.taker_trade.id
  pub taker_names : m.taker_trade.match_id ≡ m.maker_trade.id
  pub maker_lots : m.maker_trade.last_lots ≡ m.lots
  pub taker_lots : m.taker_trade.last_lots ≡ m.lots
  pub maker_ticks : m.maker_trade.last_ticks ≡ (c.cells m.maker_order).ticks
  pub taker_ticks : m.taker_trade.last_ticks ≡ (c.cells m.maker_order).ticks
  pub maker_cpty : m.maker_trade.cpty ≡ m.taker_trade.trader
  pub taker_cpty : m.taker_trade.cpty ≡ m.maker_trade.trader
  pub maker_left : m.maker_trade.resd ≡ (c.cells m.maker_order).resd -ℤ m.lots
  pub maker_role : m.maker_trade.role ≡ Role.maker
  pub taker_role : m.taker_trade.role ≡ Role.taker

-- The trades are numbered on from identifier i, the maker's one before the taker's one.
abbrev pub Numbered : Iden → List Match → Type 0
Numbered i [] = Unit {0}
Numbered i (m ∷ ms) = (m.maker_trade.id ≡ i + 1) × (m.taker_trade.id ≡ i + 2) × Numbered (i + 2) ms

-- What the loop adds between the states m and m'.
pub record Trades (c : Context) (m m' : Matching) : Type 0 where
  pub added : List Match
  pub matches_eq : m'.matches ≡ m.matches ++ added
  pub trades : All (IsTrade c) added
  pub numbered : Numbered m.max_exec_id added
  pub last_id : m'.max_exec_id ≡ m.max_exec_id + 2 * length added

new_match-IsTrade :
    (c : Context) (a : Addr) (lots sum : Lots) (sum_cost : _) (i j : Iden)
    → IsTrade c (new_match c a lots sum sum_cost i j)
unfolding new_match new_exec Exec.trade Exec.trade_sum
new_match-IsTrade c a lots sum sum_cost i j = record {
  maker_names = refl;
  taker_names = refl;
  maker_lots = refl;
  taker_lots = refl;
  maker_ticks = refl;
  taker_ticks = refl;
  maker_cpty = refl;
  taker_cpty = refl;
  maker_left = refl;
  maker_role = refl;
  taker_role = refl;
}

no-Trades : (c : Context) (m : Matching) → Trades c m m
no-Trades c m = record {
  added = [];
  matches_eq = sym (append-nil m.matches);
  trades = tt;
  numbered = tt;
  last_id = omega arith;
}

round-Trades :
    (c : Context) (a : Addr) (m m' : Matching) → Trades c (match_order c a m) m' → Trades c m m'
unfolding match_order new_match new_exec Exec.trade Exec.trade_sum
round-Trades c a m m' t = record {
  added = _ ∷ t.added;
  matches_eq = t.matches_eq ∙ append_assoc m.matches (_ ∷ []) t.added;
  trades = (new_match-IsTrade c a _ _ _ _ _, t.trades);
  numbered = (refl, refl, t.numbered);
  last_id = omega (arith, t.last_id);
}

-- Every match that the loop adds has two trades that agree with each other, and their identifiers
-- are consecutive from the book's greatest one, which ends at the last of them.
pub match_loop-Trades :
    (c : Context) (os : List Addr) (m : Matching) → Trades c m (match_loop c os m)
unfolding match_loop
match_loop-Trades c [] m = no-Trades c m
match_loop-Trades c (a ∷ os) m = elim (Bool-cases (is_over c a m)) [
  | inl over ↦ rw (over, match_loop) (no-Trades c m)
  | inr on ↦ rw (on, match_loop) (round-Trades c a m _ (match_loop-Trades c os (match_order c a m)))
]
