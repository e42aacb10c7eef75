-- ===== src/Serv/Fill.antt =====
-- src/fig/Serv.cpp, `matchOrders`: how much the loop fills, at which prices, and when it ends.
use swirlyc.Common.{
  ℕ, ◌+◌, Bool-cases, ℤ, pos, ◌+ℤ◌, ◌-ℤ◌, ◌≤ℤ◌, ◌<ℤ◌, eqb_ℤ, eq_of_eqb_ℤ, ltb_ℤ→lt, le_of_not_ltb_ℤ,
  min_ℤ, ◌≡◌, refl, sym, ap, ◌∙◌, Bool, true, false, ◌||◌, List, [], ◌∷◌, ◌++◌, All, arith, inl,
  inr, ◌⊎◌, int_laws, parts_of_eq, append_assoc, append-nil, +ℤ_zero, +ℤ_assoc,
}
use swirlyc.Domain.{Lots, Cost, cost}
use swirlyc.Order.{Addr, Cells}
use swirlyc.Serv.State.{Match}
use swirlyc.Serv.Match.{
  Matching, Context, spread, is_over, next_lots, new_match, match_order, match_loop,
}

-- All the makers have something left.
abbrev pub Live : Cells → List Addr → Type 0
Live h os = All (λ a. pos 0 <ℤ (h a).resd) os

-- The taker is not overfilled.
pub record IsWithin (c : Context) (m : Matching) : Type 0 where
  pub nonneg : pos 0 ≤ℤ m.sum_lots
  pub bounded : m.sum_lots ≤ℤ c.taker.resd

abbrev pub total_lots : List Match → Lots
total_lots [] = pos 0
total_lots (m ∷ ms) = m.lots +ℤ total_lots ms

-- Each match is paid at the maker's price.
abbrev pub total_cost : Cells → List Match → Cost
total_cost h [] = pos 0
total_cost h (m ∷ ms) = cost m.lots (h m.maker_order).ticks +ℤ total_cost h ms

abbrev pub makers : List Match → List Addr
makers [] = []
makers (m ∷ ms) = m.maker_order ∷ makers ms

-- A match is of something that the maker has, at a price that crosses.
pub record IsSound (c : Context) (m : Match) : Type 0 where
  pub positive : pos 0 <ℤ m.lots
  pub available : m.lots ≤ℤ (c.cells m.maker_order).resd
  pub crosses : spread c.taker (c.cells m.maker_order) c.direct ≤ℤ pos 0

-- The maker is filled in full.
abbrev pub IsFull : Context → Match → Type 0
IsFull c m = m.lots ≡ (c.cells m.maker_order).resd

-- The best order that is left, if any, does not cross.
abbrev pub Stops : Context → List Addr → Type 0
Stops c [] = Unit {0}
Stops c (a ∷ os) = pos 0 <ℤ spread c.taker (c.cells a) c.direct

-- What the loop did between the states m and m', over the resting orders os.
pub record Fill (c : Context) (os : List Addr) (m m' : Matching) : Type 0 where
  pub added : List Match
  pub left : List Addr
  pub matches_eq : m'.matches ≡ m.matches ++ added
  pub in_order : makers added ++ left ≡ os
  pub lots_eq : m'.sum_lots ≡ m.sum_lots +ℤ total_lots added
  pub cost_eq : m'.sum_cost ≡ m.sum_cost +ℤ total_cost c.cells added
  pub sound : All (IsSound c) added
  pub within : IsWithin c m'
  pub exhausted : m'.sum_lots <ℤ c.taker.resd → All (IsFull c) added × Stops c left

total_lots_nonneg : (c : Context) (ms : List Match) → All (IsSound c) ms → pos 0 ≤ℤ total_lots ms
total_lots_nonneg c [] s = omega arith
total_lots_nonneg c (m ∷ ms) s = omega (int_laws, s.0.positive, total_lots_nonneg c ms s.1)

min_ℤ-le_left : (x y : ℤ) → min_ℤ x y ≤ℤ x
min_ℤ-le_left x y = ground arith

min_ℤ-le_right : (x y : ℤ) → min_ℤ x y ≤ℤ y
min_ℤ-le_right x y = ground arith

min_ℤ_pos : (x y : ℤ) → pos 0 <ℤ x → pos 0 <ℤ y → pos 0 <ℤ min_ℤ x y
min_ℤ_pos x y h k = ground arith

min_ℤ-eq_right : (x y : ℤ) → min_ℤ x y <ℤ x → min_ℤ x y ≡ y
min_ℤ-eq_right x y h = ground arith

or_false : (x y : Bool) → (x || y) ≡ false → (x ≡ false) × (y ≡ false)
or_false x y e = ground arith

or_true : (x y : Bool) → (x || y) ≡ true → (x ≡ true) ⊎ (y ≡ true)
or_true x y e = ground arith

lt_of_le_of_ne : (x y : ℤ) → x ≤ℤ y → eqb_ℤ x y ≡ false → x <ℤ y
lt_of_le_of_ne x y h e = ground arith

module _ (c : Context) (a : Addr) (m : Matching) (on : is_over c a m ≡ false)
    (live : pos 0 <ℤ (c.cells a).resd) (w : IsWithin c m) where
  room : pos 0 <ℤ c.taker.resd -ℤ m.sum_lots
  unfolding is_over
  room =
      let lt = lt_of_le_of_ne m.sum_lots c.taker.resd w.bounded (or_false _ _ on).0 in
      omega (int_laws, lt)

  next_lots_pos : pos 0 <ℤ next_lots c a m
  unfolding next_lots
  next_lots_pos = min_ℤ_pos (c.taker.resd -ℤ m.sum_lots) (c.cells a).resd room live

  next_lots-le : next_lots c a m ≤ℤ c.taker.resd -ℤ m.sum_lots
  unfolding next_lots
  next_lots-le = min_ℤ-le_left (c.taker.resd -ℤ m.sum_lots) (c.cells a).resd

  round-IsSound :
      (sum : Lots) (sum_cost : Cost) (i j : ℕ)
      → IsSound c (new_match c a (next_lots c a m) sum sum_cost i j)
  unfolding new_match next_lots is_over
  round-IsSound sum sum_cost i j = record {
    positive = next_lots_pos;
    available = min_ℤ-le_right (c.taker.resd -ℤ m.sum_lots) (c.cells a).resd;
    crosses = le_of_not_ltb_ℤ (pos 0) (spread c.taker (c.cells a) c.direct) (or_false _ _ on).1;
  }

  round-IsWithin : IsWithin c (match_order c a m)
  unfolding match_order
  round-IsWithin = record {
    nonneg = omega (int_laws, next_lots_pos, w.nonneg);
    bounded = omega (int_laws, next_lots-le);
  }

  -- A round that leaves the taker something to fill has filled the maker.
  round_full : m.sum_lots +ℤ next_lots c a m <ℤ c.taker.resd → next_lots c a m ≡ (c.cells a).resd
  unfolding next_lots
  round_full lt =
      min_ℤ-eq_right (c.taker.resd -ℤ m.sum_lots) (c.cells a).resd (omega (int_laws, lt))

-- The loop ends at once where the taker is filled, or where the best order does not cross.
is_over-exhausted :
    (c : Context) (a : Addr) (os : List Addr) (m : Matching)
    → is_over c a m ≡ true
    → m.sum_lots <ℤ c.taker.resd
    → Stops c (a ∷ os)
unfolding is_over
is_over-exhausted c a os m e lt = elim (or_true (eqb_ℤ m.sum_lots c.taker.resd) _ e) [
  | inl filled ↦
      absurd (omega (arith, parts_of_eq _ _ (eq_of_eqb_ℤ m.sum_lots c.taker.resd filled), lt))
  | inr apart ↦ ltb_ℤ→lt (pos 0) (spread c.taker (c.cells a) c.direct) apart
]

no-Fill :
    (c : Context) (os : List Addr) (m : Matching)
    → IsWithin c m
    → (m.sum_lots <ℤ c.taker.resd → Stops c os)
    → Fill c os m m
no-Fill c os m w stops = record {
  added = [];
  left = os;
  matches_eq = sym (append-nil m.matches);
  in_order = refl;
  lots_eq = sym (+ℤ_zero m.sum_lots);
  cost_eq = sym (+ℤ_zero m.sum_cost);
  sound = tt;
  within = w;
  exhausted = λ lt. (tt, stops lt);
}

module _ (c : Context) (a : Addr) (os : List Addr) (m m' : Matching) (on : is_over c a m ≡ false)
    (live : pos 0 <ℤ (c.cells a).resd) (w : IsWithin c m)
    (f : Fill c os (match_order c a m) m') where
  round_match : Match
  round_match =
      new_match c a (next_lots c a m) (m.sum_lots +ℤ next_lots c a m)
        (m.sum_cost +ℤ cost (next_lots c a m) (c.cells a).ticks) (m.max_exec_id + 1)
        (m.max_exec_id + 2)

  round-Fill : Fill c (a ∷ os) m m'
  unfolding match_order round_match new_match
  round-Fill = record {
    added = round_match ∷ f.added;
    left = f.left;
    matches_eq = f.matches_eq ∙ append_assoc m.matches (round_match ∷ []) f.added;
    in_order = ap (◌∷◌ a) f.in_order;
    lots_eq = f.lots_eq ∙ +ℤ_assoc _ _ _;
    cost_eq = f.cost_eq ∙ +ℤ_assoc _ _ _;
    sound = (round-IsSound c a m on live w _ _ _ _, f.sound);
    within = f.within;
    exhausted = λ lt. (
      (
        round_full c a m on live w
            (omega (int_laws, parts_of_eq _ _ f.lots_eq, total_lots_nonneg c f.added f.sound, lt)),
        (f.exhausted lt).0,
      ),
      (f.exhausted lt).1,
    );
  }

-- Over orders that all have something left, for a taker that is not overfilled yet, the loop fills
-- the taker from the best orders of the other side. It stays within what the taker
-- asks for and what each maker has, only trades prices that cross, at the maker's price, takes the
-- orders in their sequence, and adds up lots and costs exactly. If the taker is not filled in the
-- end, every maker that matched is filled, and the best order that is left does not cross.
pub match_loop-Fill :
    (c : Context) (os : List Addr) (m : Matching)
    → Live c.cells os
    → IsWithin c m
    → Fill c os m (match_loop c os m)
unfolding match_loop
match_loop-Fill c [] m live w = no-Fill c [] m w (λ _. tt)
match_loop-Fill c (a ∷ os) m live w = elim (Bool-cases (is_over c a m)) [
  | inl over ↦ rw (over, match_loop) (no-Fill c (a ∷ os) m w (is_over-exhausted c a os m over))
  | inr on ↦
      rw (on, match_loop)
        (round-Fill c a os m _ on live.0 w
          (match_loop-Fill c os (match_order c a m) live.1 (round-IsWithin c a m on live.0 w)))
]
