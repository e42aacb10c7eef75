-- ===== src/Serv/Positions.antt =====
-- include/swirly/elm/Posn.hpp and src/fig/TraderSess.cpp: what all sessions together have bought and
-- sold of one contract and settlement day, and how writes to positions change it.
use swirlyc.Common.{
  pos, ◌+ℤ◌, ◌≡◌, refl, sym, ap, ◌∙◌, Bool, true, false, Bool-cases, inl, inr, List, [], ◌∷◌,
  Option, none, some, Ordering, if◌then◌else◌, int_laws, zero_+ℤ, +ℤ_zero, arith, +ℤ_assoc, subst,
}
use swirlyc.Domain.{Lots, Jday, Side}
use swirlyc.Text.{Str, str_eq}
use swirlyc.OrderedSet.{find, insert, modify}
use swirlyc.OrderedSet.Laws.{Ordering-cases}
use swirlyc.Exec.{Exec}
use swirlyc.Posn.{Posn, new_posn, add_trade, add_last, add_buy, add_sell}
use swirlyc.Session.{
  TraderSess, compare_posn_key, compare_posn, posn_key, modify_posn, insert_posn, lazy_posn,
}
use swirlyc.Serv.State.{PosnPtr, modify_trader, add_posn_trade}

abbrev pub is_some {ℓ} : {A : Type ℓ} → Option A → Bool
is_some none = false
is_some (some a) = true

add_last_swap : (a d s : Lots) → a +ℤ d +ℤ s ≡ a +ℤ s +ℤ d
add_last_swap a d s = omega int_laws

-- The session of a name.
abbrev pub find_sess : Str → List TraderSess → Option TraderSess
find_sess mnem [] = none
find_sess mnem (t ∷ ts) = if str_eq t.mnem mnem then some t else find_sess mnem ts

-- Whether there is a session of a name, and whether it has a position.
abbrev pub known : Str → List TraderSess → Bool
known mnem ts = is_some (find_sess mnem ts)

module _ (k : Str × Jday) where
  abbrev pub key_of : Posn → Ordering
  key_of p = compare_posn_key k (posn_key p)

  abbrev pub has_posn : TraderSess → Bool
  has_posn t = is_some (find key_of t.posns)

  abbrev pub holds : Option TraderSess → Bool
  holds none = false
  holds (some t) = has_posn t

  abbrev pub has : Str → List TraderSess → Bool
  has mnem ts = holds (find_sess mnem ts)

module _ (pick : Posn → Lots) (k : Str × Jday) where
  -- What a position counts for, and the sums over a session's positions and over all sessions.
  abbrev pub counted : Posn → Lots
  counted p = elim (compare_posn_key k (posn_key p)) [ Ordering.eq ↦ pick p | _ ↦ pos 0 ]

  abbrev pub posns_sum : List Posn → Lots
  posns_sum [] = pos 0
  posns_sum (p ∷ ps) = counted p +ℤ posns_sum ps

  abbrev pub total : List TraderSess → Lots
  total [] = pos 0
  total (t ∷ ts) = posns_sum t.posns +ℤ total ts

  modify_sum :
      (g : Posn → Posn) (d : Lots) (ps : List Posn)
      → ((p : Posn) → key_of k p ≡ Ordering.eq → counted (g p) ≡ counted p +ℤ d)
      → is_some (find (key_of k) ps) ≡ true
      → posns_sum (modify (key_of k) g ps) ≡ posns_sum ps +ℤ d
  unfolding find modify
  modify_sum g d [] e h = absurd (ground (arith, h))
  modify_sum g d (p ∷ ps) e h = elim (Ordering-cases (key_of k p)) [
    | inl (inl l) ↦ absurd (ground (arith, h, l))
    | inl (inr l) ↦
        rw (l, modify)
          (ap (λ x. x +ℤ posns_sum ps) (e p l) ∙ add_last_swap (counted p) d (posns_sum ps))
    | inr l ↦
        rw (l, modify)
          (ap (λ x. counted p +ℤ x) (modify_sum g d ps e (ground (arith, h, l)))
            ∙ sym (+ℤ_assoc (counted p) (posns_sum ps) d))
  ]

  -- A new position counts for nothing.
  insert_sum :
      (p : Posn) (ps : List Posn)
      → counted p ≡ pos 0
      → posns_sum (insert compare_posn p ps) ≡ posns_sum ps
  unfolding insert
  insert_sum p [] z = rw z (zero_+ℤ (pos 0))
  insert_sum p (y ∷ ys) z = elim (Ordering-cases (compare_posn p y)) [
    | inl (inl l) ↦ rw (l, insert, z) (zero_+ℤ (counted y +ℤ posns_sum ys))
    | inl (inr l) ↦ rw (l, insert) refl
    | inr l ↦ rw (l, insert) (ap (λ x. counted y +ℤ x) (insert_sum p ys z))
  ]

  -- A write that adds d to each session that has the position.
  modify_total :
      (mnem : Str) (f : TraderSess → TraderSess) (d : Lots) (ts : List TraderSess)
      → ((t : TraderSess) → has_posn k t ≡ true → posns_sum (f t).posns ≡ posns_sum t.posns +ℤ d)
      → has k mnem ts ≡ true
      → total (modify_trader mnem f ts) ≡ total ts +ℤ d
  unfolding modify_trader
  modify_total mnem f d [] e h = absurd (ground (arith, h))
  modify_total mnem f d (t ∷ ts) e h = elim (Bool-cases (str_eq t.mnem mnem)) [
    | inl l ↦
        rw (l, modify_trader)
          (ap (λ x. x +ℤ total ts)
              (e t (subst (λ b. holds k (if b then some t else find_sess mnem ts) ≡ true) l h))
            ∙ add_last_swap (posns_sum t.posns) d (total ts))
    | inr l ↦
        rw (l, modify_trader)
          (ap (λ x. posns_sum t.posns +ℤ x)
              (modify_total mnem f d ts e
                (subst (λ b. holds k (if b then some t else find_sess mnem ts) ≡ true) l h))
            ∙ sym (+ℤ_assoc (posns_sum t.posns) (total ts) d))
  ]

  -- A write that keeps what each session counts for.
  pub same_total :
      (mnem : Str) (f : TraderSess → TraderSess) (ts : List TraderSess)
      → ((t : TraderSess) → posns_sum (f t).posns ≡ posns_sum t.posns)
      → total (modify_trader mnem f ts) ≡ total ts
  unfolding modify_trader
  same_total mnem f [] e = refl
  same_total mnem f (t ∷ ts) e = elim (Bool-cases (str_eq t.mnem mnem)) [
    | inl l ↦ rw (l, modify_trader) (ap (λ x. x +ℤ total ts) (e t))
    | inr l ↦ rw (l, modify_trader) (ap (λ x. posns_sum t.posns +ℤ x) (same_total mnem f ts e))
  ]

-- What a trade adds to what was bought, and to what was sold.
abbrev pub bought_by : Side → Lots → Lots
bought_by Side.buy lots = lots
bought_by Side.sell lots = pos 0

abbrev pub sold_by : Side → Lots → Lots
sold_by Side.buy lots = pos 0
sold_by Side.sell lots = lots

module _ (k : Str × Jday) where
  -- All that is bought, and all that is sold.
  abbrev pub bought : List TraderSess → Lots
  bought = total (λ p. p.buy_lots) k

  abbrev pub sold : List TraderSess → Lots
  sold = total (λ p. p.sell_lots) k

  counted_last :
      (d : Side) (e : Exec) (p : Posn)
      → key_of k p ≡ Ordering.eq
      → (counted (λ p. p.buy_lots) k (add_last d e.last_lots e.last_ticks p)
          ≡ counted (λ p. p.buy_lots) k p +ℤ bought_by d e.last_lots)
        × (counted (λ p. p.sell_lots) k (add_last d e.last_lots e.last_ticks p)
            ≡ counted (λ p. p.sell_lots) k p +ℤ sold_by d e.last_lots)
  unfolding add_last add_buy add_sell
  counted_last Side.buy e p h = rw (h, counted) (refl, sym (+ℤ_zero p.sell_lots))
  counted_last Side.sell e p h = rw (h, counted) (sym (+ℤ_zero p.buy_lots), refl)

  counted_trade :
      (e : Exec) (p : Posn)
      → key_of k p ≡ Ordering.eq
      → (counted (λ p. p.buy_lots) k (add_trade e p)
          ≡ counted (λ p. p.buy_lots) k p +ℤ bought_by e.side e.last_lots)
        × (counted (λ p. p.sell_lots) k (add_trade e p)
            ≡ counted (λ p. p.sell_lots) k p +ℤ sold_by e.side e.last_lots)
  unfolding add_trade
  counted_trade e p h = counted_last e.side e p h

module _ (trader contr : Str) (day : Jday) where
  abbrev at : PosnPtr
  at = record { trader = trader; contr = contr; settl_day = day }

  -- A trade that is added to a position counts on its side.
  pub add_posn_trade-total :
      (e : Exec) (ts : List TraderSess)
      → has (contr, day) trader ts ≡ true
      → (bought (contr, day) (add_posn_trade at e ts)
          ≡ bought (contr, day) ts +ℤ bought_by e.side e.last_lots)
        × (sold (contr, day) (add_posn_trade at e ts)
            ≡ sold (contr, day) ts +ℤ sold_by e.side e.last_lots)
  unfolding add_posn_trade modify_posn
  add_posn_trade-total e ts h = (
    modify_total (λ p. p.buy_lots) (contr, day) trader (modify_posn contr day (add_trade e)) _ ts
        (λ t g.
          modify_sum (λ p. p.buy_lots) (contr, day) (add_trade e) _ t.posns
            (λ p l. (counted_trade (contr, day) e p l).0) g)
        h,
    modify_total (λ p. p.sell_lots) (contr, day) trader (modify_posn contr day (add_trade e)) _ ts
        (λ t g.
          modify_sum (λ p. p.sell_lots) (contr, day) (add_trade e) _ t.posns
            (λ p l. (counted_trade (contr, day) e p l).1) g)
        h,
  )

  -- Opening a position counts for nothing, and so does a trade in the list of a session's trades.
  zero_counted :
      (k : Str × Jday) (m : Str)
      → (counted (λ p. p.buy_lots) k (new_posn m contr day) ≡ pos 0)
        × (counted (λ p. p.sell_lots) k (new_posn m contr day) ≡ pos 0)
  unfolding new_posn
  zero_counted k m = elim (Ordering-cases (compare_posn_key k (contr, day))) [
    | inl (inl l) ↦ rw (l, counted) (refl, refl)
    | inl (inr l) ↦ rw (l, counted) (refl, refl)
    | inr l ↦ rw (l, counted) (refl, refl)
  ]

  pub lazy_posn-total :
      (k : Str × Jday) (ts : List TraderSess)
      → (bought k (modify_trader trader (lazy_posn contr day) ts) ≡ bought k ts)
        × (sold k (modify_trader trader (lazy_posn contr day) ts) ≡ sold k ts)
  unfolding lazy_posn insert_posn
  lazy_posn-total k ts = (
    same_total (λ p. p.buy_lots) k trader (lazy_posn contr day) ts
        (λ t.
          insert_sum (λ p. p.buy_lots) k (new_posn t.mnem contr day) t.posns
            (zero_counted k t.mnem).0),
    same_total (λ p. p.sell_lots) k trader (lazy_posn contr day) ts
        (λ t.
          insert_sum (λ p. p.sell_lots) k (new_posn t.mnem contr day) t.posns
            (zero_counted k t.mnem).1),
  )
