-- ===== src/Serv/Presence.antt =====
-- src/fig/Serv.cpp: the positions that trades are added to stand in their sessions.
use swirlyc.Common.{
  ◌≡◌, refl, ap, true, Bool-cases, inl, inr, List, [], ◌∷◌, some, if◌then◌else◌, arith, subst,
}
use swirlyc.Domain.{Jday, Side}
use swirlyc.Text.{Str, str_eq}
use swirlyc.OrderedSet.{find, modify}
use swirlyc.OrderedSet.Laws.{Ordering-cases, at-insert_self}
use swirlyc.Exec.{Exec}
use swirlyc.Posn.{Posn, new_posn, add_trade, add_last, add_buy, add_sell}
use swirlyc.Session.{
  TraderSess, compare_posn_key, compare_posn, posn_key, modify_posn, insert_posn, lazy_posn,
}
use swirlyc.Session.Keys.{compare_key-IsOrder, compare_key}
use swirlyc.Serv.State.{modify_trader}
use swirlyc.Serv.Positions.{is_some, find_sess, known, key_of, has_posn, holds, has}

-- A write that keeps the names.
abbrev pub KeepsNames : (TraderSess → TraderSess) → Type 0
KeepsNames f = (t : TraderSess) → (f t).mnem ≡ t.mnem

module _ (f : TraderSess → TraderSess) (names : KeepsNames f) (m : Str) where
  pub modify_trader-known :
      (mnem : Str) (ts : List TraderSess)
      → known mnem ts ≡ true
      → known mnem (modify_trader m f ts) ≡ true
  unfolding modify_trader
  modify_trader-known mnem [] h = h
  modify_trader-known mnem (t ∷ ts) h = elim (Bool-cases (str_eq t.mnem m)) [
    | inl e ↦
        rw (e, modify_trader, names t)
          (elim (Bool-cases (str_eq t.mnem mnem)) [
            | inl g ↦ rw g refl
            | inr g ↦
                rw g (subst (λ b. is_some (if b then some t else find_sess mnem ts) ≡ true) g h)
          ])
    | inr e ↦
        rw (e, modify_trader)
          (elim (Bool-cases (str_eq t.mnem mnem)) [
            | inl g ↦ rw g refl
            | inr g ↦ rw g (
                modify_trader-known mnem ts
                  (subst (λ b. is_some (if b then some t else find_sess mnem ts) ≡ true) g h))
          ])
  ]

  module _ (k : Str × Jday) where
    pub modify_trader-has :
        (mnem : Str) (ts : List TraderSess)
        → ((t : TraderSess) → has_posn k t ≡ true → has_posn k (f t) ≡ true)
        → has k mnem ts ≡ true
        → has k mnem (modify_trader m f ts) ≡ true
    unfolding modify_trader
    modify_trader-has mnem [] e h = h
    modify_trader-has mnem (t ∷ ts) e h = elim (Bool-cases (str_eq t.mnem m)) [
      | inl l ↦
          rw (l, modify_trader, names t)
            (elim (Bool-cases (str_eq t.mnem mnem)) [
              | inl g ↦
                  rw g (
                    e t (subst (λ b. holds k (if b then some t else find_sess mnem ts) ≡ true) g h))
              | inr g ↦
                  rw g (subst (λ b. holds k (if b then some t else find_sess mnem ts) ≡ true) g h)
            ])
      | inr l ↦
          rw (l, modify_trader)
            (elim (Bool-cases (str_eq t.mnem mnem)) [
              | inl g ↦
                  rw g (subst (λ b. holds k (if b then some t else find_sess mnem ts) ≡ true) g h)
              | inr g ↦ rw g (
                  modify_trader-has mnem ts e
                    (subst (λ b. holds k (if b then some t else find_sess mnem ts) ≡ true) g h))
            ])
    ]

    pub modify_trader-opened :
        (ts : List TraderSess)
        → ((t : TraderSess) → has_posn k (f t) ≡ true)
        → known m ts ≡ true
        → has k m (modify_trader m f ts) ≡ true
    unfolding modify_trader
    modify_trader-opened [] e h = absurd (ground (arith, h))
    modify_trader-opened (t ∷ ts) e h = elim (Bool-cases (str_eq t.mnem m)) [
      | inl l ↦ rw (l, modify_trader, names t, l) (e t)
      | inr l ↦
          rw (l, modify_trader, l)
            (modify_trader-opened ts e
              (subst (λ b. is_some (if b then some t else find_sess m ts) ≡ true) l h))
    ]

last_key :
    (d : Side) (e : Exec) (p : Posn) → posn_key (add_last d e.last_lots e.last_ticks p) ≡ posn_key p
unfolding add_last add_buy add_sell
last_key Side.buy e p = refl
last_key Side.sell e p = refl

module _ (contr : Str) (day : Jday) where
  abbrev here : Str × Jday
  here = (contr, day)

  find-modify :
      (g : Posn → Posn) (ps : List Posn)
      → ((p : Posn) → posn_key (g p) ≡ posn_key p)
      → is_some (find (key_of here) ps) ≡ true
      → is_some (find (key_of here) (modify (key_of here) g ps)) ≡ true
  unfolding find modify
  find-modify g [] e h = h
  find-modify g (p ∷ ps) e h = elim (Ordering-cases (key_of here p)) [
    | inl (inl l) ↦ absurd (ground (arith, h, l))
    | inl (inr l) ↦ rw (l, modify, find, e p, l) refl
    | inr l ↦ rw (l, modify, find, l) (find-modify g ps e (ground (arith, h, l)))
  ]

  trade_key : (e : Exec) (p : Posn) → posn_key (add_trade e p) ≡ posn_key p
  unfolding add_trade
  trade_key e p = last_key e.side e p

  -- Trades, and other positions, keep a position.
  pub modify_posn-has :
      (e : Exec) (t : TraderSess)
      → has_posn here t ≡ true
      → has_posn here (modify_posn contr day (add_trade e) t) ≡ true
  unfolding modify_posn
  modify_posn-has e t h = find-modify (add_trade e) t.posns (trade_key e) h

  pub lazy_posn-has : (t : TraderSess) → has_posn here (lazy_posn contr day t) ≡ true
  unfolding lazy_posn insert_posn compare_posn compare_posn_key new_posn
  lazy_posn-has t =
      ap is_some (
        at-insert_self posn_key compare_key compare_key-IsOrder (new_posn t.mnem contr day) t.posns)
