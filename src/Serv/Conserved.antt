-- ===== src/Serv/Conserved.antt =====
-- src/fig/Serv.cpp, `createOrder`: what a call does to the positions of all sessions.
use swirlyc.Common.{◌+ℤ◌, ◌≡◌, refl, sym, ap, ◌∙◌, true, List, [], ◌∷◌, All, All-map, +ℤ_zero}
use swirlyc.Domain.{Jday, Side}
use swirlyc.Text.{Str}
use swirlyc.Order.{Addr, Cells}
use swirlyc.Exec.{Exec}
use swirlyc.Session
use swirlyc.Session.{TraderSess, lazy_posn}
use swirlyc.Serv.State.{Match, World, modify_trader, set_posn, insert_order, insert_exec}
use swirlyc.Serv.Commit.{on_traders, on_resp, commit_matches}
use swirlyc.Serv.Create.{NewOrder, open_posn, commit}
use swirlyc.Serv.Fill.{total_lots}
use swirlyc.Serv.Positions.{known, has, bought, sold, same_total, lazy_posn-total}
use swirlyc.Serv.Presence.{modify_trader-has, modify_trader-opened, lazy_posn-has}
use swirlyc.Serv.Booked.{Books, Here, Moved, commit_matches-Moved}
use swirlyc.Serv.Opened.{lazy_posn_names}

session_names : (h : Cells) (a : Addr) (t : TraderSess) → (Session.insert_order h a t).mnem ≡ t.mnem
unfolding Session.insert_order
session_names h a t = refl

module _ (contr : Str) (day : Jday) (h : Cells) (a : Addr) (trader : Str) where
  abbrev k : Str × Jday
  k = (contr, day)

  -- The order in the session's list leaves the positions alone.
  listed_total :
      (ts : List TraderSess)
      → (bought k (modify_trader trader (Session.insert_order h a) ts) ≡ bought k ts)
        × (sold k (modify_trader trader (Session.insert_order h a) ts) ≡ sold k ts)
  unfolding Session.insert_order
  listed_total ts = (
    same_total (λ p. p.buy_lots) k trader (Session.insert_order h a) ts (λ t. refl),
    same_total (λ p. p.sell_lots) k trader (Session.insert_order h a) ts (λ t. refl),
  )

  listed-has :
      (mnem : Str) (ts : List TraderSess)
      → has k mnem ts ≡ true
      → has k mnem (modify_trader trader (Session.insert_order h a) ts) ≡ true
  unfolding Session.insert_order
  listed-has mnem ts g =
      modify_trader-has (Session.insert_order h a) (session_names h a) trader k mnem ts (λ t i. i) g

  opened-has :
      (mnem : Str) (ts : List TraderSess)
      → has k mnem ts ≡ true
      → has k mnem (modify_trader trader (lazy_posn contr day) ts) ≡ true
  opened-has mnem ts g =
      modify_trader-has (lazy_posn contr day) (lazy_posn_names contr day) trader k mnem ts
        (λ t i. lazy_posn-has contr day t) g

module _ (q : NewOrder) (a : Addr) (d : Side) where
  -- The sessions after the taker's position is opened and its order listed, if something matched.
  pub commit-Moved :
      (ms : List Match) (e : Exec) (w : World)
      → known q.trader w.traders ≡ true
      → All (Books q.trader w.book.contr w.book.settl_day d) ms
      → All (Here q.trader w.book.contr w.book.settl_day d w.traders) ms
      → Moved q.trader w.book.contr w.book.settl_day d
          (total_lots ms)
          w.traders
          (commit q a (record { exec = e; matches = ms; world = w })).traders
  unfolding commit open_posn on_traders on_resp set_posn insert_order insert_exec commit_matches
  commit-Moved [] e w n b g =
      let t = listed_total w.book.contr w.book.settl_day w.cells a q.trader w.traders in
      record { bought_eq = t.0 ∙ sym (+ℤ_zero _); sold_eq = t.1 ∙ sym (+ℤ_zero _) }
  commit-Moved (m ∷ ms) e w n b g =
      let contr = w.book.contr in
      let day = w.book.settl_day in
      let t1 = modify_trader q.trader (lazy_posn contr day) w.traders in
      let t2 = modify_trader q.trader (Session.insert_order w.cells a) t1 in
      let v =
        on_resp (λ r. insert_exec e (insert_order a r))
          (on_traders (modify_trader q.trader (Session.insert_order w.cells a))
            (open_posn q.trader (m ∷ ms) w)) in
      let here : (mnem : Str)
          → has (contr, day) mnem w.traders ≡ true
          → has (contr, day) mnem t2 ≡ true =
        λ mnem i.
          listed-has contr day w.cells a q.trader mnem t1
            (opened-has contr day w.cells a q.trader mnem w.traders i) in
      let own = listed-has contr day w.cells a q.trader q.trader t1 (
        modify_trader-opened (lazy_posn contr day) (lazy_posn_names contr day) q.trader (contr, day)
          w.traders (lazy_posn-has contr day) n) in
      let r = commit_matches-Moved q.trader contr day d q.now (m ∷ ms) v refl own b (
        All-map (Here q.trader contr day d w.traders) (Here q.trader contr day d t2) (m ∷ ms)
          (λ x i. here x.maker_posn.trader i) g) in
      let l = listed_total contr day w.cells a q.trader t1 in
      let o = lazy_posn-total q.trader contr day (contr, day) w.traders in
      record {
        bought_eq = r.bought_eq ∙ ap (λ x. x +ℤ total_lots (m ∷ ms)) (l.0 ∙ o.0);
        sold_eq = r.sold_eq ∙ ap (λ x. x +ℤ total_lots (m ∷ ms)) (l.1 ∙ o.1);
      }
