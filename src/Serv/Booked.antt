-- ===== src/Serv/Booked.antt =====
-- src/fig/Serv.cpp, `commitMatches`: what the trades of the matches add to the positions.
use swirlyc.Common.{
  ◌+ℤ◌, ◌≡◌, refl, sym, ap, ◌∙◌, true, Bool-cases, inl, inr, List, [], ◌∷◌, Option, none, some, All,
  All-map, subst, +ℤ_zero, +ℤ_assoc,
}
use swirlyc.Domain.{Lots, Jday, Side, Millis}
use swirlyc.Text.{Str, str_eq}
use swirlyc.Order.{Cells}
use swirlyc.Book.Market
use swirlyc.Exec.{Exec}
use swirlyc.Session.{TraderSess, insert_trade, modify_posn}
use swirlyc.Posn.{add_trade}
use swirlyc.Serv.State.{
  PosnPtr, Match, World, Response, modify_trader, add_posn_trade, insert_order, insert_exec,
}
use swirlyc.Serv.Match.{other_side}
use swirlyc.Serv.Commit.{
  on_book, on_traders, on_resp, add_resp_trade, report, commit_match, commit_matches,
}
use swirlyc.Serv.Fill.{total_lots}
use swirlyc.Serv.Positions.{has, bought, sold, bought_by, sold_by, same_total, add_posn_trade-total}
use swirlyc.Serv.Presence.{modify_trader-has, modify_posn-has}

insert_trade_names : (e : Exec) (t : TraderSess) → (insert_trade e t).mnem ≡ t.mnem
unfolding insert_trade
insert_trade_names e t = refl

insert_trade_posns : (e : Exec) (t : TraderSess) → (insert_trade e t).posns ≡ t.posns
unfolding insert_trade
insert_trade_posns e t = refl

-- Both sides of a trade together.
lots_of_sides :
    (d : Side) (n s : Lots)
    → (s +ℤ bought_by (other_side d) n +ℤ bought_by d n ≡ s +ℤ n)
      × (s +ℤ sold_by (other_side d) n +ℤ sold_by d n ≡ s +ℤ n)
unfolding other_side
lots_of_sides Side.buy n s = (ap (λ x. x +ℤ n) (+ℤ_zero s), +ℤ_zero (s +ℤ n))
lots_of_sides Side.sell n s = (+ℤ_zero (s +ℤ n), ap (λ x. x +ℤ n) (+ℤ_zero s))

add_resp_trade-some :
    (e : Exec) (w : World) (p : PosnPtr)
    → w.resp.posn ≡ some p
    → add_resp_trade e w ≡ on_traders (add_posn_trade p e) w
unfolding add_resp_trade
add_resp_trade-some e w p h =
    let f : Option PosnPtr → World =
      λ o. elim o [ none ↦ w | some q ↦ on_traders (add_posn_trade q e) w ] in
    ap f h

report_posn :
    (taker : Str) (m : Match) (h : Cells) (r : Response) → (report taker m h r).posn ≡ r.posn
unfolding report insert_order insert_exec
report_posn taker m h r = elim (Bool-cases (str_eq (h m.maker_order).trader taker)) [
  | inl e ↦ rw e refl
  | inr e ↦ rw e refl
]

module _ (taker contr : Str) (day : Jday) (d : Side) where
  abbrev pub key : Str × Jday
  key = (contr, day)

  abbrev pub posn_of : Str → PosnPtr
  posn_of trader = record { trader = trader; contr = contr; settl_day = day }

  -- A match of a taker of side d in the market of this contract and day.
  pub record Books (m : Match) : Type 0 where
    pub maker : Str
    pub posn_eq : m.maker_posn ≡ posn_of maker
    pub maker_side : m.maker_trade.side ≡ other_side d
    pub taker_side : m.taker_trade.side ≡ d
    pub maker_lots : m.maker_trade.last_lots ≡ m.lots
    pub taker_lots : m.taker_trade.last_lots ≡ m.lots

  -- The maker's position is there.
  abbrev pub Here : List TraderSess → Match → Type 0
  Here ts m = has key m.maker_posn.trader ts ≡ true

  keeps_trade :
      (m : Str) (e : Exec) (mnem : Str) (ts : List TraderSess)
      → has key mnem ts ≡ true
      → has key mnem (modify_trader m (insert_trade e) ts) ≡ true
  unfolding insert_trade
  keeps_trade m e mnem ts h =
      modify_trader-has (insert_trade e) (insert_trade_names e) m key mnem ts (λ t g. g) h

  keeps_posn :
      (p : Str) (e : Exec) (mnem : Str) (ts : List TraderSess)
      → has key mnem ts ≡ true
      → has key mnem (add_posn_trade (posn_of p) e ts) ≡ true
  unfolding add_posn_trade modify_posn
  keeps_posn p e mnem ts h =
      modify_trader-has (modify_posn contr day (add_trade e)) (λ t. refl) p key mnem ts
        (modify_posn-has contr day e) h

  trade_total :
      (m : Str) (e : Exec) (ts : List TraderSess)
      → (bought key (modify_trader m (insert_trade e) ts) ≡ bought key ts)
        × (sold key (modify_trader m (insert_trade e) ts) ≡ sold key ts)
  unfolding insert_trade
  trade_total m e ts = (
    same_total (λ p. p.buy_lots) key m (insert_trade e) ts (λ t. refl),
    same_total (λ p. p.sell_lots) key m (insert_trade e) ts (λ t. refl),
  )

  -- What a match does to the sessions.
  abbrev after_match : Match → Str → List TraderSess → List TraderSess
  after_match m maker ts = add_posn_trade (posn_of taker) m.taker_trade (
      modify_trader taker (insert_trade m.taker_trade) (
        add_posn_trade m.maker_posn m.maker_trade
          (modify_trader maker (insert_trade m.maker_trade) ts)))

  after_match-has :
      (m : Match) (b : Books m) (maker mnem : Str) (ts : List TraderSess)
      → has key mnem ts ≡ true
      → has key mnem (after_match m maker ts) ≡ true
  after_match-has m b maker mnem ts h = keeps_posn taker m.taker_trade mnem _ (
      keeps_trade taker m.taker_trade mnem _ (
        subst
          (λ p.
            has key mnem
              (add_posn_trade p m.maker_trade (modify_trader maker (insert_trade m.maker_trade) ts))
            ≡ true)
          (sym b.posn_eq)
          (keeps_posn b.maker m.maker_trade mnem _ (keeps_trade maker m.maker_trade mnem ts h))))

  -- Each of the two parties takes the lots on its side.
  after_match-total :
      (m : Match) (b : Books m) (maker : Str) (ts : List TraderSess)
      → has key taker ts ≡ true
      → Here ts m
      → (bought key (after_match m maker ts) ≡ bought key ts +ℤ m.lots)
        × (sold key (after_match m maker ts) ≡ sold key ts +ℤ m.lots)
  after_match-total m b maker ts h g =
      let t1 = modify_trader maker (insert_trade m.maker_trade) ts in
      let t2 = add_posn_trade (posn_of b.maker) m.maker_trade t1 in
      let t3 = modify_trader taker (insert_trade m.taker_trade) t2 in
      let g1 : has key b.maker t1 ≡ true =
        keeps_trade maker m.maker_trade b.maker ts
          (subst (λ p. has key p.trader ts ≡ true) b.posn_eq g) in
      let h3 : has key taker t3 ≡ true =
        keeps_trade taker m.taker_trade taker t2 (
          keeps_posn b.maker m.maker_trade taker t1 (keeps_trade maker m.maker_trade taker ts h)) in
      let e1 = trade_total maker m.maker_trade ts in
      let e2 = add_posn_trade-total b.maker contr day m.maker_trade t1 g1 in
      let e3 = trade_total taker m.taker_trade t2 in
      let e4 = add_posn_trade-total taker contr day m.taker_trade t3 h3 in
      let l = lots_of_sides d m.lots in
      rw (b.posn_eq) (
        e4.0
            ∙ ap (λ x. x +ℤ bought_by m.taker_trade.side m.taker_trade.last_lots)
                (e3.0
                  ∙ e2.0
                  ∙ ap (λ x. x +ℤ bought_by m.maker_trade.side m.maker_trade.last_lots) e1.0)
            ∙ rw (b.taker_side, b.taker_lots, b.maker_side, b.maker_lots) ((l (bought key ts)).0),
        e4.1
            ∙ ap (λ x. x +ℤ sold_by m.taker_trade.side m.taker_trade.last_lots)
                (e3.1
                  ∙ e2.1
                  ∙ ap (λ x. x +ℤ sold_by m.maker_trade.side m.maker_trade.last_lots) e1.1)
            ∙ rw (b.taker_side, b.taker_lots, b.maker_side, b.maker_lots) ((l (sold key ts)).1),
      )

  -- The world before the taker's trade is added to its position.
  abbrev stage : Millis → Match → World → World
  stage now m w = on_traders (modify_trader taker (insert_trade m.taker_trade)) (
      on_traders (add_posn_trade m.maker_posn m.maker_trade) (
        on_traders (modify_trader (w.cells m.maker_order).trader (insert_trade m.maker_trade))
          (on_book (Market.take_order m.maker_order m.lots now) w)))

  commit_match-traders :
      (now : Millis) (m : Match) (w : World)
      → w.resp.posn ≡ some (posn_of taker)
      → ((commit_match taker now m w).traders
          ≡ after_match m (w.cells m.maker_order).trader w.traders)
        × ((commit_match taker now m w).resp.posn ≡ some (posn_of taker))
  unfolding commit_match on_book on_traders on_resp
  commit_match-traders now m w e =
      let v = stage now m w in
      let r = add_resp_trade-some m.taker_trade v (posn_of taker) e in
      (
        ap (λ (x : World). x.traders) r,
        report_posn taker m w.cells (add_resp_trade m.taker_trade v).resp
            ∙ ap (λ (x : World). x.resp.posn) r
            ∙ e,
      )

  -- What the sums are after lots have changed hands.
  pub record Moved (n : Lots) (ts ts' : List TraderSess) : Type 0 where
    pub bought_eq : bought key ts' ≡ bought key ts +ℤ n
    pub sold_eq : sold key ts' ≡ sold key ts +ℤ n

  pub commit_matches-Moved :
      (now : Millis) (ms : List Match) (w : World)
      → w.resp.posn ≡ some (posn_of taker)
      → has key taker w.traders ≡ true
      → All Books ms
      → All (Here w.traders) ms
      → Moved (total_lots ms) w.traders (commit_matches taker now ms w).traders
  unfolding commit_matches
  commit_matches-Moved now [] w e h b g = record {
    bought_eq = sym (+ℤ_zero (bought key w.traders));
    sold_eq = sym (+ℤ_zero (sold key w.traders));
  }
  commit_matches-Moved now (m ∷ ms) w e h b g =
      let w' = commit_match taker now m w in
      let maker = (w.cells m.maker_order).trader in
      let (t, p) = commit_match-traders now m w e in
      let kept : (mnem : Str) → has key mnem w.traders ≡ true → has key mnem w'.traders ≡ true =
        λ mnem i.
          subst (λ ts. has key mnem ts ≡ true) (sym t)
            (after_match-has m b.0 maker mnem w.traders i) in
      let s = after_match-total m b.0 maker w.traders h g.0 in
      let r =
        commit_matches-Moved now ms w' p (kept taker h) b.1
          (All-map (Here w.traders) (Here w'.traders) ms (λ x i. kept x.maker_posn.trader i) g.1) in
      record {
        bought_eq =
            r.bought_eq
            ∙ ap (λ x. x +ℤ total_lots ms) (ap (bought key) t ∙ s.0)
            ∙ +ℤ_assoc (bought key w.traders) m.lots (total_lots ms);
        sold_eq =
            r.sold_eq
            ∙ ap (λ x. x +ℤ total_lots ms) (ap (sold key) t ∙ s.1)
            ∙ +ℤ_assoc (sold key w.traders) m.lots (total_lots ms);
      }
