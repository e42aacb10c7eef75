-- ===== src/Serv/Names.antt =====
-- src/fig/Serv.cpp: no call of `createOrder` changes who the traders are.
use swirlyc.Common.{
  ◌≡◌, refl, ap, ◌∙◌, Bool, Bool-cases, inl, inr, List, [], ◌∷◌, map, Option-cases,
}
use swirlyc.Domain.{Jday, Millis}
use swirlyc.Text.{Str, str_eq}
use swirlyc.Order.{Addr, Cells, done}
use swirlyc.Exec.{Exec}
use swirlyc.Session.{TraderSess, insert_trade, insert_posn, lazy_posn, modify_posn}
use swirlyc.Session
use swirlyc.Book.Market.{MarketBook, side, alloc_exec_id}
use swirlyc.Serv.State.{Match, PosnPtr, World, modify_trader, add_posn_trade}
use swirlyc.Serv.Match.{
  Matching, Context, match_order, match_loop, match_orders, start, context_of, other_side,
  trade_taker, is_over,
}
use swirlyc.Serv.Commit.{on_book, on_traders, on_resp, add_resp_trade, commit_match, commit_matches}
use swirlyc.Serv.Create.{
  NewOrder, Placed, create_order, commit, undo, open_posn, match_and_place, alloc_order, is_expired,
  bad_lots, trades_of,
}

-- A trader's mnemonic and email.
abbrev pub identity : TraderSess → Str × Str
identity t = (t.mnem, t.email)

abbrev pub identities : List TraderSess → List (Str × Str)
identities = map identity

modify_trader-same :
    (mnem : Str) (f : TraderSess → TraderSess) (ts : List TraderSess)
    → ((t : TraderSess) → identity (f t) ≡ identity t)
    → identities (modify_trader mnem f ts) ≡ identities ts
unfolding modify_trader
modify_trader-same mnem f [] h = refl
modify_trader-same mnem f (t ∷ ts) h = elim (Bool-cases (str_eq t.mnem mnem)) [
  | inl e ↦ rw (e, modify_trader) (ap (λ i. i ∷ identities ts) (h t))
  | inr e ↦ rw (e, modify_trader) (ap (λ ids. identity t ∷ ids) (modify_trader-same mnem f ts h))
]

insert_trade-same : (e : Exec) (t : TraderSess) → identity (insert_trade e t) ≡ identity t
unfolding insert_trade
insert_trade-same e t = refl

lazy_posn-same : (c : Str) (d : Jday) (t : TraderSess) → identity (lazy_posn c d t) ≡ identity t
unfolding lazy_posn insert_posn
lazy_posn-same c d t = refl

insert_order-same :
    (h : Cells) (a : Addr) (t : TraderSess) → identity (Session.insert_order h a t) ≡ identity t
unfolding Session.insert_order
insert_order-same h a t = refl

add_posn_trade-same :
    (p : PosnPtr) (e : Exec) (ts : List TraderSess)
    → identities (add_posn_trade p e ts) ≡ identities ts
unfolding add_posn_trade modify_posn
add_posn_trade-same p e ts = modify_trader-same p.trader _ ts (λ t. refl)

add_resp_trade-same :
    (e : Exec) (w : World) → identities (add_resp_trade e w).traders ≡ identities w.traders
unfolding add_resp_trade on_traders
add_resp_trade-same e w = elim (Option-cases w.resp.posn) [
  | inl h ↦ rw (h, add_resp_trade) refl
  | inr (p, h) ↦ rw (h, add_resp_trade) (add_posn_trade-same p e w.traders)
]

commit_match-same :
    (taker : Str) (now : Millis) (m : Match) (w : World)
    → identities (commit_match taker now m w).traders ≡ identities w.traders
unfolding commit_match on_resp on_traders on_book add_resp_trade
commit_match-same taker now m w =
    let maker = (w.cells m.maker_order).trader in
    let first = modify_trader maker (insert_trade m.maker_trade) w.traders in
    let second = add_posn_trade m.maker_posn m.maker_trade first in
    add_resp_trade-same m.taker_trade _
    ∙ modify_trader-same taker (insert_trade m.taker_trade) second (insert_trade-same m.taker_trade)
    ∙ add_posn_trade-same m.maker_posn m.maker_trade first
    ∙ modify_trader-same maker (insert_trade m.maker_trade) w.traders
        (insert_trade-same m.maker_trade)

commit_matches-same :
    (taker : Str) (now : Millis) (ms : List Match) (w : World)
    → identities (commit_matches taker now ms w).traders ≡ identities w.traders
unfolding commit_matches
commit_matches-same taker now [] w = refl
commit_matches-same taker now (m ∷ ms) w =
    commit_matches-same taker now ms (commit_match taker now m w) ∙ commit_match-same taker now m w

match_loop-same :
    (c : Context) (rest : List Addr) (m : Matching)
    → identities (match_loop c rest m).traders ≡ identities m.traders
unfolding match_loop match_order
match_loop-same c [] m = refl
match_loop-same c (a ∷ rest) m = elim (Bool-cases (is_over c a m)) [
  | inl e ↦ rw (e, match_loop) refl
  | inr e ↦
      rw (e, match_loop)
        (match_loop-same c rest (match_order c a m)
          ∙ modify_trader-same (c.cells a).trader (lazy_posn c.contr c.settl_day) m.traders
              (lazy_posn-same c.contr c.settl_day))
]

match_orders-same :
    (h : Cells) (a : Addr) (b : MarketBook) (ts : List TraderSess) (now : Millis)
    → identities (match_orders h a b ts now).traders ≡ identities ts
unfolding match_orders start
match_orders-same h a b ts now =
    match_loop-same (context_of h a b now) (side (other_side (h a).side) b).orders
      (start b.max_exec_id ts)

placed-same :
    (now : Millis) (a : Addr) (w : World)
    → identities (match_and_place now a w).world.traders ≡ identities w.traders
unfolding match_and_place on_book
placed-same now a w =
    let b = alloc_exec_id w.book in
    let m = match_orders w.cells a b w.traders now in
    let same = match_orders-same w.cells a b w.traders now in
    elim (Bool-cases (done (trade_taker m a now w.cells a))) [
      | inl e ↦ rw (e, match_and_place) same
      | inr e ↦ rw (e, match_and_place) same
    ]

open_posn-same :
    (trader : Str) (ms : List Match) (w : World)
    → identities (open_posn trader ms w).traders ≡ identities w.traders
unfolding open_posn on_resp on_traders
open_posn-same trader [] w = refl
open_posn-same trader (m ∷ ms) w =
    modify_trader-same trader _ w.traders (lazy_posn-same w.book.contr w.book.settl_day)

commit-same :
    (q : NewOrder) (a : Addr) (p : Placed)
    → identities (commit q a p).traders ≡ identities p.world.traders
unfolding commit on_resp on_traders
commit-same q a p =
    let w = open_posn q.trader p.matches p.world in
    commit_matches-same q.trader q.now p.matches _
    ∙ modify_trader-same q.trader (Session.insert_order w.cells a) w.traders
        (insert_order-same w.cells a)
    ∙ open_posn-same q.trader p.matches p.world

undo-same : (a : Addr) (w : World) → identities (undo a w).traders ≡ identities w.traders
unfolding undo on_book
undo-same a w = elim (Bool-cases (done (w.cells a))) [
  | inl e ↦ rw (e, undo) refl
  | inr e ↦ rw (e, undo) refl
]

-- Whatever createOrder is asked, the traders keep their mnemonics and emails and their sequence.
pub create_order-same :
    (bus_day : Millis → Jday) (journ : Str → List Exec → Bool) (q : NewOrder) (w : World)
    → identities (create_order bus_day journ q w).0.traders ≡ identities w.traders
unfolding create_order alloc_order
create_order-same bus_day journ q w =
    let a = w.next in
    let p = match_and_place q.now a (alloc_order q w) in
    elim (Bool-cases (is_expired w.book (bus_day q.now))) [
      | inl e ↦ rw (e, create_order) refl
      | inr e ↦ elim (Bool-cases (bad_lots q)) [
        | inl f ↦ rw (e, f, create_order) refl
        | inr f ↦ elim (Bool-cases (journ w.book.mnem (p.exec ∷ trades_of p.matches))) [
          | inl g ↦
              rw (e, f, g, create_order) (commit-same q a p ∙ placed-same q.now a (alloc_order q w))
          | inr g ↦
              rw (e, f, g, create_order)
                (undo-same a p.world ∙ placed-same q.now a (alloc_order q w))
        ]
      ]
    ]
