-- ===== src/Registry/Maintain.antt =====
-- src/fig/Serv.cpp: `createMarket`, `updateMarket`, `createTrader`, `updateTrader`, and the index of
-- the emails that the constructor makes.
use swirlyc.Common.{ℕ, ◌==◌, ltb, not, List, [], ◌∷◌, Option, none, some, if◌then◌else◌}
use swirlyc.Domain.{Jday, Millis}
use swirlyc.Text.{Str, assign}
use swirlyc.Session.{TraderSess}
use swirlyc.Book.Market.{MarketBook}
use swirlyc.Exception.{Exception, Result, ok, ◌>>=◌, ◌>>◌}
use swirlyc.Rec.{new_market, new_trader, display_max}
use swirlyc.Registry.{
  Registry, EmailPtr, is_mnem, find_email, insert_email, find_contr, find_market, find_trader,
  insert_market, insert_trader, modify_market, modify_trader, get_or_throw, absent_or_throw, guard,
}

-- The tests on the days: bus_day <= expiry_day <= settl_day, or neither day is given.
unfoldable pub check_days : Jday → Jday → Jday → Result (Unit {0})
check_days bus_day settl_day expiry_day =
    if not (settl_day == 0)
    then (do
      guard (not (ltb settl_day expiry_day)) Exception.invalid
      guard (not (ltb expiry_day bus_day)) Exception.invalid)
    else guard (expiry_day == 0) Exception.invalid

module _ (bus_day : Millis → Jday) where
  unfoldable pub create_market :
      Str → Str → Str → Jday → Jday → ℕ → Millis → Registry → Result Registry
  unfolding find_contr check_days find_market is_mnem new_market insert_market
  create_market mnem display contr settl_day expiry_day state now r = do
    c ← get_or_throw Exception.not_found (find_contr contr r.contrs)
    check_days (bus_day now) settl_day expiry_day
    absent_or_throw Exception.already_exists (find_market mnem r.markets)
    guard (is_mnem mnem) Exception.invalid
    ok (record r {
      markets = insert_market (new_market mnem display contr settl_day expiry_day state) r.markets;
    })

-- `setDisplay` and `setState`, where a value is given.
unfoldable pub set_market_display : Option Str → MarketBook → MarketBook
unfolding assign
set_market_display none b = b
set_market_display (some s) b = record b { display = assign display_max s }

unfoldable pub set_market_state : Option ℕ → MarketBook → MarketBook
set_market_state none b = b
set_market_state (some s) b = record b { state = s }

unfoldable pub update_market : Str → Option Str → Option ℕ → Registry → Result Registry
unfolding find_market modify_market set_market_display set_market_state
update_market mnem display state r = do
  b ← get_or_throw Exception.market_not_found (find_market mnem r.markets)
  ok (record r {
    markets =
        modify_market mnem (λ b. set_market_state state (set_market_display display b)) r.markets;
  })

-- What `emailIdx` keeps of a session.
abbrev pub email_ptr : TraderSess → EmailPtr
email_ptr t = record { email = t.email; trader = t.mnem }

unfoldable pub create_trader : Str → Str → Str → Registry → Result Registry
unfolding find_trader find_email is_mnem new_trader insert_trader insert_email
create_trader mnem display email r = do
  absent_or_throw Exception.already_exists (find_trader mnem r.traders)
  absent_or_throw Exception.already_exists (find_email email r.email_idx)
  guard (is_mnem mnem) Exception.invalid
  let t = new_trader mnem display email in
      ok (record r {
        traders = insert_trader t r.traders;
        email_idx = insert_email (email_ptr t) r.email_idx;
      })

unfoldable pub set_trader_display : Str → TraderSess → TraderSess
unfolding assign
set_trader_display s t = record t { display = assign display_max s }

unfoldable pub update_trader : Str → Str → Registry → Result Registry
unfolding find_trader modify_trader set_trader_display
update_trader mnem display r = do
  t ← get_or_throw Exception.trader_not_found (find_trader mnem r.traders)
  ok (record r { traders = modify_trader mnem (set_trader_display display) r.traders })

-- The constructor's loop over the traders.
unfoldable pub index_emails : List TraderSess → List EmailPtr → List EmailPtr
unfolding insert_email
index_emails [] ps = ps
index_emails (t ∷ ts) ps = index_emails ts (insert_email (email_ptr t) ps)
