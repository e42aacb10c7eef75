-- ===== src/Registry/Answers.antt =====
-- src/fig/Serv.cpp: what the lookups answer after `createMarket`, `updateMarket`, `createTrader` and
-- `updateTrader`, and which calls throw.
use swirlyc.Common.{ℕ, ◌≡◌, ◌≢◌, ◌≤◌, sym, ap, ◌∙◌, ◌⊎◌, ◌↔◌, arith, true, false, none, some}
use swirlyc.Domain.{Jday, Millis}
use swirlyc.Text.{Str, assign, compare_str}
use swirlyc.Text.Order.{compare_str-IsOrder}
use swirlyc.Session.{TraderSess}
use swirlyc.Book.Market.{MarketBook}
use swirlyc.Exception.{Exception, ok, throw}
use swirlyc.Rec.{new_trader, new_market, email_max}
use swirlyc.OrderedSet.Laws
use swirlyc.Registry.{
  Registry, EmailPtr, is_mnem, find_email, find_trader, find_contr, find_market, insert_trader,
  insert_market, market_key, insert_email,
}
use swirlyc.Registry.Maintain.{create_trader, create_market, check_days, email_ptr}
use swirlyc.Registry.Created.{
  create_trader_ok, create_market_ok, mnem-new_trader, mnem-new_market, find-insert_market,
  find-insert_market_ne, find-insert_trader, find-insert_trader_ne, insert_email_found,
}

-- The tests on a new market's days pass for exactly two shapes: no day is given, or the settlement
-- day is given and the business day, the expiry day and the settlement day do not fall.
pub check_days_iff :
    (bus_day settl_day expiry_day : Jday)
    → (check_days bus_day settl_day expiry_day ≡ ok tt) ↔ (
        ((settl_day ≡ 0) × (expiry_day ≡ 0))
        ⊎ ((settl_day ≢ 0) × (bus_day ≤ expiry_day) × (expiry_day ≤ settl_day)))
unfolding check_days
check_days_iff b s e = ground arith

throws :
    (bus_day : Millis → Jday) (mnem display contr : Str) (settl_day expiry_day : Jday) (state : ℕ)
    (now : Millis) (r : Registry) (b : MarketBook)
    → find_contr contr r.contrs ≢ none
    → check_days (bus_day now) settl_day expiry_day ≡ ok tt
    → find_market mnem r.markets ≡ some b
    → create_market bus_day mnem display contr settl_day expiry_day state now r
      ≡ throw Exception.already_exists
unfolding create_market
throws bus_day mnem display contr sd ed state now r b n d f = ground (arith, n, d, f)

trader_throws :
    (mnem display email : Str) (r : Registry) (t : TraderSess)
    → find_trader mnem r.traders ≡ some t
    → create_trader mnem display email r ≡ throw Exception.already_exists
unfolding create_trader
trader_throws mnem display email r t f = ground (arith, f)

module _ (bus_day : Millis → Jday) (mnem display contr : Str) (settl_day expiry_day : Jday)
    (state : ℕ) (now : Millis) where
  -- After a successful createMarket the market is found by its mnemonic, every other mnemonic finds
  -- what it found, the mnemonic is new and well formed, and markets that were sorted are sorted.
  pub create_market-found :
      (r r' : Registry)
      → create_market bus_day mnem display contr settl_day expiry_day state now r ≡ ok r'
      → (find_market mnem r.markets ≡ none)
        × (is_mnem mnem ≡ true)
        × (find_market mnem r'.markets
            ≡ some (new_market mnem display contr settl_day expiry_day state))
        × ((k : Str) → k ≢ mnem → find_market k r'.markets ≡ find_market k r.markets)
        × (Laws.IsSorted market_key compare_str compare_str-IsOrder r.markets
            → Laws.IsSorted market_key compare_str compare_str-IsOrder r'.markets)
  unfolding insert_market
  create_market-found r r' h =
      let f = create_market_ok bus_day mnem display contr settl_day expiry_day state now r r' h in
      let b = new_market mnem display contr settl_day expiry_day state in
      let key = mnem-new_market mnem display contr settl_day expiry_day state f.3 in
      let e : r'.markets ≡ insert_market b r.markets = ap (λ q. q.markets) f.4 in
      (
        f.2,
        f.3,
        rw e (find-insert_market mnem b r.markets key f.2),
        λ k n. rw e (find-insert_market_ne k mnem b r.markets key n),
        λ s. rw e (Laws.insert-IsSorted market_key compare_str compare_str-IsOrder b r.markets s),
      )

  -- A createMarket that succeeded throws already_exists when it is called again, whatever the new
  -- display name, days that pass the tests, state and time are.
  pub create_market-again :
      (r r' : Registry) (display' : Str) (settl_day' expiry_day' : Jday) (state' : ℕ)
      (now' : Millis)
      → create_market bus_day mnem display contr settl_day expiry_day state now r ≡ ok r'
      → check_days (bus_day now') settl_day' expiry_day' ≡ ok tt
      → create_market bus_day mnem display' contr settl_day' expiry_day' state' now' r'
        ≡ throw Exception.already_exists
  create_market-again r r' display' sd' ed' state' now' h d =
      let f = create_market_ok bus_day mnem display contr settl_day expiry_day state now r r' h in
      let g = create_market-found r r' h in
      throws bus_day mnem display' contr sd' ed' state' now' r' _
        (λ e. f.0 (ap (λ q. find_contr contr q.contrs) (sym f.4) ∙ e)) d g.2

-- After a successful createTrader the trader is found by its mnemonic and every other mnemonic finds
-- what it found; calling it for this mnemonic again throws already_exists.
pub create_trader-found :
    (mnem display email : Str) (r r' : Registry)
    → create_trader mnem display email r ≡ ok r'
    → (find_trader mnem r'.traders ≡ some (new_trader mnem display email))
      × ((k : Str) → k ≢ mnem → find_trader k r'.traders ≡ find_trader k r.traders)
      × ((display' email' : Str)
          → create_trader mnem display' email' r' ≡ throw Exception.already_exists)
create_trader-found mnem display email r r' h =
    let f = create_trader_ok mnem display email r r' h in
    let t = new_trader mnem display email in
    let key = mnem-new_trader mnem display email f.2 in
    let e : r'.traders ≡ insert_trader t r.traders = ap (λ q. q.traders) f.3 in
    let found : find_trader mnem r'.traders ≡ some t =
      rw e (find-insert_trader mnem t r.traders key f.0) in
    (
      found,
      λ k n. rw e (find-insert_trader_ne k mnem t r.traders key n),
      λ d m. trader_throws mnem d m r' t found,
    )

-- What createTrader throws: already_exists where the mnemonic or the email is in use, invalid where
-- neither is and the mnemonic is not well formed; else it succeeds.
pub create_trader-throws :
    (mnem display email : Str) (r : Registry)
    → ((create_trader mnem display email r ≡ throw Exception.already_exists)
        × ((find_trader mnem r.traders ≢ none) ⊎ (find_email email r.email_idx ≢ none)))
      ⊎ ((create_trader mnem display email r ≡ throw Exception.invalid)
          × (find_trader mnem r.traders ≡ none)
          × (find_email email r.email_idx ≡ none)
          × (is_mnem mnem ≡ false))
      ⊎ ((r' : Registry) × (create_trader mnem display email r ≡ ok r'))
unfolding create_trader
create_trader-throws mnem display email r = ground arith

-- Where an email is not in use but what its field keeps of it is, createTrader of a new, well-formed
-- mnemonic adds the trader, and the index stays as it was, without the new trader.
pub create_trader-long_email :
    (mnem display email : Str) (p : EmailPtr) (r : Registry)
    → find_email (assign email_max email) r.email_idx ≡ some p
    → find_trader mnem r.traders ≡ none
    → find_email email r.email_idx ≡ none
    → is_mnem mnem ≡ true
    → (r' : Registry) × (create_trader mnem display email r ≡ ok r')
      × (r'.email_idx ≡ r.email_idx)
      × (find_trader mnem r'.traders ≡ some (new_trader mnem display email))
unfolding create_trader new_trader
create_trader-long_email mnem display email p r h a b c =
    let t = new_trader mnem display email in
    let r'' = record r {
      traders = insert_trader t r.traders;
      email_idx = insert_email (email_ptr t) r.email_idx;
    } in
    (
      r'',
      ground (arith, a, b, c),
      insert_email_found (email_ptr t) p r.email_idx h,
      find-insert_trader mnem t r.traders (mnem-new_trader mnem display email c) a,
    )
