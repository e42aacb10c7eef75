-- ===== src/Examples/Maintenance.antt =====
-- The theorems on the maintenance of records at concrete records.
use swirlyc.Common.{ℕ, zero, suc, ◌≡◌, ◌≢◌, refl, true, [], ◌∷◌, none, some}
use swirlyc.Text.{Str, codes, assign, compare_str, str_eq}
use swirlyc.Text.Order.{compare_str-IsOrder}
use swirlyc.Book.Market.{MarketBook}
use swirlyc.Exception.{Exception, ok, throw}
use swirlyc.Rec.{new_trader, new_market, market_rec, new_rec}
use swirlyc.OrderedSet.Laws
use swirlyc.Registry.{
  Registry, is_mnem, is_mnem_char, find_email, find_trader, find_market, find_contr, insert_market,
  market_key,
}
use swirlyc.Registry.Maintain.{check_days, create_market, create_trader}
use swirlyc.Registry.Answers.{create_market-found, create_trader-found, create_trader-long_email}
use swirlyc.Examples.Records.{no_records, one_trader, marayl, created}

abbrev eurusd_market : MarketBook
eurusd_market = new_market (codes "EURUSD") (codes "Spot") (codes "EURUSD") 2457389 2457388 0

abbrev one_market : Registry
one_market = record no_records { markets = eurusd_market ∷ [] }

opened :
    create_market
      (λ now. 2457388)
      (codes "EURUSD")
      (codes "Spot")
      (codes "EURUSD")
      2457389
      2457388
      0
      7
      no_records
    ≡ ok one_market
unfolding create_market find_contr check_days find_market is_mnem is_mnem_char insert_market
    new_market market_rec new_rec compare_str
opened = refl

create_market-found_example :
    (find_market (codes "EURUSD") [] ≡ none)
    × (is_mnem (codes "EURUSD") ≡ true)
    × (find_market (codes "EURUSD") one_market.markets ≡ some eurusd_market)
    × ((k : Str) → k ≢ codes "EURUSD" → find_market k one_market.markets ≡ find_market k [])
    × (Laws.IsSorted market_key compare_str compare_str-IsOrder []
        → Laws.IsSorted market_key compare_str compare_str-IsOrder one_market.markets)
create_market-found_example =
    create_market-found (λ now. 2457388) (codes "EURUSD") (codes "Spot") (codes "EURUSD") 2457389
      2457388 0 7 no_records one_market opened

create_trader-found_example :
    (find_trader (codes "MARAYL") one_trader.traders
      ≡ some (new_trader (codes "MARAYL") (codes "Mark") (codes "m@x")))
    × ((k : Str) → k ≢ codes "MARAYL" → find_trader k one_trader.traders ≡ find_trader k [])
    × ((display email : Str)
        → create_trader (codes "MARAYL") display email one_trader ≡ throw Exception.already_exists)
create_trader-found_example =
    create_trader-found (codes "MARAYL") (codes "Mark") (codes "m@x") no_records one_trader created

-- An email of 65 letters, and the trader whose email is its first 64.
abbrev letters : ℕ → Str
letters zero = []
letters (suc n) = b'a' ∷ letters n

abbrev long_trader : Registry
long_trader = record no_records {
  traders = record marayl { email = letters 64 } ∷ [];
  email_idx = (record { email = letters 64; trader = codes "MARAYL" }) ∷ [];
}

create_trader-long_email_example :
    (r' : Registry) × (create_trader (codes "GOSAYL") (codes "") (letters 65) long_trader ≡ ok r')
    × (r'.email_idx ≡ long_trader.email_idx)
    × (find_trader (codes "GOSAYL") r'.traders
        ≡ some (new_trader (codes "GOSAYL") (codes "") (letters 65)))
unfolding find_email find_trader is_mnem is_mnem_char str_eq assign compare_str
create_trader-long_email_example =
    create_trader-long_email (codes "GOSAYL") (codes "") (letters 65)
      (record { email = letters 64; trader = codes "MARAYL" }) long_trader refl refl refl refl
